-- ===== src/KeyValueTags/Generated/Update/FromCodeartifact.antt =====
-- internal/keyvaluetags/update_tags_gen.go: CodeartifactUpdateTags to DatabasemigrationserviceUpdateTags.
use terraform_provider_awsut.Prelude.{[], ◌∷◌, codes}
use terraform_provider_awsut.KeyValueTags.Filter.{ignore_aws}
use terraform_provider_awsut.KeyValueTags.Requests.{string, Client, plain_keys}
use terraform_provider_awsut.KeyValueTags.Generated.Shapes.{UpdateFunction, update_tags}
use terraform_provider_awsut.KeyValueTags.Generated.MapTags.FromAccessanalyzer.{
  codecommit_tags, codestarnotifications_tags, cognitoidentity_tags, cognitoidentityprovider_tags,
}
use terraform_provider_awsut.KeyValueTags.Generated.SliceTags.FromAcm.{
  codeartifact_tags, codedeploy_tags, codepipeline_tags, codestarconnections_tags,
  configservice_tags, databasemigrationservice_tags,
}

module _ {W : Type 0} (client : Client W) where
  abbrev pub codeartifact_update_tags : UpdateFunction W
  codeartifact_update_tags identifier _ =
      update_tags client (codes "codeartifact") identifier
        (
          codes "UntagResource",
          λ tags.
              (codes "ResourceArn", string identifier) ∷ (codes "TagKeys", plain_keys tags) ∷ [],
        )
        (
          codes "TagResource",
          λ tags.
              (codes "ResourceArn", string identifier)
              ∷ (codes "Tags", codeartifact_tags (ignore_aws tags))
              ∷ [],
        )

  abbrev pub codecommit_update_tags : UpdateFunction W
  codecommit_update_tags identifier _ =
      update_tags client (codes "codecommit") identifier
        (
          codes "UntagResource",
          λ tags.
              (codes "ResourceArn", string identifier) ∷ (codes "TagKeys", plain_keys tags) ∷ [],
        )
        (
          codes "TagResource",
          λ tags.
              (codes "ResourceArn", string identifier)
              ∷ (codes "Tags", codecommit_tags (ignore_aws tags))
              ∷ [],
        )

  abbrev pub codedeploy_update_tags : UpdateFunction W
  codedeploy_update_tags identifier _ =
      update_tags client (codes "codedeploy") identifier
        (
          codes "UntagResource",
          λ tags.
              (codes "ResourceArn", string identifier) ∷ (codes "TagKeys", plain_keys tags) ∷ [],
        )
        (
          codes "TagResource",
          λ tags.
              (codes "ResourceArn", string identifier)
              ∷ (codes "Tags", codedeploy_tags (ignore_aws tags))
              ∷ [],
        )

  abbrev pub codepipeline_update_tags : UpdateFunction W
  codepipeline_update_tags identifier _ =
      update_tags client (codes "codepipeline") identifier
        (
          codes "UntagResource",
          λ tags.
              (codes "ResourceArn", string identifier) ∷ (codes "TagKeys", plain_keys tags) ∷ [],
        )
        (
          codes "TagResource",
          λ tags.
              (codes "ResourceArn", string identifier)
              ∷ (codes "Tags", codepipeline_tags (ignore_aws tags))
              ∷ [],
        )

  abbrev pub codestarconnections_update_tags : UpdateFunction W
  codestarconnections_update_tags identifier _ =
      update_tags client (codes "codestarconnections") identifier
        (
          codes "UntagResource",
          λ tags.
              (codes "ResourceArn", string identifier) ∷ (codes "TagKeys", plain_keys tags) ∷ [],
        )
        (
          codes "TagResource",
          λ tags.
              (codes "ResourceArn", string identifier)
              ∷ (codes "Tags", codestarconnections_tags (ignore_aws tags))
              ∷ [],
        )

  abbrev pub codestarnotifications_update_tags : UpdateFunction W
  codestarnotifications_update_tags identifier _ =
      update_tags client (codes "codestarnotifications") identifier
        (
          codes "UntagResource",
          λ tags. (codes "Arn", string identifier) ∷ (codes "TagKeys", plain_keys tags) ∷ [],
        )
        (
          codes "TagResource",
          λ tags.
              (codes "Arn", string identifier)
              ∷ (codes "Tags", codestarnotifications_tags (ignore_aws tags))
              ∷ [],
        )

  abbrev pub cognitoidentity_update_tags : UpdateFunction W
  cognitoidentity_update_tags identifier _ =
      update_tags client (codes "cognitoidentity") identifier
        (
          codes "UntagResource",
          λ tags.
              (codes "ResourceArn", string identifier) ∷ (codes "TagKeys", plain_keys tags) ∷ [],
        )
        (
          codes "TagResource",
          λ tags.
              (codes "ResourceArn", string identifier)
              ∷ (codes "Tags", cognitoidentity_tags (ignore_aws tags))
              ∷ [],
        )

  abbrev pub cognitoidentityprovider_update_tags : UpdateFunction W
  cognitoidentityprovider_update_tags identifier _ =
      update_tags client (codes "cognitoidentityprovider") identifier
        (
          codes "UntagResource",
          λ tags.
              (codes "ResourceArn", string identifier) ∷ (codes "TagKeys", plain_keys tags) ∷ [],
        )
        (
          codes "TagResource",
          λ tags.
              (codes "ResourceArn", string identifier)
              ∷ (codes "Tags", cognitoidentityprovider_tags (ignore_aws tags))
              ∷ [],
        )

  abbrev pub configservice_update_tags : UpdateFunction W
  configservice_update_tags identifier _ =
      update_tags client (codes "configservice") identifier
        (
          codes "UntagResource",
          λ tags.
              (codes "ResourceArn", string identifier) ∷ (codes "TagKeys", plain_keys tags) ∷ [],
        )
        (
          codes "TagResource",
          λ tags.
              (codes "ResourceArn", string identifier)
              ∷ (codes "Tags", configservice_tags (ignore_aws tags))
              ∷ [],
        )

  abbrev pub databasemigrationservice_update_tags : UpdateFunction W
  databasemigrationservice_update_tags identifier _ =
      update_tags client (codes "databasemigrationservice") identifier
        (
          codes "RemoveTagsFromResource",
          λ tags.
              (codes "ResourceArn", string identifier) ∷ (codes "TagKeys", plain_keys tags) ∷ [],
        )
        (
          codes "AddTagsToResource",
          λ tags.
              (codes "ResourceArn", string identifier)
              ∷ (codes "Tags", databasemigrationservice_tags (ignore_aws tags))
              ∷ [],
        )
