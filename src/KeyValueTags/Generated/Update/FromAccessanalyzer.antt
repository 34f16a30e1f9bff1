-- ===== src/KeyValueTags/Generated/Update/FromAccessanalyzer.antt =====
-- internal/keyvaluetags/update_tags_gen.go: AccessanalyzerUpdateTags to AppsyncUpdateTags.
use terraform_provider_awsut.Prelude.{[], ◌∷◌, codes}
use terraform_provider_awsut.KeyValueTags.Filter.{ignore_aws}
use terraform_provider_awsut.KeyValueTags.Requests.{string, Client, plain_keys}
use terraform_provider_awsut.KeyValueTags.Generated.Shapes.{UpdateFunction, update_tags}
use terraform_provider_awsut.KeyValueTags.Generated.MapTags.FromAccessanalyzer.{
  accessanalyzer_tags, amplify_tags, apigateway_tags, apigatewayv2_tags, appstream_tags,
  appsync_tags,
}
use terraform_provider_awsut.KeyValueTags.Generated.SliceTags.FromAcm.{
  acm_tags, acmpca_tags, appmesh_tags, apprunner_tags,
}

module _ {W : Type 0} (client : Client W) where
  abbrev pub accessanalyzer_update_tags : UpdateFunction W
  accessanalyzer_update_tags identifier _ =
      update_tags client (codes "accessanalyzer") identifier
        (
          codes "UntagResource",
          λ tags.
              (codes "ResourceArn", string identifier) ∷ (codes "TagKeys", plain_keys tags) ∷ [],
        )
        (
          codes "TagResource",
          λ tags.
              (codes "ResourceArn", string identifier)
              ∷ (codes "Tags", accessanalyzer_tags (ignore_aws tags))
              ∷ [],
        )

  abbrev pub acm_update_tags : UpdateFunction W
  acm_update_tags identifier _ =
      update_tags client (codes "acm") identifier
        (
          codes "RemoveTagsFromCertificate",
          λ tags.
              (codes "CertificateArn", string identifier)
              ∷ (codes "Tags", acm_tags (ignore_aws tags))
              ∷ [],
        )
        (
          codes "AddTagsToCertificate",
          λ tags.
              (codes "CertificateArn", string identifier)
              ∷ (codes "Tags", acm_tags (ignore_aws tags))
              ∷ [],
        )

  abbrev pub acmpca_update_tags : UpdateFunction W
  acmpca_update_tags identifier _ =
      update_tags client (codes "acmpca") identifier
        (
          codes "UntagCertificateAuthority",
          λ tags.
              (codes "CertificateAuthorityArn", string identifier)
              ∷ (codes "Tags", acmpca_tags (ignore_aws tags))
              ∷ [],
        )
        (
          codes "TagCertificateAuthority",
          λ tags.
              (codes "CertificateAuthorityArn", string identifier)
              ∷ (codes "Tags", acmpca_tags (ignore_aws tags))
              ∷ [],
        )

  abbrev pub amplify_update_tags : UpdateFunction W
  amplify_update_tags identifier _ =
      update_tags client (codes "amplify") identifier
        (
          codes "UntagResource",
          λ tags.
              (codes "ResourceArn", string identifier) ∷ (codes "TagKeys", plain_keys tags) ∷ [],
        )
        (
          codes "TagResource",
          λ tags.
              (codes "ResourceArn", string identifier)
              ∷ (codes "Tags", amplify_tags (ignore_aws tags))
              ∷ [],
        )

  abbrev pub apigateway_update_tags : UpdateFunction W
  apigateway_update_tags identifier _ =
      update_tags client (codes "apigateway") identifier
        (
          codes "UntagResource",
          λ tags.
              (codes "ResourceArn", string identifier) ∷ (codes "TagKeys", plain_keys tags) ∷ [],
        )
        (
          codes "TagResource",
          λ tags.
              (codes "ResourceArn", string identifier)
              ∷ (codes "Tags", apigateway_tags (ignore_aws tags))
              ∷ [],
        )

  abbrev pub apigatewayv2_update_tags : UpdateFunction W
  apigatewayv2_update_tags identifier _ =
      update_tags client (codes "apigatewayv2") identifier
        (
          codes "UntagResource",
          λ tags.
              (codes "ResourceArn", string identifier) ∷ (codes "TagKeys", plain_keys tags) ∷ [],
        )
        (
          codes "TagResource",
          λ tags.
              (codes "ResourceArn", string identifier)
              ∷ (codes "Tags", apigatewayv2_tags (ignore_aws tags))
              ∷ [],
        )

  abbrev pub appmesh_update_tags : UpdateFunction W
  appmesh_update_tags identifier _ =
      update_tags client (codes "appmesh") identifier
        (
          codes "UntagResource",
          λ tags.
              (codes "ResourceArn", string identifier) ∷ (codes "TagKeys", plain_keys tags) ∷ [],
        )
        (
          codes "TagResource",
          λ tags.
              (codes "ResourceArn", string identifier)
              ∷ (codes "Tags", appmesh_tags (ignore_aws tags))
              ∷ [],
        )

  abbrev pub apprunner_update_tags : UpdateFunction W
  apprunner_update_tags identifier _ =
      update_tags client (codes "apprunner") identifier
        (
          codes "UntagResource",
          λ tags.
              (codes "ResourceArn", string identifier) ∷ (codes "TagKeys", plain_keys tags) ∷ [],
        )
        (
          codes "TagResource",
          λ tags.
              (codes "ResourceArn", string identifier)
              ∷ (codes "Tags", apprunner_tags (ignore_aws tags))
              ∷ [],
        )

  abbrev pub appstream_update_tags : UpdateFunction W
  appstream_update_tags identifier _ =
      update_tags client (codes "appstream") identifier
        (
          codes "UntagResource",
          λ tags.
              (codes "ResourceArn", string identifier) ∷ (codes "TagKeys", plain_keys tags) ∷ [],
        )
        (
          codes "TagResource",
          λ tags.
              (codes "ResourceArn", string identifier)
              ∷ (codes "Tags", appstream_tags (ignore_aws tags))
              ∷ [],
        )

  abbrev pub appsync_update_tags : UpdateFunction W
  appsync_update_tags identifier _ =
      update_tags client (codes "appsync") identifier
        (
          codes "UntagResource",
          λ tags.
              (codes "ResourceArn", string identifier) ∷ (codes "TagKeys", plain_keys tags) ∷ [],
        )
        (
          codes "TagResource",
          λ tags.
              (codes "ResourceArn", string identifier)
              ∷ (codes "Tags", appsync_tags (ignore_aws tags))
              ∷ [],
        )
