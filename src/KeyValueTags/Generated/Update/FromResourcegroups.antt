-- ===== src/KeyValueTags/Generated/Update/FromResourcegroups.antt =====
-- internal/keyvaluetags/update_tags_gen.go: ResourcegroupsUpdateTags to ShieldUpdateTags.
use terraform_provider_awsut.Prelude.{[], ◌∷◌, codes}
use terraform_provider_awsut.Prelude.Map.{entries}
use terraform_provider_awsut.KeyValueTags.Filter.{ignore_aws}
use terraform_provider_awsut.KeyValueTags.Access.{keys}
use terraform_provider_awsut.KeyValueTags.Requests.{string, string_slice, Client, plain_keys}
use terraform_provider_awsut.KeyValueTags.Generated.Shapes.{
  UpdateFunction, update_tags, update_tags_at_once,
}
use terraform_provider_awsut.KeyValueTags.Generated.MapTags.FromMwaa.{
  resourcegroups_tags, schemas_tags, securityhub_tags,
}
use terraform_provider_awsut.KeyValueTags.Generated.SliceTags.FromOrganizations.{
  route53_tags, route53resolver_tags, sagemaker_tags, secretsmanager_tags, servicediscovery_tags,
  sfn_tags, shield_tags,
}

module _ {W : Type 0} (client : Client W) where
  abbrev pub resourcegroups_update_tags : UpdateFunction W
  resourcegroups_update_tags identifier _ =
      update_tags client (codes "resourcegroups") identifier
        (
          codes "Untag",
          λ tags. (codes "Arn", string identifier) ∷ (codes "Keys", plain_keys tags) ∷ [],
        )
        (
          codes "Tag",
          λ tags.
              (codes "Arn", string identifier)
              ∷ (codes "Tags", resourcegroups_tags (ignore_aws tags))
              ∷ [],
        )

  abbrev pub route53_update_tags : UpdateFunction W
  route53_update_tags identifier resource_type =
      update_tags_at_once client (codes "route53") identifier (codes "ChangeTagsForResource")
        ((codes "ResourceId", string identifier)
          ∷ (codes "ResourceType", string resource_type)
          ∷ [])
        (λ tags. (codes "AddTags", route53_tags (ignore_aws tags)) ∷ [])
        (λ tags. (codes "RemoveTagKeys", string_slice (keys (entries tags))) ∷ [])

  abbrev pub route53resolver_update_tags : UpdateFunction W
  route53resolver_update_tags identifier _ =
      update_tags client (codes "route53resolver") identifier
        (
          codes "UntagResource",
          λ tags.
              (codes "ResourceArn", string identifier) ∷ (codes "TagKeys", plain_keys tags) ∷ [],
        )
        (
          codes "TagResource",
          λ tags.
              (codes "ResourceArn", string identifier)
              ∷ (codes "Tags", route53resolver_tags (ignore_aws tags))
              ∷ [],
        )

  abbrev pub sagemaker_update_tags : UpdateFunction W
  sagemaker_update_tags identifier _ =
      update_tags client (codes "sagemaker") identifier
        (
          codes "DeleteTags",
          λ tags.
              (codes "ResourceArn", string identifier) ∷ (codes "TagKeys", plain_keys tags) ∷ [],
        )
        (
          codes "AddTags",
          λ tags.
              (codes "ResourceArn", string identifier)
              ∷ (codes "Tags", sagemaker_tags (ignore_aws tags))
              ∷ [],
        )

  abbrev pub schemas_update_tags : UpdateFunction W
  schemas_update_tags identifier _ =
      update_tags client (codes "schemas") identifier
        (
          codes "UntagResource",
          λ tags.
              (codes "ResourceArn", string identifier) ∷ (codes "TagKeys", plain_keys tags) ∷ [],
        )
        (
          codes "TagResource",
          λ tags.
              (codes "ResourceArn", string identifier)
              ∷ (codes "Tags", schemas_tags (ignore_aws tags))
              ∷ [],
        )

  abbrev pub secretsmanager_update_tags : UpdateFunction W
  secretsmanager_update_tags identifier _ =
      update_tags client (codes "secretsmanager") identifier
        (
          codes "UntagResource",
          λ tags. (codes "SecretId", string identifier) ∷ (codes "TagKeys", plain_keys tags) ∷ [],
        )
        (
          codes "TagResource",
          λ tags.
              (codes "SecretId", string identifier)
              ∷ (codes "Tags", secretsmanager_tags (ignore_aws tags))
              ∷ [],
        )

  abbrev pub securityhub_update_tags : UpdateFunction W
  securityhub_update_tags identifier _ =
      update_tags client (codes "securityhub") identifier
        (
          codes "UntagResource",
          λ tags.
              (codes "ResourceArn", string identifier) ∷ (codes "TagKeys", plain_keys tags) ∷ [],
        )
        (
          codes "TagResource",
          λ tags.
              (codes "ResourceArn", string identifier)
              ∷ (codes "Tags", securityhub_tags (ignore_aws tags))
              ∷ [],
        )

  abbrev pub servicediscovery_update_tags : UpdateFunction W
  servicediscovery_update_tags identifier _ =
      update_tags client (codes "servicediscovery") identifier
        (
          codes "UntagResource",
          λ tags.
              (codes "ResourceARN", string identifier) ∷ (codes "TagKeys", plain_keys tags) ∷ [],
        )
        (
          codes "TagResource",
          λ tags.
              (codes "ResourceARN", string identifier)
              ∷ (codes "Tags", servicediscovery_tags (ignore_aws tags))
              ∷ [],
        )

  abbrev pub sfn_update_tags : UpdateFunction W
  sfn_update_tags identifier _ =
      update_tags client (codes "sfn") identifier
        (
          codes "UntagResource",
          λ tags.
              (codes "ResourceArn", string identifier) ∷ (codes "TagKeys", plain_keys tags) ∷ [],
        )
        (
          codes "TagResource",
          λ tags.
              (codes "ResourceArn", string identifier)
              ∷ (codes "Tags", sfn_tags (ignore_aws tags))
              ∷ [],
        )

  abbrev pub shield_update_tags : UpdateFunction W
  shield_update_tags identifier _ =
      update_tags client (codes "shield") identifier
        (
          codes "UntagResource",
          λ tags.
              (codes "ResourceARN", string identifier) ∷ (codes "TagKeys", plain_keys tags) ∷ [],
        )
        (
          codes "TagResource",
          λ tags.
              (codes "ResourceARN", string identifier)
              ∷ (codes "Tags", shield_tags (ignore_aws tags))
              ∷ [],
        )
