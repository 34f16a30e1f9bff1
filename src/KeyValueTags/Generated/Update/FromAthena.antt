-- ===== src/KeyValueTags/Generated/Update/FromAthena.antt =====
-- internal/keyvaluetags/update_tags_gen.go: AthenaUpdateTags to CloudwatchlogsUpdateTags.
use terraform_provider_awsut.Prelude.{[], ◌∷◌, codes}
use terraform_provider_awsut.KeyValueTags.Filter.{ignore_aws}
use terraform_provider_awsut.KeyValueTags.Requests.{string, struct, Client, plain_keys}
use terraform_provider_awsut.KeyValueTags.Generated.Shapes.{UpdateFunction, update_tags}
use terraform_provider_awsut.KeyValueTags.Generated.MapTags.FromAccessanalyzer.{
  backup_tags, batch_tags, cloudwatchlogs_tags,
}
use terraform_provider_awsut.KeyValueTags.Generated.SliceTags.FromAcm.{
  athena_tags, cloud9_tags, cloudfront_tags, cloudhsmv2_tags, cloudtrail_tags, cloudwatch_tags,
  cloudwatchevents_tags,
}

module _ {W : Type 0} (client : Client W) where
  abbrev pub athena_update_tags : UpdateFunction W
  athena_update_tags identifier _ =
      update_tags client (codes "athena") identifier
        (
          codes "UntagResource",
          λ tags.
              (codes "ResourceARN", string identifier) ∷ (codes "TagKeys", plain_keys tags) ∷ [],
        )
        (
          codes "TagResource",
          λ tags.
              (codes "ResourceARN", string identifier)
              ∷ (codes "Tags", athena_tags (ignore_aws tags))
              ∷ [],
        )

  abbrev pub backup_update_tags : UpdateFunction W
  backup_update_tags identifier _ =
      update_tags client (codes "backup") identifier
        (
          codes "UntagResource",
          λ tags.
              (codes "ResourceArn", string identifier) ∷ (codes "TagKeyList", plain_keys tags) ∷ [],
        )
        (
          codes "TagResource",
          λ tags.
              (codes "ResourceArn", string identifier)
              ∷ (codes "Tags", backup_tags (ignore_aws tags))
              ∷ [],
        )

  abbrev pub batch_update_tags : UpdateFunction W
  batch_update_tags identifier _ =
      update_tags client (codes "batch") identifier
        (
          codes "UntagResource",
          λ tags.
              (codes "ResourceArn", string identifier) ∷ (codes "TagKeys", plain_keys tags) ∷ [],
        )
        (
          codes "TagResource",
          λ tags.
              (codes "ResourceArn", string identifier)
              ∷ (codes "Tags", batch_tags (ignore_aws tags))
              ∷ [],
        )

  abbrev pub cloud9_update_tags : UpdateFunction W
  cloud9_update_tags identifier _ =
      update_tags client (codes "cloud9") identifier
        (
          codes "UntagResource",
          λ tags.
              (codes "ResourceARN", string identifier) ∷ (codes "TagKeys", plain_keys tags) ∷ [],
        )
        (
          codes "TagResource",
          λ tags.
              (codes "ResourceARN", string identifier)
              ∷ (codes "Tags", cloud9_tags (ignore_aws tags))
              ∷ [],
        )

  abbrev pub cloudfront_update_tags : UpdateFunction W
  cloudfront_update_tags identifier _ =
      update_tags client (codes "cloudfront") identifier
        (
          codes "UntagResource",
          λ tags.
              (codes "Resource", string identifier)
              ∷ (codes "TagKeys", struct (codes "TagKeys") (codes "Items") (plain_keys tags))
              ∷ [],
        )
        (
          codes "TagResource",
          λ tags.
              (codes "Resource", string identifier)
              ∷ (
                codes "Tags",
                struct (codes "Tags") (codes "Items") (cloudfront_tags (ignore_aws tags)),
              )
              ∷ [],
        )

  abbrev pub cloudhsmv2_update_tags : UpdateFunction W
  cloudhsmv2_update_tags identifier _ =
      update_tags client (codes "cloudhsmv2") identifier
        (
          codes "UntagResource",
          λ tags.
              (codes "ResourceId", string identifier) ∷ (codes "TagKeyList", plain_keys tags) ∷ [],
        )
        (
          codes "TagResource",
          λ tags.
              (codes "ResourceId", string identifier)
              ∷ (codes "TagList", cloudhsmv2_tags (ignore_aws tags))
              ∷ [],
        )

  abbrev pub cloudtrail_update_tags : UpdateFunction W
  cloudtrail_update_tags identifier _ =
      update_tags client (codes "cloudtrail") identifier
        (
          codes "RemoveTags",
          λ tags.
              (codes "ResourceId", string identifier)
              ∷ (codes "TagsList", cloudtrail_tags (ignore_aws tags))
              ∷ [],
        )
        (
          codes "AddTags",
          λ tags.
              (codes "ResourceId", string identifier)
              ∷ (codes "TagsList", cloudtrail_tags (ignore_aws tags))
              ∷ [],
        )

  abbrev pub cloudwatch_update_tags : UpdateFunction W
  cloudwatch_update_tags identifier _ =
      update_tags client (codes "cloudwatch") identifier
        (
          codes "UntagResource",
          λ tags.
              (codes "ResourceARN", string identifier) ∷ (codes "TagKeys", plain_keys tags) ∷ [],
        )
        (
          codes "TagResource",
          λ tags.
              (codes "ResourceARN", string identifier)
              ∷ (codes "Tags", cloudwatch_tags (ignore_aws tags))
              ∷ [],
        )

  abbrev pub cloudwatchevents_update_tags : UpdateFunction W
  cloudwatchevents_update_tags identifier _ =
      update_tags client (codes "cloudwatchevents") identifier
        (
          codes "UntagResource",
          λ tags.
              (codes "ResourceARN", string identifier) ∷ (codes "TagKeys", plain_keys tags) ∷ [],
        )
        (
          codes "TagResource",
          λ tags.
              (codes "ResourceARN", string identifier)
              ∷ (codes "Tags", cloudwatchevents_tags (ignore_aws tags))
              ∷ [],
        )

  abbrev pub cloudwatchlogs_update_tags : UpdateFunction W
  cloudwatchlogs_update_tags identifier _ =
      update_tags client (codes "cloudwatchlogs") identifier
        (
          codes "UntagLogGroup",
          λ tags. (codes "LogGroupName", string identifier) ∷ (codes "Tags", plain_keys tags) ∷ [],
        )
        (
          codes "TagLogGroup",
          λ tags.
              (codes "LogGroupName", string identifier)
              ∷ (codes "Tags", cloudwatchlogs_tags (ignore_aws tags))
              ∷ [],
        )
