-- ===== src/KeyValueTags/Generated/Update/FromEmr.antt =====
-- internal/keyvaluetags/update_tags_gen.go: EmrUpdateTags to ImagebuilderUpdateTags.
use terraform_provider_awsut.Prelude.{[], ◌∷◌, codes}
use terraform_provider_awsut.KeyValueTags.Filter.{ignore_aws}
use terraform_provider_awsut.KeyValueTags.Requests.{string, Client, plain_keys}
use terraform_provider_awsut.KeyValueTags.Generated.Shapes.{UpdateFunction, update_tags}
use terraform_provider_awsut.KeyValueTags.Generated.MapTags.FromAccessanalyzer.{
  glacier_tags, glue_tags, greengrass_tags, guardduty_tags, imagebuilder_tags,
}
use terraform_provider_awsut.KeyValueTags.Generated.SliceTags.FromEcs.{
  emr_tags, firehose_tags, fsx_tags, gamelift_tags, globalaccelerator_tags,
}

module _ {W : Type 0} (client : Client W) where
  abbrev pub emr_update_tags : UpdateFunction W
  emr_update_tags identifier _ =
      update_tags client (codes "emr") identifier
        (
          codes "RemoveTags",
          λ tags. (codes "ResourceId", string identifier) ∷ (codes "TagKeys", plain_keys tags) ∷ [],
        )
        (
          codes "AddTags",
          λ tags.
              (codes "ResourceId", string identifier)
              ∷ (codes "Tags", emr_tags (ignore_aws tags))
              ∷ [],
        )

  abbrev pub firehose_update_tags : UpdateFunction W
  firehose_update_tags identifier _ =
      update_tags client (codes "firehose") identifier
        (
          codes "UntagDeliveryStream",
          λ tags.
              (codes "DeliveryStreamName", string identifier)
              ∷ (codes "TagKeys", plain_keys tags)
              ∷ [],
        )
        (
          codes "TagDeliveryStream",
          λ tags.
              (codes "DeliveryStreamName", string identifier)
              ∷ (codes "Tags", firehose_tags (ignore_aws tags))
              ∷ [],
        )

  abbrev pub fsx_update_tags : UpdateFunction W
  fsx_update_tags identifier _ =
      update_tags client (codes "fsx") identifier
        (
          codes "UntagResource",
          λ tags.
              (codes "ResourceARN", string identifier) ∷ (codes "TagKeys", plain_keys tags) ∷ [],
        )
        (
          codes "TagResource",
          λ tags.
              (codes "ResourceARN", string identifier)
              ∷ (codes "Tags", fsx_tags (ignore_aws tags))
              ∷ [],
        )

  abbrev pub gamelift_update_tags : UpdateFunction W
  gamelift_update_tags identifier _ =
      update_tags client (codes "gamelift") identifier
        (
          codes "UntagResource",
          λ tags.
              (codes "ResourceARN", string identifier) ∷ (codes "TagKeys", plain_keys tags) ∷ [],
        )
        (
          codes "TagResource",
          λ tags.
              (codes "ResourceARN", string identifier)
              ∷ (codes "Tags", gamelift_tags (ignore_aws tags))
              ∷ [],
        )

  abbrev pub glacier_update_tags : UpdateFunction W
  glacier_update_tags identifier _ =
      update_tags client (codes "glacier") identifier
        (
          codes "RemoveTagsFromVault",
          λ tags. (codes "VaultName", string identifier) ∷ (codes "TagKeys", plain_keys tags) ∷ [],
        )
        (
          codes "AddTagsToVault",
          λ tags.
              (codes "VaultName", string identifier)
              ∷ (codes "Tags", glacier_tags (ignore_aws tags))
              ∷ [],
        )

  abbrev pub globalaccelerator_update_tags : UpdateFunction W
  globalaccelerator_update_tags identifier _ =
      update_tags client (codes "globalaccelerator") identifier
        (
          codes "UntagResource",
          λ tags.
              (codes "ResourceArn", string identifier) ∷ (codes "TagKeys", plain_keys tags) ∷ [],
        )
        (
          codes "TagResource",
          λ tags.
              (codes "ResourceArn", string identifier)
              ∷ (codes "Tags", globalaccelerator_tags (ignore_aws tags))
              ∷ [],
        )

  abbrev pub glue_update_tags : UpdateFunction W
  glue_update_tags identifier _ =
      update_tags client (codes "glue") identifier
        (
          codes "UntagResource",
          λ tags.
              (codes "ResourceArn", string identifier)
              ∷ (codes "TagsToRemove", plain_keys tags)
              ∷ [],
        )
        (
          codes "TagResource",
          λ tags.
              (codes "ResourceArn", string identifier)
              ∷ (codes "TagsToAdd", glue_tags (ignore_aws tags))
              ∷ [],
        )

  abbrev pub greengrass_update_tags : UpdateFunction W
  greengrass_update_tags identifier _ =
      update_tags client (codes "greengrass") identifier
        (
          codes "UntagResource",
          λ tags.
              (codes "ResourceArn", string identifier) ∷ (codes "TagKeys", plain_keys tags) ∷ [],
        )
        (
          codes "TagResource",
          λ tags.
              (codes "ResourceArn", string identifier)
              ∷ (codes "Tags", greengrass_tags (ignore_aws tags))
              ∷ [],
        )

  abbrev pub guardduty_update_tags : UpdateFunction W
  guardduty_update_tags identifier _ =
      update_tags client (codes "guardduty") identifier
        (
          codes "UntagResource",
          λ tags.
              (codes "ResourceArn", string identifier) ∷ (codes "TagKeys", plain_keys tags) ∷ [],
        )
        (
          codes "TagResource",
          λ tags.
              (codes "ResourceArn", string identifier)
              ∷ (codes "Tags", guardduty_tags (ignore_aws tags))
              ∷ [],
        )

  abbrev pub imagebuilder_update_tags : UpdateFunction W
  imagebuilder_update_tags identifier _ =
      update_tags client (codes "imagebuilder") identifier
        (
          codes "UntagResource",
          λ tags.
              (codes "ResourceArn", string identifier) ∷ (codes "TagKeys", plain_keys tags) ∷ [],
        )
        (
          codes "TagResource",
          λ tags.
              (codes "ResourceArn", string identifier)
              ∷ (codes "Tags", imagebuilder_tags (ignore_aws tags))
              ∷ [],
        )
