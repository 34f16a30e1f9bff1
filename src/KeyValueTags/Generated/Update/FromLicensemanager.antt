-- ===== src/KeyValueTags/Generated/Update/FromLicensemanager.antt =====
-- internal/keyvaluetags/update_tags_gen.go: LicensemanagerUpdateTags to NeptuneUpdateTags.
use terraform_provider_awsut.Prelude.{[], ◌∷◌, codes}
use terraform_provider_awsut.KeyValueTags.Filter.{ignore_aws}
use terraform_provider_awsut.KeyValueTags.Requests.{string, Client, plain_keys}
use terraform_provider_awsut.KeyValueTags.Generated.Shapes.{UpdateFunction, update_tags}
use terraform_provider_awsut.KeyValueTags.Generated.MapTags.FromAccessanalyzer.{
  mediaconnect_tags, mediaconvert_tags, medialive_tags, mediapackage_tags, mq_tags,
}
use terraform_provider_awsut.KeyValueTags.Generated.MapTags.FromMwaa.{mwaa_tags}
use terraform_provider_awsut.KeyValueTags.Generated.SliceTags.FromEcs.{
  licensemanager_tags, lightsail_tags, mediastore_tags, neptune_tags,
}

module _ {W : Type 0} (client : Client W) where
  abbrev pub licensemanager_update_tags : UpdateFunction W
  licensemanager_update_tags identifier _ =
      update_tags client (codes "licensemanager") identifier
        (
          codes "UntagResource",
          λ tags.
              (codes "ResourceArn", string identifier) ∷ (codes "TagKeys", plain_keys tags) ∷ [],
        )
        (
          codes "TagResource",
          λ tags.
              (codes "ResourceArn", string identifier)
              ∷ (codes "Tags", licensemanager_tags (ignore_aws tags))
              ∷ [],
        )

  abbrev pub lightsail_update_tags : UpdateFunction W
  lightsail_update_tags identifier _ =
      update_tags client (codes "lightsail") identifier
        (
          codes "UntagResource",
          λ tags.
              (codes "ResourceName", string identifier) ∷ (codes "TagKeys", plain_keys tags) ∷ [],
        )
        (
          codes "TagResource",
          λ tags.
              (codes "ResourceName", string identifier)
              ∷ (codes "Tags", lightsail_tags (ignore_aws tags))
              ∷ [],
        )

  abbrev pub mediaconnect_update_tags : UpdateFunction W
  mediaconnect_update_tags identifier _ =
      update_tags client (codes "mediaconnect") identifier
        (
          codes "UntagResource",
          λ tags.
              (codes "ResourceArn", string identifier) ∷ (codes "TagKeys", plain_keys tags) ∷ [],
        )
        (
          codes "TagResource",
          λ tags.
              (codes "ResourceArn", string identifier)
              ∷ (codes "Tags", mediaconnect_tags (ignore_aws tags))
              ∷ [],
        )

  abbrev pub mediaconvert_update_tags : UpdateFunction W
  mediaconvert_update_tags identifier _ =
      update_tags client (codes "mediaconvert") identifier
        (
          codes "UntagResource",
          λ tags. (codes "Arn", string identifier) ∷ (codes "TagKeys", plain_keys tags) ∷ [],
        )
        (
          codes "TagResource",
          λ tags.
              (codes "Arn", string identifier)
              ∷ (codes "Tags", mediaconvert_tags (ignore_aws tags))
              ∷ [],
        )

  abbrev pub medialive_update_tags : UpdateFunction W
  medialive_update_tags identifier _ =
      update_tags client (codes "medialive") identifier
        (
          codes "DeleteTags",
          λ tags.
              (codes "ResourceArn", string identifier) ∷ (codes "TagKeys", plain_keys tags) ∷ [],
        )
        (
          codes "CreateTags",
          λ tags.
              (codes "ResourceArn", string identifier)
              ∷ (codes "Tags", medialive_tags (ignore_aws tags))
              ∷ [],
        )

  abbrev pub mediapackage_update_tags : UpdateFunction W
  mediapackage_update_tags identifier _ =
      update_tags client (codes "mediapackage") identifier
        (
          codes "UntagResource",
          λ tags.
              (codes "ResourceArn", string identifier) ∷ (codes "TagKeys", plain_keys tags) ∷ [],
        )
        (
          codes "TagResource",
          λ tags.
              (codes "ResourceArn", string identifier)
              ∷ (codes "Tags", mediapackage_tags (ignore_aws tags))
              ∷ [],
        )

  abbrev pub mediastore_update_tags : UpdateFunction W
  mediastore_update_tags identifier _ =
      update_tags client (codes "mediastore") identifier
        (
          codes "UntagResource",
          λ tags. (codes "Resource", string identifier) ∷ (codes "TagKeys", plain_keys tags) ∷ [],
        )
        (
          codes "TagResource",
          λ tags.
              (codes "Resource", string identifier)
              ∷ (codes "Tags", mediastore_tags (ignore_aws tags))
              ∷ [],
        )

  abbrev pub mq_update_tags : UpdateFunction W
  mq_update_tags identifier _ =
      update_tags client (codes "mq") identifier
        (
          codes "DeleteTags",
          λ tags.
              (codes "ResourceArn", string identifier) ∷ (codes "TagKeys", plain_keys tags) ∷ [],
        )
        (
          codes "CreateTags",
          λ tags.
              (codes "ResourceArn", string identifier)
              ∷ (codes "Tags", mq_tags (ignore_aws tags))
              ∷ [],
        )

  abbrev pub mwaa_update_tags : UpdateFunction W
  mwaa_update_tags identifier _ =
      update_tags client (codes "mwaa") identifier
        (
          codes "UntagResource",
          λ tags.
              (codes "ResourceArn", string identifier) ∷ (codes "TagKeys", plain_keys tags) ∷ [],
        )
        (
          codes "TagResource",
          λ tags.
              (codes "ResourceArn", string identifier)
              ∷ (codes "Tags", mwaa_tags (ignore_aws tags))
              ∷ [],
        )

  abbrev pub neptune_update_tags : UpdateFunction W
  neptune_update_tags identifier _ =
      update_tags client (codes "neptune") identifier
        (
          codes "RemoveTagsFromResource",
          λ tags.
              (codes "ResourceName", string identifier) ∷ (codes "TagKeys", plain_keys tags) ∷ [],
        )
        (
          codes "AddTagsToResource",
          λ tags.
              (codes "ResourceName", string identifier)
              ∷ (codes "Tags", neptune_tags (ignore_aws tags))
              ∷ [],
        )
