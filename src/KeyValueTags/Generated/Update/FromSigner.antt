-- ===== src/KeyValueTags/Generated/Update/FromSigner.antt =====
-- internal/keyvaluetags/update_tags_gen.go: SignerUpdateTags to TransferUpdateTags.
use terraform_provider_awsut.Prelude.{[], ◌∷◌, codes}
use terraform_provider_awsut.KeyValueTags.Filter.{ignore_aws}
use terraform_provider_awsut.KeyValueTags.Requests.{string, Client, plain_keys}
use terraform_provider_awsut.KeyValueTags.Generated.Shapes.{UpdateFunction, update_tags}
use terraform_provider_awsut.KeyValueTags.Generated.MapTags.FromMwaa.{
  signer_tags, sqs_tags, synthetics_tags,
}
use terraform_provider_awsut.KeyValueTags.Generated.SliceTags.FromOrganizations.{
  sns_tags, ssm_tags, ssoadmin_tags, storagegateway_tags, swf_tags, timestreamwrite_tags,
  transfer_tags,
}

module _ {W : Type 0} (client : Client W) where
  abbrev pub signer_update_tags : UpdateFunction W
  signer_update_tags identifier _ =
      update_tags client (codes "signer") identifier
        (
          codes "UntagResource",
          λ tags.
              (codes "ResourceArn", string identifier) ∷ (codes "TagKeys", plain_keys tags) ∷ [],
        )
        (
          codes "TagResource",
          λ tags.
              (codes "ResourceArn", string identifier)
              ∷ (codes "Tags", signer_tags (ignore_aws tags))
              ∷ [],
        )

  abbrev pub sns_update_tags : UpdateFunction W
  sns_update_tags identifier _ =
      update_tags client (codes "sns") identifier
        (
          codes "UntagResource",
          λ tags.
              (codes "ResourceArn", string identifier) ∷ (codes "TagKeys", plain_keys tags) ∷ [],
        )
        (
          codes "TagResource",
          λ tags.
              (codes "ResourceArn", string identifier)
              ∷ (codes "Tags", sns_tags (ignore_aws tags))
              ∷ [],
        )

  abbrev pub sqs_update_tags : UpdateFunction W
  sqs_update_tags identifier _ =
      update_tags client (codes "sqs") identifier
        (
          codes "UntagQueue",
          λ tags. (codes "QueueUrl", string identifier) ∷ (codes "TagKeys", plain_keys tags) ∷ [],
        )
        (
          codes "TagQueue",
          λ tags.
              (codes "QueueUrl", string identifier)
              ∷ (codes "Tags", sqs_tags (ignore_aws tags))
              ∷ [],
        )

  abbrev pub ssm_update_tags : UpdateFunction W
  ssm_update_tags identifier resource_type =
      update_tags client (codes "ssm") identifier
        (
          codes "RemoveTagsFromResource",
          λ tags.
              (codes "ResourceId", string identifier)
              ∷ (codes "ResourceType", string resource_type)
              ∷ (codes "TagKeys", plain_keys tags)
              ∷ [],
        )
        (
          codes "AddTagsToResource",
          λ tags.
              (codes "ResourceId", string identifier)
              ∷ (codes "ResourceType", string resource_type)
              ∷ (codes "Tags", ssm_tags (ignore_aws tags))
              ∷ [],
        )

  abbrev pub ssoadmin_update_tags : UpdateFunction W
  ssoadmin_update_tags identifier resource_type =
      update_tags client (codes "ssoadmin") identifier
        (
          codes "UntagResource",
          λ tags.
              (codes "ResourceArn", string identifier)
              ∷ (codes "InstanceArn", string resource_type)
              ∷ (codes "TagKeys", plain_keys tags)
              ∷ [],
        )
        (
          codes "TagResource",
          λ tags.
              (codes "ResourceArn", string identifier)
              ∷ (codes "InstanceArn", string resource_type)
              ∷ (codes "Tags", ssoadmin_tags (ignore_aws tags))
              ∷ [],
        )

  abbrev pub storagegateway_update_tags : UpdateFunction W
  storagegateway_update_tags identifier _ =
      update_tags client (codes "storagegateway") identifier
        (
          codes "RemoveTagsFromResource",
          λ tags.
              (codes "ResourceARN", string identifier) ∷ (codes "TagKeys", plain_keys tags) ∷ [],
        )
        (
          codes "AddTagsToResource",
          λ tags.
              (codes "ResourceARN", string identifier)
              ∷ (codes "Tags", storagegateway_tags (ignore_aws tags))
              ∷ [],
        )

  abbrev pub swf_update_tags : UpdateFunction W
  swf_update_tags identifier _ =
      update_tags client (codes "swf") identifier
        (
          codes "UntagResource",
          λ tags.
              (codes "ResourceArn", string identifier) ∷ (codes "TagKeys", plain_keys tags) ∷ [],
        )
        (
          codes "TagResource",
          λ tags.
              (codes "ResourceArn", string identifier)
              ∷ (codes "Tags", swf_tags (ignore_aws tags))
              ∷ [],
        )

  abbrev pub synthetics_update_tags : UpdateFunction W
  synthetics_update_tags identifier _ =
      update_tags client (codes "synthetics") identifier
        (
          codes "UntagResource",
          λ tags.
              (codes "ResourceArn", string identifier) ∷ (codes "TagKeys", plain_keys tags) ∷ [],
        )
        (
          codes "TagResource",
          λ tags.
              (codes "ResourceArn", string identifier)
              ∷ (codes "Tags", synthetics_tags (ignore_aws tags))
              ∷ [],
        )

  abbrev pub timestreamwrite_update_tags : UpdateFunction W
  timestreamwrite_update_tags identifier _ =
      update_tags client (codes "timestreamwrite") identifier
        (
          codes "UntagResource",
          λ tags.
              (codes "ResourceARN", string identifier) ∷ (codes "TagKeys", plain_keys tags) ∷ [],
        )
        (
          codes "TagResource",
          λ tags.
              (codes "ResourceARN", string identifier)
              ∷ (codes "Tags", timestreamwrite_tags (ignore_aws tags))
              ∷ [],
        )

  abbrev pub transfer_update_tags : UpdateFunction W
  transfer_update_tags identifier _ =
      update_tags client (codes "transfer") identifier
        (
          codes "UntagResource",
          λ tags. (codes "Arn", string identifier) ∷ (codes "TagKeys", plain_keys tags) ∷ [],
        )
        (
          codes "TagResource",
          λ tags.
              (codes "Arn", string identifier)
              ∷ (codes "Tags", transfer_tags (ignore_aws tags))
              ∷ [],
        )
