-- ===== src/KeyValueTags/Generated/Update/FromIot.antt =====
-- internal/keyvaluetags/update_tags_gen.go: IotUpdateTags to LambdaUpdateTags.
use terraform_provider_awsut.Prelude.{[], ◌∷◌, codes}
use terraform_provider_awsut.KeyValueTags.Filter.{ignore_aws}
use terraform_provider_awsut.KeyValueTags.Requests.{string, Client, map_tags, plain_keys}
use terraform_provider_awsut.KeyValueTags.Generated.Shapes.{
  UpdateFunction, update_tags, update_tags_in_chunks,
}
use terraform_provider_awsut.KeyValueTags.Generated.MapTags.FromAccessanalyzer.{
  kafka_tags, kinesisvideo_tags, lambda_tags,
}
use terraform_provider_awsut.KeyValueTags.Generated.SliceTags.FromEcs.{
  iot_tags, iotanalytics_tags, iotevents_tags, kinesisanalytics_tags, kinesisanalyticsv2_tags,
  kms_tags,
}

module _ {W : Type 0} (client : Client W) where
  abbrev pub iot_update_tags : UpdateFunction W
  iot_update_tags identifier _ =
      update_tags client (codes "iot") identifier
        (
          codes "UntagResource",
          λ tags.
              (codes "ResourceArn", string identifier) ∷ (codes "TagKeys", plain_keys tags) ∷ [],
        )
        (
          codes "TagResource",
          λ tags.
              (codes "ResourceArn", string identifier)
              ∷ (codes "Tags", iot_tags (ignore_aws tags))
              ∷ [],
        )

  abbrev pub iotanalytics_update_tags : UpdateFunction W
  iotanalytics_update_tags identifier _ =
      update_tags client (codes "iotanalytics") identifier
        (
          codes "UntagResource",
          λ tags.
              (codes "ResourceArn", string identifier) ∷ (codes "TagKeys", plain_keys tags) ∷ [],
        )
        (
          codes "TagResource",
          λ tags.
              (codes "ResourceArn", string identifier)
              ∷ (codes "Tags", iotanalytics_tags (ignore_aws tags))
              ∷ [],
        )

  abbrev pub iotevents_update_tags : UpdateFunction W
  iotevents_update_tags identifier _ =
      update_tags client (codes "iotevents") identifier
        (
          codes "UntagResource",
          λ tags.
              (codes "ResourceArn", string identifier) ∷ (codes "TagKeys", plain_keys tags) ∷ [],
        )
        (
          codes "TagResource",
          λ tags.
              (codes "ResourceArn", string identifier)
              ∷ (codes "Tags", iotevents_tags (ignore_aws tags))
              ∷ [],
        )

  abbrev pub kafka_update_tags : UpdateFunction W
  kafka_update_tags identifier _ =
      update_tags client (codes "kafka") identifier
        (
          codes "UntagResource",
          λ tags.
              (codes "ResourceArn", string identifier) ∷ (codes "TagKeys", plain_keys tags) ∷ [],
        )
        (
          codes "TagResource",
          λ tags.
              (codes "ResourceArn", string identifier)
              ∷ (codes "Tags", kafka_tags (ignore_aws tags))
              ∷ [],
        )

  abbrev pub kinesis_update_tags : UpdateFunction W
  kinesis_update_tags identifier _ =
      update_tags_in_chunks client (codes "kinesis") identifier 10
        (
          codes "RemoveTagsFromStream",
          λ tags. (codes "StreamName", string identifier) ∷ (codes "TagKeys", plain_keys tags) ∷ [],
        )
        (
          codes "AddTagsToStream",
          λ tags.
              (codes "StreamName", string identifier)
              ∷ (codes "Tags", map_tags (ignore_aws tags))
              ∷ [],
        )

  abbrev pub kinesisanalytics_update_tags : UpdateFunction W
  kinesisanalytics_update_tags identifier _ =
      update_tags client (codes "kinesisanalytics") identifier
        (
          codes "UntagResource",
          λ tags.
              (codes "ResourceARN", string identifier) ∷ (codes "TagKeys", plain_keys tags) ∷ [],
        )
        (
          codes "TagResource",
          λ tags.
              (codes "ResourceARN", string identifier)
              ∷ (codes "Tags", kinesisanalytics_tags (ignore_aws tags))
              ∷ [],
        )

  abbrev pub kinesisanalyticsv2_update_tags : UpdateFunction W
  kinesisanalyticsv2_update_tags identifier _ =
      update_tags client (codes "kinesisanalyticsv2") identifier
        (
          codes "UntagResource",
          λ tags.
              (codes "ResourceARN", string identifier) ∷ (codes "TagKeys", plain_keys tags) ∷ [],
        )
        (
          codes "TagResource",
          λ tags.
              (codes "ResourceARN", string identifier)
              ∷ (codes "Tags", kinesisanalyticsv2_tags (ignore_aws tags))
              ∷ [],
        )

  abbrev pub kinesisvideo_update_tags : UpdateFunction W
  kinesisvideo_update_tags identifier _ =
      update_tags client (codes "kinesisvideo") identifier
        (
          codes "UntagStream",
          λ tags.
              (codes "StreamARN", string identifier) ∷ (codes "TagKeyList", plain_keys tags) ∷ [],
        )
        (
          codes "TagStream",
          λ tags.
              (codes "StreamARN", string identifier)
              ∷ (codes "Tags", kinesisvideo_tags (ignore_aws tags))
              ∷ [],
        )

  abbrev pub kms_update_tags : UpdateFunction W
  kms_update_tags identifier _ =
      update_tags client (codes "kms") identifier
        (
          codes "UntagResource",
          λ tags. (codes "KeyId", string identifier) ∷ (codes "TagKeys", plain_keys tags) ∷ [],
        )
        (
          codes "TagResource",
          λ tags.
              (codes "KeyId", string identifier) ∷ (codes "Tags", kms_tags (ignore_aws tags)) ∷ [],
        )

  abbrev pub lambda_update_tags : UpdateFunction W
  lambda_update_tags identifier _ =
      update_tags client (codes "lambda") identifier
        (
          codes "UntagResource",
          λ tags. (codes "Resource", string identifier) ∷ (codes "TagKeys", plain_keys tags) ∷ [],
        )
        (
          codes "TagResource",
          λ tags.
              (codes "Resource", string identifier)
              ∷ (codes "Tags", lambda_tags (ignore_aws tags))
              ∷ [],
        )
