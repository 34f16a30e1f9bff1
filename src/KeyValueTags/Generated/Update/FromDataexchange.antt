-- ===== src/KeyValueTags/Generated/Update/FromDataexchange.antt =====
-- internal/keyvaluetags/update_tags_gen.go: DataexchangeUpdateTags to DynamodbUpdateTags.
use terraform_provider_awsut.Prelude.{[], ◌∷◌, codes}
use terraform_provider_awsut.KeyValueTags.Filter.{ignore_aws}
use terraform_provider_awsut.KeyValueTags.Requests.{string, Client, plain_keys}
use terraform_provider_awsut.KeyValueTags.Generated.Shapes.{UpdateFunction, update_tags}
use terraform_provider_awsut.KeyValueTags.Generated.MapTags.FromAccessanalyzer.{
  dataexchange_tags, dlm_tags,
}
use terraform_provider_awsut.KeyValueTags.Generated.SliceTags.FromAcm.{
  datapipeline_tags, datasync_tags, dax_tags, devicefarm_tags, directconnect_tags,
  directoryservice_tags, docdb_tags, dynamodb_tags,
}

module _ {W : Type 0} (client : Client W) where
  abbrev pub dataexchange_update_tags : UpdateFunction W
  dataexchange_update_tags identifier _ =
      update_tags client (codes "dataexchange") identifier
        (
          codes "UntagResource",
          λ tags.
              (codes "ResourceArn", string identifier) ∷ (codes "TagKeys", plain_keys tags) ∷ [],
        )
        (
          codes "TagResource",
          λ tags.
              (codes "ResourceArn", string identifier)
              ∷ (codes "Tags", dataexchange_tags (ignore_aws tags))
              ∷ [],
        )

  abbrev pub datapipeline_update_tags : UpdateFunction W
  datapipeline_update_tags identifier _ =
      update_tags client (codes "datapipeline") identifier
        (
          codes "RemoveTags",
          λ tags. (codes "PipelineId", string identifier) ∷ (codes "TagKeys", plain_keys tags) ∷ [],
        )
        (
          codes "AddTags",
          λ tags.
              (codes "PipelineId", string identifier)
              ∷ (codes "Tags", datapipeline_tags (ignore_aws tags))
              ∷ [],
        )

  abbrev pub datasync_update_tags : UpdateFunction W
  datasync_update_tags identifier _ =
      update_tags client (codes "datasync") identifier
        (
          codes "UntagResource",
          λ tags. (codes "ResourceArn", string identifier) ∷ (codes "Keys", plain_keys tags) ∷ [],
        )
        (
          codes "TagResource",
          λ tags.
              (codes "ResourceArn", string identifier)
              ∷ (codes "Tags", datasync_tags (ignore_aws tags))
              ∷ [],
        )

  abbrev pub dax_update_tags : UpdateFunction W
  dax_update_tags identifier _ =
      update_tags client (codes "dax") identifier
        (
          codes "UntagResource",
          λ tags.
              (codes "ResourceName", string identifier) ∷ (codes "TagKeys", plain_keys tags) ∷ [],
        )
        (
          codes "TagResource",
          λ tags.
              (codes "ResourceName", string identifier)
              ∷ (codes "Tags", dax_tags (ignore_aws tags))
              ∷ [],
        )

  abbrev pub devicefarm_update_tags : UpdateFunction W
  devicefarm_update_tags identifier _ =
      update_tags client (codes "devicefarm") identifier
        (
          codes "UntagResource",
          λ tags.
              (codes "ResourceARN", string identifier) ∷ (codes "TagKeys", plain_keys tags) ∷ [],
        )
        (
          codes "TagResource",
          λ tags.
              (codes "ResourceARN", string identifier)
              ∷ (codes "Tags", devicefarm_tags (ignore_aws tags))
              ∷ [],
        )

  abbrev pub directconnect_update_tags : UpdateFunction W
  directconnect_update_tags identifier _ =
      update_tags client (codes "directconnect") identifier
        (
          codes "UntagResource",
          λ tags.
              (codes "ResourceArn", string identifier) ∷ (codes "TagKeys", plain_keys tags) ∷ [],
        )
        (
          codes "TagResource",
          λ tags.
              (codes "ResourceArn", string identifier)
              ∷ (codes "Tags", directconnect_tags (ignore_aws tags))
              ∷ [],
        )

  abbrev pub directoryservice_update_tags : UpdateFunction W
  directoryservice_update_tags identifier _ =
      update_tags client (codes "directoryservice") identifier
        (
          codes "RemoveTagsFromResource",
          λ tags. (codes "ResourceId", string identifier) ∷ (codes "TagKeys", plain_keys tags) ∷ [],
        )
        (
          codes "AddTagsToResource",
          λ tags.
              (codes "ResourceId", string identifier)
              ∷ (codes "Tags", directoryservice_tags (ignore_aws tags))
              ∷ [],
        )

  abbrev pub dlm_update_tags : UpdateFunction W
  dlm_update_tags identifier _ =
      update_tags client (codes "dlm") identifier
        (
          codes "UntagResource",
          λ tags.
              (codes "ResourceArn", string identifier) ∷ (codes "TagKeys", plain_keys tags) ∷ [],
        )
        (
          codes "TagResource",
          λ tags.
              (codes "ResourceArn", string identifier)
              ∷ (codes "Tags", dlm_tags (ignore_aws tags))
              ∷ [],
        )

  abbrev pub docdb_update_tags : UpdateFunction W
  docdb_update_tags identifier _ =
      update_tags client (codes "docdb") identifier
        (
          codes "RemoveTagsFromResource",
          λ tags.
              (codes "ResourceName", string identifier) ∷ (codes "TagKeys", plain_keys tags) ∷ [],
        )
        (
          codes "AddTagsToResource",
          λ tags.
              (codes "ResourceName", string identifier)
              ∷ (codes "Tags", docdb_tags (ignore_aws tags))
              ∷ [],
        )

  abbrev pub dynamodb_update_tags : UpdateFunction W
  dynamodb_update_tags identifier _ =
      update_tags client (codes "dynamodb") identifier
        (
          codes "UntagResource",
          λ tags.
              (codes "ResourceArn", string identifier) ∷ (codes "TagKeys", plain_keys tags) ∷ [],
        )
        (
          codes "TagResource",
          λ tags.
              (codes "ResourceArn", string identifier)
              ∷ (codes "Tags", dynamodb_tags (ignore_aws tags))
              ∷ [],
        )
