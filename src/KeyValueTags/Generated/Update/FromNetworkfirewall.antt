-- ===== src/KeyValueTags/Generated/Update/FromNetworkfirewall.antt =====
-- internal/keyvaluetags/update_tags_gen.go: NetworkfirewallUpdateTags to RedshiftUpdateTags.
use terraform_provider_awsut.Prelude.{[], ◌∷◌, codes}
use terraform_provider_awsut.KeyValueTags.Filter.{ignore_aws}
use terraform_provider_awsut.KeyValueTags.Requests.{string, struct, Client, plain_keys}
use terraform_provider_awsut.KeyValueTags.Generated.Shapes.{UpdateFunction, update_tags}
use terraform_provider_awsut.KeyValueTags.Generated.MapTags.FromMwaa.{
  opsworks_tags, pinpoint_tags, qldb_tags,
}
use terraform_provider_awsut.KeyValueTags.Generated.SliceTags.FromEcs.{
  networkfirewall_tags, networkmanager_tags, organizations_tags,
}
use terraform_provider_awsut.KeyValueTags.Generated.SliceTags.FromOrganizations.{
  quicksight_tags, ram_tags, rds_tags, redshift_tags,
}

module _ {W : Type 0} (client : Client W) where
  abbrev pub networkfirewall_update_tags : UpdateFunction W
  networkfirewall_update_tags identifier _ =
      update_tags client (codes "networkfirewall") identifier
        (
          codes "UntagResource",
          λ tags.
              (codes "ResourceArn", string identifier) ∷ (codes "TagKeys", plain_keys tags) ∷ [],
        )
        (
          codes "TagResource",
          λ tags.
              (codes "ResourceArn", string identifier)
              ∷ (codes "Tags", networkfirewall_tags (ignore_aws tags))
              ∷ [],
        )

  abbrev pub networkmanager_update_tags : UpdateFunction W
  networkmanager_update_tags identifier _ =
      update_tags client (codes "networkmanager") identifier
        (
          codes "UntagResource",
          λ tags.
              (codes "ResourceArn", string identifier) ∷ (codes "TagKeys", plain_keys tags) ∷ [],
        )
        (
          codes "TagResource",
          λ tags.
              (codes "ResourceArn", string identifier)
              ∷ (codes "Tags", networkmanager_tags (ignore_aws tags))
              ∷ [],
        )

  abbrev pub opsworks_update_tags : UpdateFunction W
  opsworks_update_tags identifier _ =
      update_tags client (codes "opsworks") identifier
        (
          codes "UntagResource",
          λ tags.
              (codes "ResourceArn", string identifier) ∷ (codes "TagKeys", plain_keys tags) ∷ [],
        )
        (
          codes "TagResource",
          λ tags.
              (codes "ResourceArn", string identifier)
              ∷ (codes "Tags", opsworks_tags (ignore_aws tags))
              ∷ [],
        )

  abbrev pub organizations_update_tags : UpdateFunction W
  organizations_update_tags identifier _ =
      update_tags client (codes "organizations") identifier
        (
          codes "UntagResource",
          λ tags. (codes "ResourceId", string identifier) ∷ (codes "TagKeys", plain_keys tags) ∷ [],
        )
        (
          codes "TagResource",
          λ tags.
              (codes "ResourceId", string identifier)
              ∷ (codes "Tags", organizations_tags (ignore_aws tags))
              ∷ [],
        )

  abbrev pub pinpoint_update_tags : UpdateFunction W
  pinpoint_update_tags identifier _ =
      update_tags client (codes "pinpoint") identifier
        (
          codes "UntagResource",
          λ tags.
              (codes "ResourceArn", string identifier) ∷ (codes "TagKeys", plain_keys tags) ∷ [],
        )
        (
          codes "TagResource",
          λ tags.
              (codes "ResourceArn", string identifier)
              ∷ (
                codes "TagsModel",
                struct (codes "TagsModel") (codes "Tags") (pinpoint_tags (ignore_aws tags)),
              )
              ∷ [],
        )

  abbrev pub qldb_update_tags : UpdateFunction W
  qldb_update_tags identifier _ =
      update_tags client (codes "qldb") identifier
        (
          codes "UntagResource",
          λ tags.
              (codes "ResourceArn", string identifier) ∷ (codes "TagKeys", plain_keys tags) ∷ [],
        )
        (
          codes "TagResource",
          λ tags.
              (codes "ResourceArn", string identifier)
              ∷ (codes "Tags", qldb_tags (ignore_aws tags))
              ∷ [],
        )

  abbrev pub quicksight_update_tags : UpdateFunction W
  quicksight_update_tags identifier _ =
      update_tags client (codes "quicksight") identifier
        (
          codes "UntagResource",
          λ tags.
              (codes "ResourceArn", string identifier) ∷ (codes "TagKeys", plain_keys tags) ∷ [],
        )
        (
          codes "TagResource",
          λ tags.
              (codes "ResourceArn", string identifier)
              ∷ (codes "Tags", quicksight_tags (ignore_aws tags))
              ∷ [],
        )

  abbrev pub ram_update_tags : UpdateFunction W
  ram_update_tags identifier _ =
      update_tags client (codes "ram") identifier
        (
          codes "UntagResource",
          λ tags.
              (codes "ResourceShareArn", string identifier)
              ∷ (codes "TagKeys", plain_keys tags)
              ∷ [],
        )
        (
          codes "TagResource",
          λ tags.
              (codes "ResourceShareArn", string identifier)
              ∷ (codes "Tags", ram_tags (ignore_aws tags))
              ∷ [],
        )

  abbrev pub rds_update_tags : UpdateFunction W
  rds_update_tags identifier _ =
      update_tags client (codes "rds") identifier
        (
          codes "RemoveTagsFromResource",
          λ tags.
              (codes "ResourceName", string identifier) ∷ (codes "TagKeys", plain_keys tags) ∷ [],
        )
        (
          codes "AddTagsToResource",
          λ tags.
              (codes "ResourceName", string identifier)
              ∷ (codes "Tags", rds_tags (ignore_aws tags))
              ∷ [],
        )

  abbrev pub redshift_update_tags : UpdateFunction W
  redshift_update_tags identifier _ =
      update_tags client (codes "redshift") identifier
        (
          codes "DeleteTags",
          λ tags.
              (codes "ResourceName", string identifier) ∷ (codes "TagKeys", plain_keys tags) ∷ [],
        )
        (
          codes "CreateTags",
          λ tags.
              (codes "ResourceName", string identifier)
              ∷ (codes "Tags", redshift_tags (ignore_aws tags))
              ∷ [],
        )
