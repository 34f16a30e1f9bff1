-- ===== src/KeyValueTags/Generated/Update/FromWaf.antt =====
-- internal/keyvaluetags/update_tags_gen.go: WafUpdateTags to XrayUpdateTags.
use terraform_provider_awsut.Prelude.{[], ◌∷◌, codes}
use terraform_provider_awsut.KeyValueTags.Filter.{ignore_aws}
use terraform_provider_awsut.KeyValueTags.Requests.{string, Client, plain_keys}
use terraform_provider_awsut.KeyValueTags.Generated.Shapes.{UpdateFunction, update_tags}
use terraform_provider_awsut.KeyValueTags.Generated.MapTags.FromMwaa.{worklink_tags}
use terraform_provider_awsut.KeyValueTags.Generated.SliceTags.FromOrganizations.{
  waf_tags, wafregional_tags, wafv2_tags, workspaces_tags, xray_tags,
}

module _ {W : Type 0} (client : Client W) where
  abbrev pub waf_update_tags : UpdateFunction W
  waf_update_tags identifier _ =
      update_tags client (codes "waf") identifier
        (
          codes "UntagResource",
          λ tags.
              (codes "ResourceARN", string identifier) ∷ (codes "TagKeys", plain_keys tags) ∷ [],
        )
        (
          codes "TagResource",
          λ tags.
              (codes "ResourceARN", string identifier)
              ∷ (codes "Tags", waf_tags (ignore_aws tags))
              ∷ [],
        )

  abbrev pub wafregional_update_tags : UpdateFunction W
  wafregional_update_tags identifier _ =
      update_tags client (codes "waf") identifier
        (
          codes "UntagResource",
          λ tags.
              (codes "ResourceARN", string identifier) ∷ (codes "TagKeys", plain_keys tags) ∷ [],
        )
        (
          codes "TagResource",
          λ tags.
              (codes "ResourceARN", string identifier)
              ∷ (codes "Tags", wafregional_tags (ignore_aws tags))
              ∷ [],
        )

  abbrev pub wafv2_update_tags : UpdateFunction W
  wafv2_update_tags identifier _ =
      update_tags client (codes "wafv2") identifier
        (
          codes "UntagResource",
          λ tags.
              (codes "ResourceARN", string identifier) ∷ (codes "TagKeys", plain_keys tags) ∷ [],
        )
        (
          codes "TagResource",
          λ tags.
              (codes "ResourceARN", string identifier)
              ∷ (codes "Tags", wafv2_tags (ignore_aws tags))
              ∷ [],
        )

  abbrev pub worklink_update_tags : UpdateFunction W
  worklink_update_tags identifier _ =
      update_tags client (codes "worklink") identifier
        (
          codes "UntagResource",
          λ tags.
              (codes "ResourceArn", string identifier) ∷ (codes "TagKeys", plain_keys tags) ∷ [],
        )
        (
          codes "TagResource",
          λ tags.
              (codes "ResourceArn", string identifier)
              ∷ (codes "Tags", worklink_tags (ignore_aws tags))
              ∷ [],
        )

  abbrev pub workspaces_update_tags : UpdateFunction W
  workspaces_update_tags identifier _ =
      update_tags client (codes "workspaces") identifier
        (
          codes "DeleteTags",
          λ tags. (codes "ResourceId", string identifier) ∷ (codes "TagKeys", plain_keys tags) ∷ [],
        )
        (
          codes "CreateTags",
          λ tags.
              (codes "ResourceId", string identifier)
              ∷ (codes "Tags", workspaces_tags (ignore_aws tags))
              ∷ [],
        )

  abbrev pub xray_update_tags : UpdateFunction W
  xray_update_tags identifier _ =
      update_tags client (codes "xray") identifier
        (
          codes "UntagResource",
          λ tags.
              (codes "ResourceARN", string identifier) ∷ (codes "TagKeys", plain_keys tags) ∷ [],
        )
        (
          codes "TagResource",
          λ tags.
              (codes "ResourceARN", string identifier)
              ∷ (codes "Tags", xray_tags (ignore_aws tags))
              ∷ [],
        )
