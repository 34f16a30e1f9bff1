-- ===== src/KeyValueTags/Requests/RoundTrip.antt =====
-- service_tags_gen.go: tags that are written to structs and read again are the same tags.
use terraform_provider_awsut.Prelude.{◌≡◌, refl, ◌∙◌, false, Option, none, some, Text, ◌==◌}
use terraform_provider_awsut.Prelude.Map.{entries}
use terraform_provider_awsut.KeyValueTags.Data.{KeyValueTags}
use terraform_provider_awsut.KeyValueTags.Access.{to_map, map_value}
use terraform_provider_awsut.KeyValueTags.New.{of_value, of_pointer}
use terraform_provider_awsut.KeyValueTags.Lookups.{
  tag_at, map_option, lookup-to_map, to_map-NodupKeys,
}
use terraform_provider_awsut.KeyValueTags.UpdateTags.{tag_list}
use terraform_provider_awsut.KeyValueTags.UpdateTags.Sync.{lookup-tag_list, tag_list-NodupKeys}
use terraform_provider_awsut.KeyValueTags.BucketTags.{s3_key_value_tags}
use terraform_provider_awsut.KeyValueTags.BucketTags.Result.{lookup-s3_key_value_tags}
use terraform_provider_awsut.KeyValueTags.Requests.{structs_of, tags_of_structs}
use terraform_provider_awsut.KeyValueTags.Requests.Named.{
  pointers, lookup-pointers, pointers-NodupKeys, pairs_of-structs_of,
}

twice :
    (o : Option Text)
    → map_option of_pointer (map_option some o) ≡ map_option (λ v. some (of_value (some v))) o
unfolding of_pointer
twice none = refl
twice (some v) = refl

-- The tags that are read have the values that were written.
pub tags_of_structs-structs_of :
    (key_field value_field : Text)
    → (key_field == value_field) ≡ false
    → (tags : KeyValueTags) (k : Text)
    → tag_at
        (tags_of_structs key_field value_field
          (structs_of key_field value_field (entries (to_map tags))))
        k
      ≡ map_option (λ v. some (of_value (some v))) (map_option map_value (tag_at tags k))
unfolding tags_of_structs s3_key_value_tags of_pointer
tags_of_structs-structs_of key_field value_field apart tags k =
    let written = tag_list (entries (to_map tags)) in
    let unique = tag_list-NodupKeys (entries (to_map tags)) (to_map-NodupKeys tags) in
    rw (pairs_of-structs_of key_field value_field apart) (
      lookup-s3_key_value_tags (pointers written) k (pointers-NodupKeys written unique)
      ∙ rw
          (
            lookup-pointers,
            lookup-tag_list k (entries (to_map tags)) (to_map-NodupKeys tags),
            lookup-to_map,
          )
          (twice (map_option map_value (tag_at tags k))))
