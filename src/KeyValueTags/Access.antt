-- ===== src/KeyValueTags/Access.antt =====
-- internal/keyvaluetags/key_value_tags.go: the methods that read a tag, and `Keys`, `Map`,
-- `Chunks`.
use terraform_provider_awsut.Prelude.{Bool, Option, none, some, List, [], ◌∷◌, ◌++◌, Text}
use terraform_provider_awsut.Prelude.Map.{GoMap, Entries, made, entries, lookup, insert, has}
use terraform_provider_awsut.KeyValueTags.Data.{TagData, KeyValueTags}

-- A missing field and a field that holds nil read alike.
pointer_at {ℓ} : {A : Type ℓ} → GoMap (Option A) → Text → Option A
pointer_at fields field_name = elim (lookup field_name (entries fields)) [
  | none ↦ none
  | some v ↦ v
]

unfoldable pub key_additional_bool_value : KeyValueTags → Text → Text → Option Bool
unfolding pointer_at
key_additional_bool_value tags key field_name = elim (lookup key (entries tags)) [
  | none ↦ none
  | some none ↦ none
  | some (some tag) ↦ pointer_at tag.additional_bool_fields field_name
]

unfoldable pub key_additional_string_value : KeyValueTags → Text → Text → Option Text
unfolding pointer_at
key_additional_string_value tags key field_name = elim (lookup key (entries tags)) [
  | none ↦ none
  | some none ↦ none
  | some (some tag) ↦ pointer_at tag.additional_string_fields field_name
]

unfoldable pub key_exists : KeyValueTags → Text → Bool
key_exists tags key = has (entries tags) key

unfoldable pub key_tag_data : KeyValueTags → Text → Option TagData
key_tag_data tags key = elim (lookup key (entries tags)) [ none ↦ none | some v ↦ v ]

unfoldable pub key_value : KeyValueTags → Text → Option Text
key_value tags key = elim (lookup key (entries tags)) [
  | none ↦ none
  | some none ↦ none
  | some (some v) ↦ v.value
]

-- `for k := range tags { result = append(result, k) }`
unfoldable pub keys {ℓ} : {V : Type ℓ} → Entries V → List Text
keys [] = []
keys ((k, v) ∷ m) = keys m ++ k ∷ []

-- `v == nil || v.Value == nil` reads as the empty string.
unfoldable pub map_value : Option TagData → Text
map_value none = []
map_value (some v) = elim v.value [ none ↦ [] | some s ↦ s ]

unfoldable pub map_loop : Entries (Option TagData) → Entries Text
unfolding map_value
map_loop [] = []
map_loop ((k, v) ∷ tags) = insert k (map_value v) (map_loop tags)

-- `func (tags KeyValueTags) Map() map[string]string`
unfoldable pub to_map : KeyValueTags → GoMap Text
unfolding map_loop
to_map tags = made (map_loop (entries tags))
