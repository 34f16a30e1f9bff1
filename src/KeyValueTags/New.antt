-- ===== src/KeyValueTags/New.antt =====
-- internal/keyvaluetags/key_value_tags.go: `New`, over the dynamic types that it tells apart.
pub mod Keys
use terraform_provider_awsut.Prelude.{Option, none, some, List, [], ◌∷◌, Text}
use terraform_provider_awsut.Prelude.Map.{GoMap, Entries, nil_map, made, entries, insert}
use terraform_provider_awsut.Prelude.Value.{Value, string_value, not_a_string}
use terraform_provider_awsut.KeyValueTags.Data.{TagData, KeyValueTags}
use terraform_provider_awsut.KeyValueTags.Filter.{merge}

pub data Source : Type 0 where
  key_value_tags : KeyValueTags → Source
  tag_data_map : KeyValueTags → Source
  string_map : GoMap Text → Source
  string_pointer_map : GoMap (Option Text) → Source
  interface_map : GoMap Value → Source
  string_list : List Text → Source
  interface_list : List Value → Source
  other : Source

abbrev pub of_value : Option Text → TagData
of_value value = record {
  additional_bool_fields = nil_map;
  additional_string_fields = nil_map;
  value = value;
}

unfoldable pub from_strings : Entries Text → Entries (Option TagData)
from_strings [] = []
from_strings ((k, str) ∷ value) = insert k (some (of_value (some str))) (from_strings value)

-- A nil pointer is stored as a nil tag.
unfoldable pub of_pointer : Option Text → Option TagData
of_pointer none = none
of_pointer (some str) = some (of_value (some str))

unfoldable pub from_pointers : Entries (Option Text) → Entries (Option TagData)
unfolding of_pointer
from_pointers [] = []
from_pointers ((k, v) ∷ value) = insert k (of_pointer v) (from_pointers value)

-- A value that is no string leaves the tag without a value.
unfoldable pub of_interface : Value → TagData
of_interface (string_value s) = of_value (some s)
of_interface not_a_string = of_value none

unfoldable pub from_interfaces : Entries Value → Entries (Option TagData)
unfolding of_interface
from_interfaces [] = []
from_interfaces ((k, v) ∷ value) = insert k (some (of_interface v)) (from_interfaces value)

unfoldable pub from_keys : List Text → Entries (Option TagData) → Entries (Option TagData)
from_keys [] kvtm = kvtm
from_keys (v ∷ value) kvtm = from_keys value (insert v none kvtm)

-- `v.(string)` panics at a value that is no string.
unfoldable pub from_any_keys :
    List Value → Entries (Option TagData) → Option (Entries (Option TagData))
from_any_keys [] kvtm = some kvtm
from_any_keys (string_value v ∷ value) kvtm = from_any_keys value (insert v none kvtm)
from_any_keys (not_a_string ∷ value) kvtm = none

unfoldable pub made_of : Option (Entries (Option TagData)) → Option KeyValueTags
made_of none = none
made_of (some kvtm) = some (made kvtm)

-- `none` is a panic.
unfoldable pub new : Source → Option KeyValueTags
unfolding from_strings from_pointers from_interfaces from_keys from_any_keys made_of
new (key_value_tags value) = some (merge (made []) value)
new (tag_data_map value) = some (merge (made []) value)
new (string_map value) = some (made (from_strings (entries value)))
new (string_pointer_map value) = some (made (from_pointers (entries value)))
new (interface_map value) = some (made (from_interfaces (entries value)))
new (string_list value) = some (made (from_keys value []))
new (interface_list value) = made_of (from_any_keys value [])
new other = some (made [])
