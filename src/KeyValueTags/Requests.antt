-- ===== src/KeyValueTags/Requests.antt =====
-- What the functions of internal/keyvaluetags send to a client of the AWS SDK: the input of a request as
-- the names of its fields with their values, and the conversions of tags that service_tags_gen.go has.
pub mod Named
pub mod RoundTrip
use terraform_provider_awsut.Prelude.{
  Bool, true, false, Option, none, some, List, [], ◌∷◌, ◌++◌, Text, codes, ◌==◌, if◌then◌else◌,
}
use terraform_provider_awsut.Prelude.Go.{Call}
use terraform_provider_awsut.Prelude.Map.{GoMap, Entries, made, entries}
use terraform_provider_awsut.KeyValueTags.Data.{KeyValueTags}
use terraform_provider_awsut.KeyValueTags.Filter.{ignore_aws}
use terraform_provider_awsut.KeyValueTags.Access.{keys, to_map}
use terraform_provider_awsut.KeyValueTags.New.{from_pointers}
use terraform_provider_awsut.KeyValueTags.BucketTags.{collect}

-- A field of a struct of the SDK: a pointer to a string or to a Boolean, or a slice of strings.
pub data FieldValue : Type 0 where
  text_field : Option Text → FieldValue
  bool_field : Option Bool → FieldValue
  texts_field : List Text → FieldValue

abbrev pub Struct : Type 0
Struct = List (Text × FieldValue)

-- The value of a field of an input. `struct` is a struct with one field, and `source_text` a Go
-- expression that is not read here.
pub data Argument : Type 0 where
  string : Text → Argument
  string_slice : List Text → Argument
  string_map : Entries Text → Argument
  structs : List Struct → Argument
  struct : Text → Text → Argument → Argument
  source_text : Text → Argument

abbrev pub Fields : Type 0
Fields = List (Text × Argument)

-- `conn.Operation(&package.OperationInput{…})`
pub record Request : Type 0 where
  pub package_name : Text
  pub operation : Text
  pub fields : Fields

abbrev pub Client : Type 0 → Type 0
Client W = Request → Call W

-- One struct for each tag, with the names of the fields for its key and its value.
unfoldable pub structs_of : Text → Text → Entries Text → List Struct
structs_of key_field value_field [] = []
structs_of key_field value_field ((k, v) ∷ m) =
    structs_of key_field value_field m
    ++ ((key_field, text_field (some k)) ∷ (value_field, text_field (some v)) ∷ []) ∷ []

abbrev pub slice_tags : Text → Text → KeyValueTags → Argument
slice_tags key_field value_field tags =
    structs (structs_of key_field value_field (entries (to_map tags)))

abbrev pub structs_in : Argument → List Struct
structs_in (structs l) = l
structs_in _ = []

-- `aws.StringMap(tags.Map())`
abbrev pub map_tags : KeyValueTags → Argument
map_tags tags = string_map (entries (to_map tags))

-- One struct for each key.
unfoldable pub key_structs_of : Text → Entries Text → List Struct
key_structs_of key_field [] = []
key_structs_of key_field ((k, v) ∷ m) =
    key_structs_of key_field m ++ ((key_field, text_field (some k)) ∷ []) ∷ []

abbrev pub slice_tag_keys : Text → KeyValueTags → Argument
slice_tag_keys key_field tags = structs (key_structs_of key_field (entries (to_map tags)))

-- `aws.StringSlice(tags.IgnoreAws().Keys())`
abbrev pub plain_keys : KeyValueTags → Argument
plain_keys tags = string_slice (keys (entries (ignore_aws tags)))

abbrev pub text_of : FieldValue → Option Text
text_of (text_field p) = p
text_of (bool_field p) = none
text_of (texts_field l) = none

-- A field of a struct, nil when it was not set.
unfoldable pub field_text : Text → Struct → Option Text
field_text name [] = none
field_text name ((other, value) ∷ fields) =
    if other == name then text_of value else field_text name fields

abbrev pub string_value : Option Text → Text
string_value none = []
string_value (some s) = s

-- `aws.StringValue(tag.Key)` and `tag.Value` of each struct.
unfoldable pub pairs_of : Text → Text → List Struct → Entries (Option Text)
pairs_of key_field value_field [] = []
pairs_of key_field value_field (tag ∷ tags) =
    (string_value (field_text key_field tag), field_text value_field tag)
    ∷ pairs_of key_field value_field tags

-- The loop over the structs, and `New` of the map that it makes.
unfoldable pub tags_of_structs : Text → Text → List Struct → KeyValueTags
unfolding collect from_pointers pairs_of field_text
tags_of_structs key_field value_field tags =
    made (from_pointers (collect (pairs_of key_field value_field tags) []))

-- `New` of a map[string]*string.
unfoldable pub tags_of_map : GoMap (Option Text) → KeyValueTags
unfolding from_pointers
tags_of_map tags = made (from_pointers (entries tags))
