-- ===== src/KeyValueTags/Data.antt =====
-- internal/keyvaluetags/key_value_tags.go: the types `TagData` and `KeyValueTags`, and the
-- comparison `TagData.Equal`.
use terraform_provider_awsut.Prelude.{
  Bool, true, false, not, ◌&&◌, Option, none, some, [], ◌∷◌, Text, codes, ◌==◌, if◌then◌else◌, eqb,
}
use terraform_provider_awsut.Prelude.Map.{GoMap, Entries, entries, is_nil, size, lookup}

abbrev pub aws_tag_key_prefix : Text
aws_tag_key_prefix = codes "aws:"

abbrev pub elasticbeanstalk_tag_key_prefix : Text
elasticbeanstalk_tag_key_prefix = codes "elasticbeanstalk:"

abbrev pub name_tag_key : Text
name_tag_key = codes "Name"

abbrev pub rds_tag_key_prefix : Text
rds_tag_key_prefix = codes "rds:"

abbrev pub serverless_application_repository_tag_key_prefix : Text
serverless_application_repository_tag_key_prefix = codes "serverlessrepo:"

-- A pointer that may be nil is an `Option`.
pub record TagData : Type 0 where
  pub additional_bool_fields : GoMap (Option Bool)
  pub additional_string_fields : GoMap (Option Text)
  pub value : Option Text

abbrev pub KeyValueTags : Type 0
KeyValueTags = GoMap (Option TagData)

-- reflect.DeepEqual on pointers to a type with the given comparison.
unfoldable pub deep_equal_pointer {ℓ} : {A : Type ℓ} → (A → A → Bool) → Option A → Option A → Bool
deep_equal_pointer eq none none = true
deep_equal_pointer eq none (some b) = false
deep_equal_pointer eq (some a) none = false
deep_equal_pointer eq (some a) (some b) = eq a b

unfoldable pub bool_eq : Bool → Bool → Bool
bool_eq true b = b
bool_eq false b = not b

unfoldable pub equal_at {ℓ} : {V : Type ℓ} → (V → V → Bool) → V → Option V → Bool
equal_at eq v none = false
equal_at eq v (some w) = eq v w

unfoldable pub all_equal_in {ℓ} : {V : Type ℓ} → (V → V → Bool) → Entries V → Entries V → Bool
unfolding equal_at
all_equal_in eq [] other = true
all_equal_in eq ((k, v) ∷ m) other = equal_at eq v (lookup k other) && all_equal_in eq m other

-- reflect.DeepEqual on maps: both nil or neither, as many entries, and equal values at each key.
unfoldable pub deep_equal_map {ℓ} : {V : Type ℓ} → (V → V → Bool) → GoMap V → GoMap V → Bool
unfolding all_equal_in
deep_equal_map eq m other =
    if is_nil m
    then is_nil other
    else not (is_nil other)
      && (eqb (size m) (size other) && all_equal_in eq (entries m) (entries other))

unfoldable pub equal_fields : TagData → TagData → Bool
unfolding deep_equal_map deep_equal_pointer bool_eq
equal_fields td other =
    if not (
      deep_equal_map (deep_equal_pointer bool_eq) td.additional_bool_fields
        other.additional_bool_fields)
    then false
    else if not (
        deep_equal_map (deep_equal_pointer ◌==◌) td.additional_string_fields
          other.additional_string_fields)
    then false
    else if not (deep_equal_pointer ◌==◌ td.value other.value)
    then false
    else true

-- `func (td *TagData) Equal(other *TagData) bool`
unfoldable pub equal : Option TagData → Option TagData → Bool
unfolding equal_fields
equal none none = true
equal none (some other) = false
equal (some td) none = false
equal (some td) (some other) = equal_fields td other
