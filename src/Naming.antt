-- ===== src/Naming.antt =====
-- internal/naming/naming.go: names that end in a unique identifier. The library that makes
-- identifiers and the regular expressions are the record `Ids`.
pub mod Prefix
use terraform_provider_awsut.Prelude.{
  ℕ, ◌+◌, ◌-◌, Bool, true, false, Option, none, some, List, [], ◌∷◌, ◌++◌, Text, codes, ◌==◌,
  length, take, eqb, if◌then◌else◌,
}
use terraform_provider_awsut.Prelude.Go.{Outcome, ok, err}

-- resource.PrefixedUniqueId and resource.UniqueId answer a fresh name; `suffix_length` is
-- resource.UniqueIDSuffixLength and `decimal` prints it. `match_string` is MatchString of the
-- regular expression that MustCompile makes; `none` is its panic.
pub record Ids (W : Type 0) : Type 0 where
  pub prefixed_unique_id : Text → W → Text × W
  pub unique_id : W → Text × W
  pub suffix_length : ℕ
  pub decimal : ℕ → Text
  pub match_string : Text → Text → Option Bool

module _ {W : Type 0} (ids : Ids W) where
  abbrev with_suffix : Text × W → Text → Text × W
  with_suffix (name, w) name_suffix = (name ++ name_suffix, w)

  unfoldable pub generate_with_suffix : Text → Text → Text → W → Text × W
  generate_with_suffix name name_prefix name_suffix w =
      if name == []
      then (if name_prefix == []
          then with_suffix (ids.unique_id w) name_suffix
          else with_suffix (ids.prefixed_unique_id name_prefix w) name_suffix)
      else (name, w)

  unfoldable pub generate : Text → Text → W → Text × W
  unfolding generate_with_suffix
  generate name name_prefix = generate_with_suffix name name_prefix []

  -- `fmt.Sprintf("[[:xdigit:]]{%d}%s$", resource.UniqueIDSuffixLength, additionalSuffix)`
  unfoldable pub resource_unique_id_plus_additional_suffix_regexp_pattern : Text → Text
  resource_unique_id_plus_additional_suffix_regexp_pattern additional_suffix =
      codes "[[:xdigit:]]{"
      ++ ids.decimal ids.suffix_length
      ++ codes "}"
      ++ additional_suffix
      ++ codes "$"

  unfoldable pub has_resource_unique_id_plus_additional_suffix : Text → Text → Option Bool
  has_resource_unique_id_plus_additional_suffix s additional_suffix =
      ids.match_string (resource_unique_id_plus_additional_suffix_regexp_pattern additional_suffix)
        s

  unfoldable pub has_resource_unique_id_suffix : Text → Option Bool
  unfolding has_resource_unique_id_plus_additional_suffix
  has_resource_unique_id_suffix s = has_resource_unique_id_plus_additional_suffix s []

  -- `namePrefixIndex <= 0`: on ℕ the difference of a name that is too short is 0.
  unfoldable pub prefix_before : Text → ℕ → Option Text
  prefix_before name name_prefix_index =
      if eqb name_prefix_index 0 then none else some (take name_prefix_index name)

  abbrev pub prefix_if : Option Bool → Option Text → Outcome (Option Text)
  prefix_if none prefix = Outcome.panic
  prefix_if (some false) prefix = ok none
  prefix_if (some true) prefix = ok prefix

  unfoldable pub name_prefix_from_name_with_suffix : Text → Text → Outcome (Option Text)
  unfolding has_resource_unique_id_plus_additional_suffix prefix_before
  name_prefix_from_name_with_suffix name name_suffix =
      prefix_if (has_resource_unique_id_plus_additional_suffix name name_suffix)
        (prefix_before name (length name - ids.suffix_length - length name_suffix))

  unfoldable pub name_prefix_from_name : Text → Outcome (Option Text)
  unfolding name_prefix_from_name_with_suffix
  name_prefix_from_name name = name_prefix_from_name_with_suffix name []
