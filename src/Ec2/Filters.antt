-- ===== src/Ec2/Filters.antt =====
-- internal/service/ec2/filter.go and internal/provider/ec2_filters.go: filters of the requests of EC2.
pub mod Order
use terraform_provider_awsut.Prelude.{
  Bool, true, false, Option, none, some, List, [], ◌∷◌, ◌++◌, Text, codes, is_empty, if◌then◌else◌,
}
use terraform_provider_awsut.Prelude.Map.{GoMap, Entries, entries, lookup}
use terraform_provider_awsut.Prelude.Value.{Value}
use terraform_provider_awsut.Prelude.Sort.{sort_strings}
use terraform_provider_awsut.KeyValueTags.Data.{KeyValueTags}
use terraform_provider_awsut.KeyValueTags.Filter.{ignore_aws}
use terraform_provider_awsut.KeyValueTags.Access.{keys}
use terraform_provider_awsut.KeyValueTags.New.{interface_map, new}
use terraform_provider_awsut.KeyValueTags.Requests.{pairs_of, structs_in}
use terraform_provider_awsut.KeyValueTags.Generated.SliceTags.FromAcm.{ec2_tags}

-- `ec2.Filter`
pub record Filter : Type 0 where
  pub name : Text
  pub values : List (Option Text)

abbrev value_at : Entries Text → Text → Text
value_at attrs name = elim (lookup name attrs) [ none ↦ [] | some value ↦ value ]

-- The loop over the names that were sorted.
unfoldable pub attribute_filters : Entries Text → List Text → List Filter
attribute_filters attrs [] = []
attribute_filters attrs (filter_name ∷ names) =
    let value = value_at attrs filter_name in
    let rest = attribute_filters attrs names in
    if is_empty value then rest else record { name = filter_name; values = some value ∷ [] } ∷ rest

-- The function from the list of names on, in the order in which the first loop visited them.
unfoldable pub filters_in_order : List Text → Entries Text → List Filter
unfolding attribute_filters
filters_in_order names attrs = attribute_filters attrs (sort_strings names)

unfoldable pub build_attribute_filter_list : GoMap Text → List Filter
unfolding filters_in_order
build_attribute_filter_list attrs = filters_in_order (keys (entries attrs)) (entries attrs)

abbrev pub tag_name : Text → Text
tag_name key = codes "tag:" ++ key

-- Each tag with its key and its value; `none` is a panic: the key of a tag is nil.
unfoldable pub build_ec2_tag_filter_list : List (Option Text × Option Text) → Option (List Filter)
build_ec2_tag_filter_list [] = some []
build_ec2_tag_filter_list ((none, value) ∷ tags) = none
build_ec2_tag_filter_list ((some key, value) ∷ tags) = elim (build_ec2_tag_filter_list tags) [
  | none ↦ none
  | some filters ↦ some (record { name = tag_name key; values = value ∷ [] } ∷ filters)
]

abbrev pointers_to : List Text → List (Option Text)
pointers_to [] = []
pointers_to (value ∷ values) = some value ∷ pointers_to values

-- The order of iteration is from the last entry to the first.
unfoldable pub ec2_attribute_filters_from_multimap : Entries (List Text) → List Filter
ec2_attribute_filters_from_multimap [] = []
ec2_attribute_filters_from_multimap ((k, v) ∷ m) =
    ec2_attribute_filters_from_multimap m ++ record { name = k; values = pointers_to v } ∷ []

-- The loop over the tags of `Ec2Tags`.
unfoldable pub tag_filters : Entries (Option Text) → List Filter
tag_filters [] = []
tag_filters ((key, value) ∷ tags) =
    record { name = tag_name key; values = value ∷ [] } ∷ tag_filters tags

unfoldable pub filters_of_tags : Option KeyValueTags → Option (List Filter)
unfolding tag_filters
filters_of_tags none = none
filters_of_tags (some tags) =
    some (
      tag_filters
        (pairs_of (codes "Key") (codes "Value") (structs_in (ec2_tags (ignore_aws tags)))))

-- `none` is a panic of `New`.
unfoldable pub ec2_tag_filters_from_map : GoMap Value → Option (List Filter)
unfolding filters_of_tags
ec2_tag_filters_from_map m =
    if is_empty (entries m) then some [] else filters_of_tags (new (interface_map m))

-- The members of the set with their names and values; `none` is a nil set.
unfoldable pub build_ec2_custom_filter_list : Option (List (Text × List Text)) → List Filter
build_ec2_custom_filter_list none = []
build_ec2_custom_filter_list (some []) = []
build_ec2_custom_filter_list (some ((name, values) ∷ custom_filters)) =
    record { name = name; values = pointers_to values }
    ∷ build_ec2_custom_filter_list (some custom_filters)
