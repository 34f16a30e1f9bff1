-- ===== src/Ec2/Filters/Order.antt =====
-- The filters do not depend on the order in which Go visits a map, and select the tags of the map.
use terraform_provider_awsut.Prelude.{
  ◌≡◌, Option, none, some, List, [], ◌∷◌, Text, ◌==◌, if◌then◌else◌,
}
use terraform_provider_awsut.Prelude.Map.{GoMap, entries}
use terraform_provider_awsut.Prelude.Value.{Value}
use terraform_provider_awsut.Prelude.Sort.{sort_strings-perm}
use mathlib.Core.List.{Permᴰ}
use terraform_provider_awsut.KeyValueTags.Data.{KeyValueTags}
use terraform_provider_awsut.KeyValueTags.Access.{keys}
use terraform_provider_awsut.Ec2.Filters.{Filter, filters_in_order, build_attribute_filter_list}

-- In whatever order the loop of BuildAttributeFilterList visits the names of the attributes, the list of filters
-- is the same.
pub filters_in_order-perm :
    (attrs : GoMap Text) (names : List Text)
    → Permᴰ names (keys (entries attrs))
    → filters_in_order names (entries attrs) ≡ build_attribute_filter_list attrs
unfolding filters_in_order build_attribute_filter_list
filters_in_order-perm attrs names any_order = rw (sort_strings-perm any_order)

-- The values of the filter with a name.
unfoldable pub values_of : Text → List Filter → Option (List (Option Text))
values_of name [] = none
values_of name (filter ∷ filters) =
    if filter.name == name then some filter.values else values_of name filters
