-- ===== src/Examples/SetTags.antt =====
-- Inspector, Service Catalog and the filters of EC2.
use terraform_provider_awsut.Prelude.{
  ◌≡◌, refl, ◌&&◌, Option, none, some, List, [], ◌∷◌, Text, codes, ◌==◌, mem, is_empty,
  if◌then◌else◌,
}
use terraform_provider_awsut.Prelude.Go.{ok}
use terraform_provider_awsut.Prelude.Map.{made, entries, lookup, insert, GoMap}
use mathlib.Core.List.{Permᴰ}
use mathlib.Core.List.Permᴰ.{swap}
use terraform_provider_awsut.KeyValueTags.Copy.{or_else}
use terraform_provider_awsut.KeyValueTags.Filter.{ignore_aws}
use terraform_provider_awsut.KeyValueTags.Access.{map_value, keys}
use terraform_provider_awsut.KeyValueTags.New.{new, of_value}
use terraform_provider_awsut.KeyValueTags.Data.{KeyValueTags}
use terraform_provider_awsut.Prelude.Value.{Value, string_value}
use terraform_provider_awsut.KeyValueTags.Lookups.{tag_at, map_option}
use terraform_provider_awsut.KeyValueTags.Requests.{Client, Argument, Fields}
use terraform_provider_awsut.KeyValueTags.Generated.Shapes.{read_tags}
use terraform_provider_awsut.KeyValueTags.Generators.SyncResult.{Holds}
use terraform_provider_awsut.KeyValueTags.SetTags.{
  set_tags_for_resource, update_catalog, inspector_update_tags, inspector_between,
  service_catalog_portfolio_update_tags, service_catalog_product_update_tags, catalog_between,
}
use terraform_provider_awsut.KeyValueTags.SetTags.Result.{
  tags_in, keys_in, IsReplacing, IsChanging, inspector_update_tags-lookup,
  service_catalog_update_tags-Holds,
}
use terraform_provider_awsut.Ec2.Filters.{Filter, filters_in_order, build_attribute_filter_list}
use terraform_provider_awsut.Ec2.Filters.Order.{filters_in_order-perm}
use terraform_provider_awsut.Examples.Tags.{
  old_source, new_source, old_tags, new_tags, old_read, new_read,
}
use terraform_provider_awsut.Examples.Generated.{Held}

abbrev held : Held → Text → Option Text
held w k = w k

abbrev field : Text → Fields → Option Argument
field name [] = none
field name ((other, value) ∷ fields) = if other == name then some value else field name fields

abbrev arn : Text
arn = codes "arn"

-- Inspector for one resource.
abbrev inspector : Client Held
inspector request w = (none, λ k. lookup k (tags_in (field (codes "Tags") request.fields)))

the_tags :
    (tags : Option Argument) → field (codes "Tags") (set_tags_for_resource arn tags).fields ≡ tags
unfolding ◌==◌
the_tags none = refl
the_tags (some value) = refl

inspector-IsReplacing : IsReplacing inspector arn held
inspector-IsReplacing = record { set_lookup = λ tags w u h k. rw (the_tags tags) }

-- Service Catalog for one portfolio, or one product.
abbrev catalog : Client Held
catalog request w = (
  none,
  λ k.
      or_else (lookup k (tags_in (field (codes "AddTags") request.fields)))
        (if mem k (keys_in (field (codes "RemoveTags") request.fields)) then none else w k),
)

the_added :
    (operation : Text) (remove_tags add_tags : Option Argument)
    → field (codes "AddTags") (update_catalog operation arn remove_tags add_tags).fields ≡ add_tags
unfolding ◌==◌
the_added operation none none = refl
the_added operation none (some added) = refl
the_added operation (some removed_keys) none = refl
the_added operation (some removed_keys) (some added) = refl

the_removed :
    (operation : Text) (remove_tags add_tags : Option Argument)
    → field (codes "RemoveTags") (update_catalog operation arn remove_tags add_tags).fields
      ≡ remove_tags
unfolding ◌==◌
the_removed operation none none = refl
the_removed operation none (some added) = refl
the_removed operation (some removed_keys) none = refl
the_removed operation (some removed_keys) (some added) = refl

catalog-IsChanging : (operation : Text) → IsChanging catalog operation arn held
catalog-IsChanging operation = record {
  change_lookup = λ remove_tags add_tags w u h k.
      rw (the_added operation remove_tags add_tags, the_removed operation remove_tags add_tags);
}

abbrev before : Held
before k = map_option map_value (tag_at old_tags k)

inspector_succeeds : (inspector_update_tags inspector arn old_source new_source before).0 ≡ ok tt
unfolding inspector_update_tags inspector_between read_tags new insert ◌==◌
inspector_succeeds = refl

inspector_update_tags-lookup_example :
    held (inspector_update_tags inspector arn old_source new_source before).1 (codes "a") ≡ (
      if is_empty (entries new_tags) && is_empty (entries old_tags)
      then before (codes "a")
      else map_option map_value (tag_at (ignore_aws new_tags) (codes "a")))
inspector_update_tags-lookup_example =
    inspector_update_tags-lookup inspector arn held inspector-IsReplacing old_source new_source
      old_tags new_tags before old_read new_read inspector_succeeds (codes "a")

portfolio_succeeds :
    (service_catalog_portfolio_update_tags catalog arn old_source new_source before).0 ≡ ok tt
unfolding service_catalog_portfolio_update_tags catalog_between read_tags new insert ◌==◌
portfolio_succeeds = refl

product_succeeds :
    (service_catalog_product_update_tags catalog arn old_source new_source before).0 ≡ ok tt
unfolding service_catalog_product_update_tags catalog_between read_tags new insert ◌==◌
product_succeeds = refl

service_catalog_update_tags-Holds_example :
    Holds
      (held (service_catalog_portfolio_update_tags catalog arn old_source new_source before).1)
      new_tags
    × Holds
        (held (service_catalog_product_update_tags catalog arn old_source new_source before).1)
        new_tags
service_catalog_update_tags-Holds_example =
    service_catalog_update_tags-Holds catalog arn held
      (catalog-IsChanging (codes "UpdatePortfolio")) (catalog-IsChanging (codes "UpdateProduct"))
      old_source new_source old_tags new_tags before old_read new_read (λ k plain. refl)
      portfolio_succeeds product_succeeds

abbrev attrs : GoMap Text
attrs = made ((codes "vpc-id", codes "vpc-1") ∷ (codes "state", codes "available") ∷ [])

other_order : Permᴰ (codes "vpc-id" ∷ codes "state" ∷ []) (keys (entries attrs))
unfolding keys
other_order = swap refl refl

filters_in_order-perm_example :
    filters_in_order (codes "vpc-id" ∷ codes "state" ∷ []) (entries attrs)
    ≡ build_attribute_filter_list attrs
filters_in_order-perm_example =
    filters_in_order-perm attrs (codes "vpc-id" ∷ codes "state" ∷ []) other_order

abbrev tag_map : GoMap Value
tag_map = made ((codes "Name", string_value (codes "web")) ∷ [])

abbrev name_tags : KeyValueTags
name_tags = made ((codes "Name", some (of_value (some (codes "web")))) ∷ [])

abbrev name_filters : List Filter
name_filters = record { name = codes "tag:Name"; values = some (codes "web") ∷ [] } ∷ []
