-- ===== src/KeyValueTags/SetTags.antt =====
-- internal/keyvaluetags/inspector_tags.go and servicecatalog_tags.go: services that take one request for all
-- changes of the tags of a resource.
pub mod Result
use terraform_provider_awsut.Prelude.{
  Bool, true, false, not, Option, none, some, List, [], ◌∷◌, ◌++◌, Text, codes, is_empty,
  if◌then◌else◌,
}
use terraform_provider_awsut.Prelude.Error.{Error, wrapped}
use terraform_provider_awsut.Prelude.Go.{Go, ok, pure, check}
use terraform_provider_awsut.Prelude.Map.{entries}
use terraform_provider_awsut.KeyValueTags.Data.{KeyValueTags}
use terraform_provider_awsut.KeyValueTags.Filter.{ignore_aws, removed, updated}
use terraform_provider_awsut.KeyValueTags.New.{Source}
use terraform_provider_awsut.KeyValueTags.UpdateTags.{error_untagging, error_tagging}
use terraform_provider_awsut.KeyValueTags.Requests.{
  Argument, string, Fields, Request, Client, plain_keys,
}
use terraform_provider_awsut.KeyValueTags.Generated.Shapes.{read_tags}
use terraform_provider_awsut.KeyValueTags.Generated.SliceTags.FromEcs.{inspector_tags}
use terraform_provider_awsut.KeyValueTags.Generated.SliceTags.FromOrganizations.{
  servicecatalog_tags,
}

-- A field that is left nil, or set.
abbrev pub set_if : Bool → Argument → Option Argument
set_if true value = some value
set_if false value = none

abbrev pub field_of : Text → Option Argument → Fields
field_of name none = []
field_of name (some value) = (name, value) ∷ []

abbrev pub set_tags_for_resource : Text → Option Argument → Request
set_tags_for_resource identifier tags = record {
  package_name = codes "inspector";
  operation = codes "SetTagsForResource";
  fields = (codes "ResourceArn", string identifier) ∷ field_of (codes "Tags") tags;
}

-- UpdatePortfolio and UpdateProduct
abbrev pub update_catalog : Text → Text → Option Argument → Option Argument → Request
update_catalog operation identifier remove_tags add_tags = record {
  package_name = codes "servicecatalog";
  operation = operation;
  fields =
      (codes "Id", string identifier) ∷ field_of (codes "RemoveTags") remove_tags
      ++ field_of (codes "AddTags") add_tags;
}

abbrev pub error_updating_product : Text → Error → Error
error_updating_product identifier e =
    wrapped (codes "error updating tags for Service Catalog Product (%s): %w") (identifier ∷ []) e

module _ {W : Type 0} (client : Client W) (identifier : Text) where
  unfoldable pub inspector_between : KeyValueTags → KeyValueTags → Go W (Unit {0})
  inspector_between old_tags new_tags =
      if not (is_empty (entries new_tags))
      then check (error_tagging identifier)
          (client (set_tags_for_resource identifier (some (inspector_tags (ignore_aws new_tags)))))
      else if not (is_empty (entries old_tags))
      then check (error_untagging identifier) (client (set_tags_for_resource identifier none))
      else pure tt

  unfoldable pub inspector_update_tags : Source → Source → Go W (Unit {0})
  unfolding read_tags
  inspector_update_tags = read_tags client (codes "inspector") identifier inspector_between

  -- The request is sent even if there is nothing to change.
  unfoldable pub catalog_between : Text → KeyValueTags → KeyValueTags → Go W (Unit {0})
  catalog_between operation old_tags new_tags =
      let removed_tags = removed old_tags new_tags in
      let updated_tags = updated old_tags new_tags in
      check (error_updating_product identifier) (
        client (
          update_catalog operation identifier
            (set_if (not (is_empty (entries removed_tags))) (plain_keys removed_tags))
            (set_if (not (is_empty (entries updated_tags)))
              (servicecatalog_tags (ignore_aws updated_tags)))))

  unfoldable pub service_catalog_portfolio_update_tags : Source → Source → Go W (Unit {0})
  unfolding read_tags
  service_catalog_portfolio_update_tags =
      read_tags client (codes "servicecatalog") identifier
        (catalog_between (codes "UpdatePortfolio"))

  unfoldable pub service_catalog_product_update_tags : Source → Source → Go W (Unit {0})
  unfolding read_tags
  service_catalog_product_update_tags =
      read_tags client (codes "servicecatalog") identifier (catalog_between (codes "UpdateProduct"))
