-- ===== src/KeyValueTags/Generators/Template.antt =====
-- The templates of internal/keyvaluetags/generators/{servicetags,updatetags,listtags}/main.go, as functions
-- of the name of a service: what the functions that they print do.
use terraform_provider_awsut.Prelude.{
  ℕ, Bool, not, List, [], ◌∷◌, ◌++◌, ◌+◌, ◌-◌, ◌*◌, Text, codes, ◌==◌, is_empty, mem, if◌then◌else◌,
}
use terraform_provider_awsut.Prelude.Map.{entries}
use terraform_provider_awsut.KeyValueTags.Data.{KeyValueTags}
use terraform_provider_awsut.KeyValueTags.Filter.{ignore_aws}
use terraform_provider_awsut.KeyValueTags.Access.{keys}
use terraform_provider_awsut.KeyValueTags.Requests.{
  Argument, string, string_slice, struct, source_text, Struct, Fields, Client, slice_tags, map_tags,
  slice_tag_keys, plain_keys, tags_of_structs,
}
use terraform_provider_awsut.KeyValueTags.Customizations.{switch}
use terraform_provider_awsut.KeyValueTags.Customizations.Types.{
  service_tag_package, service_tag_resource_type_field, service_tag_type_identifier_field,
  service_tag_type_key_field, service_tag_type_value_field, service_tag_type_additional_bool_fields,
}
use terraform_provider_awsut.KeyValueTags.Customizations.Tagging.{
  service_tag_function, service_tag_function_batch_size, service_tag_input_identifier_field,
  service_tag_input_identifier_requires_slice, service_tag_input_tags_field,
  service_tag_input_custom_value,
}
use terraform_provider_awsut.KeyValueTags.Customizations.Untagging.{
  service_untag_function, service_untag_input_requires_tag_type,
  service_untag_input_requires_tag_key_type, service_untag_input_tags_field,
  service_untag_input_custom_value,
}
use terraform_provider_awsut.KeyValueTags.Customizations.Listing.{
  service_list_tags_function, service_list_tags_input_filter_identifier_name,
  service_list_tags_input_identifier_field, service_list_tags_input_identifier_requires_slice,
  service_list_tags_output_tags_field,
}
use terraform_provider_awsut.KeyValueTags.Generated.Shapes.{
  UpdateFunction, TagRequest, update_tags, update_tags_in_chunks, update_tags_at_once, ListFunction,
  list_tags, filter,
}
use terraform_provider_awsut.KeyValueTags.Generators.Services.{map_service_names}

-- `{{ if … }}` over the text that a function of the template answers.
abbrev pub given : Text → Bool
given answer = not (is_empty answer)

-- The functions that the template prints without additional Boolean fields: all but those of autoscaling.
abbrev pub is_plain : Text → Bool
is_plain service = is_empty (service_tag_type_additional_bool_fields service)

abbrev decimal_from : ℕ → Text → ℕ
decimal_from n [] = n
decimal_from n (c ∷ s) = decimal_from (n * 10 + (c - 48)) s

-- The number that a Go literal stands for.
abbrev pub decimal : Text → ℕ
decimal = decimal_from 0

-- `…Tags()` of a plain service.
unfoldable pub template_tags : Text → KeyValueTags → Argument
template_tags service tags =
    if mem service map_service_names
    then map_tags tags
    else slice_tags (service_tag_type_key_field service) (service_tag_type_value_field service) tags

-- `…TagKeys()`
unfoldable pub template_tag_keys : Text → KeyValueTags → Argument
template_tag_keys service = slice_tag_keys (service_tag_type_key_field service)

-- `…KeyValueTags(tags)` of a plain service whose tags are structs.
unfoldable pub template_key_value_tags : Text → List Struct → KeyValueTags
template_key_value_tags service =
    tags_of_structs (service_tag_type_key_field service) (service_tag_type_value_field service)

-- The Go expressions that the customizations name, over the tags of the request.
unfoldable pub custom_value : Text → KeyValueTags → Argument
unfolding template_tags
custom_value expression tags =
    switch expression
      ((
        codes "&cloudfront.Tags{Items: updatedTags.IgnoreAws().CloudfrontTags()}",
        struct (codes "Tags") (codes "Items")
            (template_tags (codes "cloudfront") (ignore_aws tags)),
      )
        ∷ (
          codes "&cloudfront.TagKeys{Items: aws.StringSlice(removedTags.IgnoreAws().Keys())}",
          struct (codes "TagKeys") (codes "Items") (plain_keys tags),
        )
        ∷ (
          codes "&pinpoint.TagsModel{Tags: updatedTags.IgnoreAws().PinpointTags()}",
          struct (codes "TagsModel") (codes "Tags")
              (template_tags (codes "pinpoint") (ignore_aws tags)),
        )
        ∷ (codes "aws.StringMap(updatedTags.IgnoreAws().Map())", map_tags (ignore_aws tags))
        ∷ [])
      (source_text expression)

-- The fields of a request that name the resource.
unfoldable pub template_target : Text → Text → Text → Fields
template_target service identifier resource_type =
    if given (service_tag_type_identifier_field service)
    then []
    else (
      service_tag_input_identifier_field service,
      (if given (service_tag_input_identifier_requires_slice service)
          then string_slice (identifier ∷ [])
          else string identifier),
    )
      ∷ (if given (service_tag_resource_type_field service)
          then (service_tag_resource_type_field service, string resource_type) ∷ []
          else [])

-- What a request to untag holds, with the keys that it takes if no customization applies.
unfoldable pub template_untag_value : Text → (KeyValueTags → Argument) → KeyValueTags → Argument
template_untag_value service plain removed_tags =
    if given (service_untag_input_requires_tag_type service)
    then template_tags service (ignore_aws removed_tags)
    else if given (service_untag_input_requires_tag_key_type service)
    then template_tag_keys service (ignore_aws removed_tags)
    else if given (service_untag_input_custom_value service)
    then custom_value (service_untag_input_custom_value service) removed_tags
    else plain removed_tags

unfoldable pub template_tag_value : Text → KeyValueTags → Argument
template_tag_value service updated_tags =
    if given (service_tag_input_custom_value service)
    then custom_value (service_tag_input_custom_value service) updated_tags
    else template_tags service (ignore_aws updated_tags)

-- The request to untag.
unfoldable pub template_untag : Text → Text → Text → TagRequest
template_untag service identifier resource_type = (
  service_untag_function service,
  λ tags.
      template_target service identifier resource_type
      ++ (service_untag_input_tags_field service, template_untag_value service plain_keys tags)
        ∷ [],
)

-- The request to tag.
unfoldable pub template_tag : Text → Text → Text → TagRequest
template_tag service identifier resource_type = (
  service_tag_function service,
  λ tags.
      template_target service identifier resource_type
      ++ (service_tag_input_tags_field service, template_tag_value service tags) ∷ [],
)

-- `…UpdateTags` of a plain service.
unfoldable pub template_update_tags : {W : Type 0} → Client W → Text → UpdateFunction W
template_update_tags client service identifier resource_type =
    if service_tag_function service == service_untag_function service
    then update_tags_at_once client (service_tag_package service) identifier
        (service_tag_function service) (template_target service identifier resource_type)
        (λ tags.
          (service_tag_input_tags_field service, template_tags service (ignore_aws tags)) ∷ [])
        (λ tags.
          (
            service_untag_input_tags_field service,
            template_untag_value service
                (λ removed_tags. string_slice (keys (entries removed_tags))) tags,
          )
          ∷ [])
    else if given (service_tag_function_batch_size service)
    then update_tags_in_chunks client (service_tag_package service) identifier
        (decimal (service_tag_function_batch_size service))
        (template_untag service identifier resource_type)
        (template_tag service identifier resource_type)
    else update_tags client (service_tag_package service) identifier
        (template_untag service identifier resource_type)
        (template_tag service identifier resource_type)

-- `…ListTags` of a plain service, over its function `…KeyValueTags`.
unfoldable pub template_list_tags : {W A : Type 0} → (A → KeyValueTags) → Text → ListFunction W A
template_list_tags read service client identifier resource_type =
    list_tags client (service_tag_package service) (service_list_tags_function service)
      (if given (service_list_tags_input_filter_identifier_name service)
        then (
          codes "Filters",
          filter (service_list_tags_input_filter_identifier_name service) identifier,
        )
          ∷ []
        else (
          service_list_tags_input_identifier_field service,
          (if given (service_list_tags_input_identifier_requires_slice service)
              then string_slice (identifier ∷ [])
              else string identifier),
        )
          ∷ (if given (service_tag_resource_type_field service)
              then (service_tag_resource_type_field service, string resource_type) ∷ []
              else []))
      read (service_list_tags_output_tags_field service)
