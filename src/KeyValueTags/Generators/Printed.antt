-- ===== src/KeyValueTags/Generators/Printed.antt =====
-- The functions of internal/keyvaluetags that are generated are those that the templates print over the
-- names of the generators.
use terraform_provider_awsut.Prelude.{
  ◌≡◌, ◌&&◌, Bool, not, refl, List, ◌++◌, Text, codes, map, mem, ◌==◌, lt_text,
}
use terraform_provider_awsut.KeyValueTags.Requests.{Client}
use terraform_provider_awsut.KeyValueTags.Customizations.{switch}
use terraform_provider_awsut.KeyValueTags.Customizations.Types.{
  service_tag_package, service_tag_resource_type_field, service_tag_type_identifier_field,
  service_tag_type_key_field, service_tag_type_value_field, service_tag_type_additional_bool_fields,
  service_tag_key_type,
}
use terraform_provider_awsut.KeyValueTags.Customizations.Tagging.{
  service_tag_function, service_tag_function_batch_size, service_tag_input_identifier_field,
  service_tag_input_identifier_requires_slice, service_tag_input_tags_field,
  service_tag_input_custom_value,
}
use terraform_provider_awsut.KeyValueTags.Customizations.Untagging.{
  service_untag_function, service_untag_input_requires_tag_type,
  service_untag_input_requires_tag_key_type, service_untag_input_tags_field,
  service_untag_input_custom_value,
}
use terraform_provider_awsut.KeyValueTags.Customizations.Listing.{
  service_list_tags_function, service_list_tags_input_filter_identifier_name,
  service_list_tags_input_identifier_field, service_list_tags_input_identifier_requires_slice,
  service_list_tags_output_tags_field,
}
use terraform_provider_awsut.KeyValueTags.Generators.Template.{
  given, is_plain, template_tags, template_tag_keys, template_key_value_tags, custom_value,
  template_target, template_untag_value, template_tag_value, template_untag, template_tag,
  template_update_tags, template_list_tags,
}
use terraform_provider_awsut.KeyValueTags.Generators.Names.{
  update_service_names, list_service_names,
}
use terraform_provider_awsut.KeyValueTags.Generators.Services.{
  slice_service_names, map_service_names, title, sorted_where,
}
use terraform_provider_awsut.Prelude.Sort.{insert_string, sort_strings}
use terraform_provider_awsut.KeyValueTags.Requests.{tags_of_map}
use terraform_provider_awsut.KeyValueTags.Generators.UpdateTable.{update_functions}
use terraform_provider_awsut.KeyValueTags.Generators.ListTables.{
  map_list_functions, struct_list_functions,
}
use terraform_provider_awsut.KeyValueTags.Generators.TagTables.{tag_functions, tag_key_functions}
use terraform_provider_awsut.KeyValueTags.Generators.KeyValueTables.{
  map_key_value_functions, struct_key_value_functions,
}

-- What a template prints for some names: the name of the function in Go, and what it does.
abbrev pub printed {ℓ} : {A : Type ℓ} → Text → (Text → A) → List Text → List (Text × A)
printed suffix template = map (λ service. (title service ++ suffix, template service))

abbrev pub has_map_tags : Text → Bool
has_map_tags service = mem service map_service_names

-- The functions of update_tags_gen.go, without that of autoscaling, are in name, order and behaviour those
-- that the template of updatetags/main.go prints over the sorted names of the services.
pub update_functions_lem :
    {W : Type 0} (client : Client W)
    → update_functions client
      ≡ printed
          (codes "UpdateTags")
          (template_update_tags client)
          (sorted_where is_plain update_service_names)
unfolding template_update_tags template_untag template_tag template_target template_untag_value
    template_tag_value template_tag_keys custom_value service_tag_package
    service_tag_resource_type_field service_tag_type_identifier_field service_tag_function
    service_tag_function_batch_size service_tag_input_identifier_field
    service_tag_input_identifier_requires_slice service_tag_input_tags_field
    service_tag_input_custom_value service_untag_function service_untag_input_requires_tag_type
    service_untag_input_requires_tag_key_type service_untag_input_tags_field
    service_untag_input_custom_value template_tags service_tag_type_key_field
    service_tag_type_value_field switch ◌==◌ mem title lt_text insert_string sort_strings
    sorted_where service_tag_type_additional_bool_fields
update_functions_lem client = refl

list_functions_lem :
    {W : Type 0}
    → (map_list_functions {W = W}
        ≡ printed
            (codes "ListTags")
            (template_list_tags tags_of_map)
            (sorted_where (λ service. is_plain service && has_map_tags service) list_service_names))
      × (struct_list_functions {W = W}
          ≡ printed
              (codes "ListTags")
              (λ service. template_list_tags (template_key_value_tags service) service)
              (sorted_where
                (λ service. is_plain service && not (has_map_tags service))
                list_service_names))
unfolding template_list_tags service_tag_package service_tag_resource_type_field
    service_list_tags_function service_list_tags_input_filter_identifier_name
    service_list_tags_input_identifier_field service_list_tags_input_identifier_requires_slice
    service_list_tags_output_tags_field service_tag_input_identifier_field template_key_value_tags
    service_tag_type_key_field service_tag_type_value_field switch ◌==◌ mem title lt_text
    insert_string sort_strings sorted_where service_tag_type_additional_bool_fields
list_functions_lem = (refl, refl)

tag_functions_lem :
    (tag_functions
      ≡ printed
          (codes "Tags")
          template_tags
          (sort_strings map_service_names ++ sorted_where is_plain slice_service_names))
    × (tag_key_functions
        ≡ printed
            (codes "TagKeys")
            template_tag_keys
            (sorted_where (λ service. given (service_tag_key_type service)) slice_service_names))
    × (map_key_value_functions
        ≡ printed (codes "KeyValueTags") (λ service. tags_of_map) (sort_strings map_service_names))
    × (struct_key_value_functions
        ≡ printed
            (codes "KeyValueTags")
            template_key_value_tags
            (sorted_where is_plain slice_service_names))
unfolding template_tags service_tag_type_key_field service_tag_type_value_field template_tag_keys
    template_key_value_tags service_tag_key_type switch ◌==◌ mem title lt_text insert_string
    sort_strings sorted_where service_tag_type_additional_bool_fields
tag_functions_lem = (refl, refl, refl, refl)

-- The functions of list_tags_gen.go and of service_tags_gen.go, without those of autoscaling, are in name, order
-- and behaviour those that the templates of listtags/main.go and servicetags/main.go print over the sorted names
-- of the services: the functions that list tags, for tags that are maps and for tags that are structs, and those
-- from tags, from tags to keys, and to tags of both kinds.
pub read_functions_lem :
    {W : Type 0}
    → ((map_list_functions {W = W}
          ≡ printed (codes "ListTags") (template_list_tags tags_of_map) (
              sorted_where
                (λ service. is_plain service && has_map_tags service)
                list_service_names))
        × (struct_list_functions {W = W}
            ≡ printed
                (codes "ListTags")
                (λ service. template_list_tags (template_key_value_tags service) service)
                (sorted_where
                  (λ service. is_plain service && not (has_map_tags service))
                  list_service_names)))
      × ((tag_functions
            ≡ printed
                (codes "Tags")
                template_tags
                (sort_strings map_service_names ++ sorted_where is_plain slice_service_names))
          × (tag_key_functions
              ≡ printed (codes "TagKeys") template_tag_keys (
                  sorted_where
                    (λ service. given (service_tag_key_type service))
                    slice_service_names))
          × (map_key_value_functions
              ≡ printed
                  (codes "KeyValueTags")
                  (λ service. tags_of_map)
                  (sort_strings map_service_names))
          × (struct_key_value_functions
              ≡ printed
                  (codes "KeyValueTags")
                  template_key_value_tags
                  (sorted_where is_plain slice_service_names)))
read_functions_lem = (list_functions_lem, tag_functions_lem)
