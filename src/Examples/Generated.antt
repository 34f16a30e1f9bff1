-- ===== src/Examples/Generated.antt =====
-- The generated functions: a service that reads the requests, and the theorems at it.
use terraform_provider_awsut.Prelude.{
  ◌≡◌, refl, arith, eq_iff, ◌&&◌, ◌||◌, not, true, Option, none, some, List, [], ◌∷◌, ◌++◌, Text,
  codes, ◌==◌, lt_text, mem, is_some, has_prefix, if◌then◌else◌,
}
use terraform_provider_awsut.Prelude.Go.{ok}
use terraform_provider_awsut.Prelude.Map.{entries, lookup, insert}
use terraform_provider_awsut.Prelude.Sort.{insert_string, sort_strings}
use terraform_provider_awsut.KeyValueTags.Data.{equal}
use terraform_provider_awsut.KeyValueTags.Copy.{or_else, copy_if}
use terraform_provider_awsut.KeyValueTags.Filter.{removed, updated}
use terraform_provider_awsut.KeyValueTags.Access.{map_value, to_map}
use terraform_provider_awsut.KeyValueTags.New.{of_value, new}
use terraform_provider_awsut.KeyValueTags.Lookups.{tag_at, map_option}
use terraform_provider_awsut.KeyValueTags.Requests.{
  Client, Argument, source_text, Struct, structs_of, Fields, tags_of_map,
}
use terraform_provider_awsut.KeyValueTags.Requests.Named.{named_pairs, named_tags}
use terraform_provider_awsut.KeyValueTags.Customizations.{switch}
use terraform_provider_awsut.KeyValueTags.Customizations.Clients.{service_client_type}
use terraform_provider_awsut.KeyValueTags.Customizations.Types.{
  service_tag_resource_type_field, service_tag_type_identifier_field, service_tag_type_key_field,
  service_tag_type_value_field, service_tag_type_additional_bool_fields, service_tag_key_type,
}
use terraform_provider_awsut.KeyValueTags.Customizations.Tagging.{
  service_tag_function, service_tag_function_batch_size, service_tag_input_custom_value,
}
use terraform_provider_awsut.KeyValueTags.Customizations.Untagging.{
  service_untag_function, service_untag_input_requires_tag_key_type,
  service_untag_input_custom_value,
}
use terraform_provider_awsut.KeyValueTags.Generated.Shapes.{update_tags}
use terraform_provider_awsut.KeyValueTags.Generators.Names.{
  update_service_names, list_service_names,
}
use terraform_provider_awsut.KeyValueTags.Generators.Services.{
  slice_service_names, map_service_names, sorted_where,
}
use terraform_provider_awsut.KeyValueTags.Generators.Template.{
  given, is_plain, template_tags, template_key_value_tags, template_update_tags, template_untag,
  template_tag, template_target, template_list_tags, template_tag_keys,
}
use terraform_provider_awsut.KeyValueTags.Generators.UpdateTable.{update_functions}
use terraform_provider_awsut.KeyValueTags.Generators.ListTables.{
  map_list_functions, struct_list_functions,
}
use terraform_provider_awsut.KeyValueTags.Generators.TagTables.{tag_functions, tag_key_functions}
use terraform_provider_awsut.KeyValueTags.Generators.KeyValueTables.{
  map_key_value_functions, struct_key_value_functions,
}
use terraform_provider_awsut.KeyValueTags.Generators.Printed.{
  printed, has_map_tags, update_functions_lem, read_functions_lem,
}
use terraform_provider_awsut.KeyValueTags.Generators.RoundTrip.{
  template_key_value_tags-template_tags,
}
use terraform_provider_awsut.KeyValueTags.Generators.Sync.{services}
use terraform_provider_awsut.KeyValueTags.Generators.SyncResult.{
  IsLawful, IsMatch, template_update_tags-Holds,
}
use terraform_provider_awsut.KeyValueTags.Generators.Closed.{generated_for-closed}
use terraform_provider_awsut.Examples.Tags.{
  old_source, new_source, old_tags, new_tags, old_read, new_read,
}

-- A world that holds the tags of one resource.
abbrev pub Held : Type 0
Held = Text → Option Text

abbrev pub acm : Text
acm = codes "acm"

abbrev pub last_value : Fields → Argument
last_value [] = source_text []
last_value ((name, value) ∷ []) = value
last_value (first ∷ second ∷ fields) = last_value (second ∷ fields)

-- What is left of a tag when a request to untag names its key, with a value or without.
abbrev left_of : Option (Option Text) → Option Text → Option Text
left_of none held = held
left_of (some none) held = none
left_of (some (some value)) none = none
left_of (some (some value)) (some held) = if held == value then none else some held

-- Certificate Manager for one certificate. It removes a tag only if the value is the given one.
abbrev acm_client : Client Held
acm_client request w =
    let value = last_value request.fields in
    if request.operation == codes "RemoveTagsFromCertificate"
    then (none, λ k. left_of (lookup k (named_pairs (codes "Key") (codes "Value") value)) (w k))
    else (none, λ k. or_else (lookup k (named_tags (codes "Key") (codes "Value") value)) (w k))

abbrev held : Held → Text → Option Text
held w k = w k

left_of_match :
    (asked : Option (Option Text)) (given held_value : Option Text)
    → asked ≡ some given
    → IsMatch given held_value
    → left_of asked held_value ≡ none
left_of_match none given held_value h same = cc
left_of_match (some none) given held_value h same = refl
left_of_match (some (some v)) given none h same = refl
left_of_match (some (some v)) none (some u) h same = cc
left_of_match (some (some v)) (some w) (some u) h same = ground (arith, eq_iff u v)

acm-IsLawful : IsLawful acm_client acm (codes "arn") [] held
unfolding ◌==◌ switch template_target service_tag_function service_untag_function
    service_tag_type_identifier_field service_tag_resource_type_field service_tag_type_key_field
    service_tag_type_value_field
acm-IsLawful = record {
  untag_named = λ value w h k given found same. left_of_match _ given (w k) found same;
  untag_kept = λ value w h k nothing. rw nothing;
  tag_lookup = λ value w u h k. refl;
}

abbrev before : Held
before k = map_option map_value (tag_at old_tags k)

acm_found : mem acm services ≡ true
unfolding mem switch ◌==◌ lt_text insert_string sort_strings sorted_where service_tag_function
    service_untag_function service_tag_function_batch_size service_untag_input_custom_value
    service_tag_input_custom_value service_tag_type_additional_bool_fields
acm_found = refl

acm_succeeds :
    (template_update_tags acm_client acm (codes "arn") [] old_source new_source before).0 ≡ ok tt
unfolding ◌==◌ switch template_update_tags template_untag template_tag template_target update_tags
    new insert removed updated equal copy_if lookup service_tag_function service_untag_function
    service_tag_function_batch_size service_tag_type_identifier_field
    service_tag_resource_type_field
acm_succeeds = refl

template_update_tags-Holds_example :
    held
      (template_update_tags acm_client acm (codes "arn") [] old_source new_source before).1
      (codes "b")
    ≡ map_option map_value (tag_at new_tags (codes "b"))
template_update_tags-Holds_example =
    template_update_tags-Holds acm_client acm (codes "arn") [] held acm-IsLawful acm_found
      old_source new_source old_tags new_tags before old_read new_read acm_succeeds
      (λ k plain. refl) (codes "b") (unfold has_prefix in refl)

update_functions_lem_example :
    update_functions acm_client
    ≡ printed
        (codes "UpdateTags")
        (template_update_tags acm_client)
        (sorted_where is_plain update_service_names)
update_functions_lem_example = update_functions_lem acm_client

-- acm writes the tags and reads them again.
abbrev written : List Struct
written = structs_of (codes "Key") (codes "Value") (entries (to_map old_tags))

acm_in_slice : mem acm (sorted_where is_plain slice_service_names) ≡ true
unfolding mem switch ◌==◌ lt_text insert_string sort_strings sorted_where
    service_tag_type_additional_bool_fields
acm_in_slice = refl

acm_writes : template_tags acm old_tags ≡ Argument.structs written
unfolding template_tags mem switch ◌==◌ service_tag_type_key_field service_tag_type_value_field
acm_writes = refl

template_key_value_tags-template_tags_example :
    tag_at (template_key_value_tags acm written) (codes "a")
    ≡ map_option
        (λ v. some (of_value (some v)))
        (map_option map_value (tag_at old_tags (codes "a")))
template_key_value_tags-template_tags_example =
    template_key_value_tags-template_tags acm acm_in_slice old_tags written acm_writes (codes "a")

-- A type is named by its package.
abbrev type_name : Text → Text
type_name service = codes "*" ++ service

elb_found : mem (codes "elb") (update_service_names ++ list_service_names) ≡ true
unfolding mem ◌==◌
elb_found = refl

generated_for-closed_example :
    (is_some (service_client_type type_name (codes "elb")) ≡ true)
    × (mem (codes "elb") map_service_names ≡ not (mem (codes "elb") slice_service_names))
    × ((not (given (service_untag_input_requires_tag_key_type (codes "elb")))
          || (mem (codes "elb") slice_service_names && given (service_tag_key_type (codes "elb"))))
        ≡ true)
generated_for-closed_example = generated_for-closed type_name (codes "elb") elb_found

read_functions_lem_example :
    ((map_list_functions {W = Held}
        ≡ printed
            (codes "ListTags")
            (template_list_tags tags_of_map)
            (sorted_where (λ service. is_plain service && has_map_tags service) list_service_names))
      × (struct_list_functions {W = Held}
          ≡ printed
              (codes "ListTags")
              (λ service. template_list_tags (template_key_value_tags service) service)
              (sorted_where
                (λ service. is_plain service && not (has_map_tags service))
                list_service_names)))
    × ((tag_functions
          ≡ printed
              (codes "Tags")
              template_tags
              (sort_strings map_service_names ++ sorted_where is_plain slice_service_names))
        × (tag_key_functions
            ≡ printed (codes "TagKeys") template_tag_keys (
                sorted_where (λ service. given (service_tag_key_type service)) slice_service_names))
        × (map_key_value_functions
            ≡ printed
                (codes "KeyValueTags")
                (λ service. tags_of_map)
                (sort_strings map_service_names))
        × (struct_key_value_functions
            ≡ printed
                (codes "KeyValueTags")
                template_key_value_tags
                (sorted_where is_plain slice_service_names)))
read_functions_lem_example = read_functions_lem {W = Held}
