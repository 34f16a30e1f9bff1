-- ===== src/KeyValueTags/Generators/RoundTrip.antt =====
-- The functions of service_tags_gen.go over structs, as the template of servicetags/main.go prints them for the
-- services but autoscaling: tags that are written for a service and read again.
use terraform_provider_awsut.Prelude.{
  ◌≡◌, refl, ap, Bool, true, false, ◌&&◌, not, some, List, Text, ◌==◌, lt_text, mem, arith,
}
use terraform_provider_awsut.KeyValueTags.Data.{KeyValueTags}
use terraform_provider_awsut.KeyValueTags.Access.{map_value}
use terraform_provider_awsut.KeyValueTags.New.{of_value}
use terraform_provider_awsut.KeyValueTags.Lookups.{tag_at, map_option}
use terraform_provider_awsut.KeyValueTags.Requests.{Struct, structs, structs_in}
use terraform_provider_awsut.KeyValueTags.Requests.RoundTrip.{tags_of_structs-structs_of}
use terraform_provider_awsut.KeyValueTags.Customizations.{switch}
use terraform_provider_awsut.KeyValueTags.Customizations.Types.{
  service_tag_type_key_field, service_tag_type_value_field, service_tag_type_additional_bool_fields,
}
use terraform_provider_awsut.KeyValueTags.Generators.Services.{
  slice_service_names, map_service_names, sorted_where,
}
use terraform_provider_awsut.Prelude.Sort.{insert_string, sort_strings}
use terraform_provider_awsut.KeyValueTags.Generators.Template.{
  is_plain, template_tags, template_key_value_tags,
}
use terraform_provider_awsut.KeyValueTags.Generators.Members.{every, every-mem}

-- The fields for the key and for the value of a service have two names.
unfoldable pub has_two_fields : Text → Bool
has_two_fields service =
    not (service_tag_type_key_field service == service_tag_type_value_field service)

has_struct_tags : Text → Bool
has_struct_tags service = has_two_fields service && not (mem service map_service_names)

struct_services : every has_struct_tags (sorted_where is_plain slice_service_names) ≡ true
unfolding every has_struct_tags has_two_fields switch ◌==◌ mem insert_string lt_text sort_strings
    sorted_where service_tag_type_additional_bool_fields service_tag_type_key_field
    service_tag_type_value_field
struct_services = refl

-- For each service with structs for tags but autoscaling, whose tags have more fields, reading the structs that
-- were written of some tags gives the same keys, with the same values.
pub template_key_value_tags-template_tags :
    (service : Text)
    → mem service (sorted_where is_plain slice_service_names) ≡ true
    → (tags : KeyValueTags) (written : List Struct) → template_tags service tags ≡ structs written
    → (k : Text)
    → tag_at (template_key_value_tags service written) k
      ≡ map_option (λ v. some (of_value (some v))) (map_option map_value (tag_at tags k))
unfolding template_key_value_tags template_tags has_struct_tags has_two_fields
template_key_value_tags-template_tags service found tags written h k =
    let checked =
      every-mem has_struct_tags (sorted_where is_plain slice_service_names) service struct_services
        found in
    let apart : (service_tag_type_key_field service == service_tag_type_value_field service)
        ≡ false =
      ground arith in
    let no_map : mem service map_service_names ≡ false = ground arith in
    let same = ap structs_in (rw no_map at h) in
    rw (← same) (
      tags_of_structs-structs_of (service_tag_type_key_field service)
        (service_tag_type_value_field service) apart tags k)
