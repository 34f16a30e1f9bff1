-- ===== src/KeyValueTags/Generators/Closed.antt =====
-- What the generated functions need exists: the types of the clients and the functions of service_tags_gen.go.
use terraform_provider_awsut.Prelude.{
  ◌≡◌, refl, Bool, true, ◌&&◌, ◌||◌, not, List, ◌++◌, Text, ◌==◌, mem, mem-append, is_some, arith,
}
use terraform_provider_awsut.KeyValueTags.Customizations.{switch}
use terraform_provider_awsut.KeyValueTags.Customizations.Clients.{service_client_type}
use terraform_provider_awsut.KeyValueTags.Customizations.Types.{service_tag_key_type}
use terraform_provider_awsut.KeyValueTags.Customizations.Untagging.{
  service_untag_input_requires_tag_key_type,
}
use terraform_provider_awsut.KeyValueTags.Generators.Names.{
  update_service_names, list_service_names,
}
use terraform_provider_awsut.KeyValueTags.Generators.Services.{
  slice_service_names, map_service_names,
}
use terraform_provider_awsut.KeyValueTags.Generators.Template.{given}
use terraform_provider_awsut.KeyValueTags.Generators.Members.{every, every-mem}

abbrev pub tagged_service_names : List Text
tagged_service_names = map_service_names ++ slice_service_names

abbrev pub generated_for : List Text
generated_for = update_service_names ++ list_service_names

service_client_type-returns :
    (type_of_new : Text → Text) (service : Text)
    → mem service generated_for ≡ true
    → is_some (service_client_type type_of_new service) ≡ true
unfolding every service_client_type switch ◌==◌
service_client_type-returns type_of_new service found =
    every-mem (λ s. is_some (service_client_type type_of_new s)) generated_for service refl found

abbrev is_closed : Text → Bool
is_closed service =
    mem service tagged_service_names
    && (not (given (service_untag_input_requires_tag_key_type service))
        || (mem service slice_service_names && given (service_tag_key_type service)))

closed_services : every is_closed generated_for ≡ true
unfolding every mem switch ◌==◌ service_untag_input_requires_tag_key_type service_tag_key_type
closed_services = refl

one_half :
    every (λ s. not (mem s map_service_names && mem s slice_service_names)) generated_for ≡ true
unfolding every mem ◌==◌
one_half = refl

-- For each service whose tags the provider updates or lists: `ServiceClientType` does not panic, exactly one of
-- the two halves of service_tags_gen.go converts its tags, and if the function that updates its tags calls its
-- `TagKeys`, then that function is generated.
pub generated_for-closed :
    (type_of_new : Text → Text) (service : Text)
    → mem service generated_for ≡ true
    → (is_some (service_client_type type_of_new service) ≡ true)
      × (mem service map_service_names ≡ not (mem service slice_service_names))
      × ((not (given (service_untag_input_requires_tag_key_type service))
            || (mem service slice_service_names && given (service_tag_key_type service)))
          ≡ true)
generated_for-closed type_of_new service found =
    let closed = every-mem is_closed generated_for service closed_services found in
    let one =
      every-mem (λ s. not (mem s map_service_names && mem s slice_service_names)) generated_for
        service one_half found in
    (
      service_client_type-returns type_of_new service found,
      ground (arith, mem-append service map_service_names slice_service_names),
      ground arith,
    )
