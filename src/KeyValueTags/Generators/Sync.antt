-- ===== src/KeyValueTags/Generators/Sync.antt =====
-- A service with one request to untag and one to tag, as the template of updatetags/main.go prints its function:
-- what the service holds after each of them.
use terraform_provider_awsut.Prelude.{
  ◌≡◌, refl, inl, inr, Bool, true, false, ◌&&◌, not, Option, none, List, Text, ◌==◌, lt_text, mem,
  is_empty, arith, if◌then◌else◌, Bool-cases,
}
use terraform_provider_awsut.Prelude.Error.{Error}
use terraform_provider_awsut.Prelude.Go.{ok, Call, when, check}
use terraform_provider_awsut.Prelude.Map.{entries, lookup}
use terraform_provider_awsut.KeyValueTags.Data.{KeyValueTags}
use terraform_provider_awsut.KeyValueTags.Copy.{or_else}
use terraform_provider_awsut.KeyValueTags.Filter.{ignore_aws}
use terraform_provider_awsut.KeyValueTags.Access.{map_value}
use terraform_provider_awsut.KeyValueTags.Lookups.{tag_at, map_option, lookup-ignore_aws}
use terraform_provider_awsut.KeyValueTags.UpdateTags.Sync.{is_empty-eq, none_of_ok}
use terraform_provider_awsut.KeyValueTags.Requests.{plain_keys}
use terraform_provider_awsut.KeyValueTags.Requests.Named.{
  named_pairs, named_tags, names_key, Names, AsksFor, plain_keys-AsksFor, slice_tags-AsksFor,
  slice_tag_keys-AsksFor, map_tags-AsksFor, slice_tags-Names, map_tags-Names,
}
use terraform_provider_awsut.KeyValueTags.Customizations.{switch}
use terraform_provider_awsut.KeyValueTags.Customizations.Types.{
  service_tag_type_key_field, service_tag_type_value_field, service_tag_type_additional_bool_fields,
}
use terraform_provider_awsut.KeyValueTags.Customizations.Tagging.{
  service_tag_function, service_tag_function_batch_size, service_tag_input_custom_value,
}
use terraform_provider_awsut.KeyValueTags.Customizations.Untagging.{
  service_untag_function, service_untag_input_requires_tag_type,
  service_untag_input_requires_tag_key_type, service_untag_input_custom_value,
}
use terraform_provider_awsut.KeyValueTags.Generators.Names.{update_service_names}
use terraform_provider_awsut.KeyValueTags.Generators.Services.{map_service_names, sorted_where}
use terraform_provider_awsut.Prelude.Sort.{insert_string, sort_strings}
use terraform_provider_awsut.KeyValueTags.Generators.Template.{
  is_plain, template_tags, template_tag_keys, template_untag_value, template_tag_value,
}
use terraform_provider_awsut.KeyValueTags.Generators.Members.{every, every-mem}
use terraform_provider_awsut.KeyValueTags.Generators.RoundTrip.{has_two_fields}

-- The services that the template gives one request to untag and one to tag, without custom values.
abbrev pub has_two_requests : Text → Bool
has_two_requests service =
    is_plain service
    && not (service_tag_function service == service_untag_function service)
    && is_empty (service_tag_function_batch_size service)
    && is_empty (service_untag_input_custom_value service)
    && is_empty (service_tag_input_custom_value service)

abbrev pub services : List Text
services = sorted_where has_two_requests update_service_names

services_lem : every (λ service. has_two_requests service && has_two_fields service) services ≡ true
unfolding every has_two_fields switch ◌==◌ insert_string lt_text sort_strings sorted_where
    service_tag_function service_untag_function service_tag_function_batch_size
    service_untag_input_custom_value service_tag_input_custom_value service_tag_type_key_field
    service_tag_type_value_field service_tag_type_additional_bool_fields
services_lem = refl

pub service-checks :
    (service : Text)
    → mem service services ≡ true
    → (has_two_requests service && has_two_fields service) ≡ true
service-checks service found =
    every-mem (λ s. has_two_requests s && has_two_fields s) services service services_lem found

-- What a request to untag names is what it is made of, without `aws:` keys.
pub template_untag_value-AsksFor :
    (service : Text)
    → is_empty (service_untag_input_custom_value service) ≡ true
    → (service_tag_type_key_field service == service_tag_type_value_field service) ≡ false
    → (tags : KeyValueTags) (k : Text)
    → AsksFor tags k (
        lookup k (
          named_pairs
            (service_tag_type_key_field service)
            (service_tag_type_value_field service)
            (template_untag_value service plain_keys tags)))
unfolding template_untag_value template_tags template_tag_keys
template_untag_value-AsksFor service no_custom apart tags k =
    let key_field = service_tag_type_key_field service in
    let value_field = service_tag_type_value_field service in
    rw no_custom (elim (Bool-cases (is_empty (service_untag_input_requires_tag_type service))) [
      | inl no_type ↦
          rw no_type
            (elim (Bool-cases (is_empty (service_untag_input_requires_tag_key_type service))) [
              | inl no_key_type ↦ rw no_key_type (plain_keys-AsksFor key_field value_field tags k)
              | inr key_type ↦
                  rw key_type (slice_tag_keys-AsksFor key_field value_field tags k apart)
            ])
      | inr type ↦ rw type (elim (Bool-cases (mem service map_service_names)) [
        | inl in_map ↦ rw in_map (map_tags-AsksFor key_field value_field tags k)
        | inr in_slice ↦ rw in_slice (slice_tags-AsksFor key_field value_field tags k apart)
      ])
    ])

-- The tags of a request to tag are these tags, without `aws:` keys.
pub template_tag_value-Names :
    (service : Text)
    → is_empty (service_tag_input_custom_value service) ≡ true
    → (service_tag_type_key_field service == service_tag_type_value_field service) ≡ false
    → (tags : KeyValueTags)
    → Names
        (named_tags
          (service_tag_type_key_field service)
          (service_tag_type_value_field service)
          (template_tag_value service tags))
        (ignore_aws tags)
unfolding template_tag_value template_tags
template_tag_value-Names service no_custom apart tags =
    rw no_custom (elim (Bool-cases (mem service map_service_names)) [
      | inl in_map ↦ rw in_map (
          map_tags-Names (service_tag_type_key_field service) (service_tag_type_value_field service)
            (ignore_aws tags))
      | inr in_slice ↦ rw in_slice (
          slice_tags-Names (service_tag_type_key_field service)
            (service_tag_type_value_field service) apart (ignore_aws tags))
    ])

module _ {W : Type 0} (remote : W → Text → Option Text) (describe : Error → Error) (call : Call W)
    (tags : KeyValueTags) (w : W)
    (answered : (when (not (is_empty (entries tags))) (check describe call) w).0 ≡ ok tt)
    (k : Text) where
  -- A request to untag, which is sent if there are tags.
  pub after_untag :
      ((call w).0 ≡ none → remote (call w).1 k ≡ (if names_key tags k then none else remote w k))
      → remote (when (not (is_empty (entries tags))) (check describe call) w).1 k
        ≡ (if names_key tags k then none else remote w k)
  after_untag law = elim (Bool-cases (is_empty (entries tags))) [
    | inl nothing ↦ rw (nothing, is_empty-eq _ nothing) (unfold lookup in ground arith)
    | inr some_keys ↦ rw some_keys (law (none_of_ok _ _ (rw some_keys at answered)))
  ]

  -- A request to tag, which is sent if there are tags.
  pub after_tag :
      ((call w).0 ≡ none
        → remote (call w).1 k
          ≡ or_else (map_option map_value (tag_at (ignore_aws tags) k)) (remote w k))
      → remote (when (not (is_empty (entries tags))) (check describe call) w).1 k
        ≡ or_else (map_option map_value (tag_at (ignore_aws tags) k)) (remote w k)
  after_tag law = elim (Bool-cases (is_empty (entries tags))) [
    | inl nothing ↦
        rw (nothing, lookup-ignore_aws, is_empty-eq _ nothing) (unfold lookup in ground arith)
    | inr some_tags ↦ rw some_tags (law (none_of_ok _ _ (rw some_tags at answered)))
  ]
