-- ===== src/KeyValueTags/Generators/SyncResult.antt =====
-- The functions of update_tags_gen.go that send one request to untag and one to tag, as the template of
-- updatetags/main.go prints them, bring a service to the new tags.
use terraform_provider_awsut.Prelude.{
  ◌≡◌, ◌∙◌, inl, inr, Bool-cases, Option-cases, true, false, not, Option, none, some, [], ◌∷◌, ◌++◌,
  Text, ◌==◌, mem, is_empty, arith, if◌then◌else◌,
}
use terraform_provider_awsut.Prelude.Go.{ok, Go, when, check, >>=-eq-ok}
use terraform_provider_awsut.Prelude.Map.{entries, lookup, NodupKeys}
use terraform_provider_awsut.KeyValueTags.Data.{KeyValueTags}
use terraform_provider_awsut.KeyValueTags.Copy.{or_else}
use terraform_provider_awsut.KeyValueTags.Filter.{ignore_aws, removed, updated}
use terraform_provider_awsut.KeyValueTags.Access.{map_value}
use terraform_provider_awsut.KeyValueTags.New.{Source, new}
use terraform_provider_awsut.KeyValueTags.New.Keys.{new-NodupKeys}
use terraform_provider_awsut.KeyValueTags.Lookups.{
  tag_at, map_option, lookup-ignore_aws, lookup-removed, lookup-updated,
}
use terraform_provider_awsut.KeyValueTags.UpdateTags.{error_untagging, error_tagging}
use terraform_provider_awsut.KeyValueTags.UpdateTags.Sync.{is_aws}
use terraform_provider_awsut.KeyValueTags.UpdateTags.Result.{settle, change_at}
use terraform_provider_awsut.KeyValueTags.Requests.{Argument, Request, Client, plain_keys}
use terraform_provider_awsut.KeyValueTags.Requests.Named.{
  named_pairs, named_tags, names_key, AsksFor,
}
use terraform_provider_awsut.KeyValueTags.Customizations.Types.{
  service_tag_package, service_tag_type_key_field, service_tag_type_value_field,
}
use terraform_provider_awsut.KeyValueTags.Customizations.Tagging.{
  service_tag_function, service_tag_input_tags_field, service_tag_function_batch_size,
}
use terraform_provider_awsut.KeyValueTags.Customizations.Untagging.{
  service_untag_function, service_untag_input_tags_field,
}
use terraform_provider_awsut.KeyValueTags.Generated.Shapes.{
  update_between_tags, update_tags, request_of,
}
use terraform_provider_awsut.KeyValueTags.Generators.Template.{
  template_target, template_untag, template_tag, template_untag_value, template_tag_value,
  template_update_tags,
}
use terraform_provider_awsut.KeyValueTags.Generators.RoundTrip.{has_two_fields}
use terraform_provider_awsut.KeyValueTags.Generators.Sync.{
  services, service-checks, template_untag_value-AsksFor, template_tag_value-Names, after_untag,
  after_tag,
}

-- The requests for a resource that untag and that tag, with any value in the field for the tags.
abbrev pub untag_request : Text → Text → Text → Argument → Request
untag_request service identifier resource_type value = record {
  package_name = service_tag_package service;
  operation = service_untag_function service;
  fields =
      template_target service identifier resource_type
      ++ (service_untag_input_tags_field service, value) ∷ [];
}

abbrev pub tag_request : Text → Text → Text → Argument → Request
tag_request service identifier resource_type value = record {
  package_name = service_tag_package service;
  operation = service_tag_function service;
  fields =
      template_target service identifier resource_type
      ++ (service_tag_input_tags_field service, value) ∷ [];
}

-- A request to untag that names a key with a value speaks of a tag with that value; one that names the key
-- alone, of a tag with any value.
abbrev pub IsMatch : Option Text → Option Text → Type 0
IsMatch none held = Unit
IsMatch (some value) held = held ≡ some value

-- The documented behaviour of a service over the tags that the resource holds: `remote w k`. A request to untag that
-- returns no error removes the keys that it names, with a value only if that is the value that the resource
-- holds, and does nothing to keys that it does not name; what it does to a key with another value is left open. A
-- request to tag that returns no error stores the tags that it names and does nothing to other keys. Nothing
-- is assumed of a request that fails.
pub record IsLawful {W : Type 0} (client : Client W) (service identifier resource_type : Text)
    (remote : W → Text → Option Text) : Type 0 where
  pub untag_named :
      (value : Argument) (w : W)
      → (client (untag_request service identifier resource_type value) w).0 ≡ none
      → (k : Text) (given : Option Text)
      → lookup k (
          named_pairs
            (service_tag_type_key_field service)
            (service_tag_type_value_field service)
            value)
        ≡ some given
      → IsMatch given (remote w k)
      → remote (client (untag_request service identifier resource_type value) w).1 k ≡ none
  pub untag_kept :
      (value : Argument) (w : W)
      → (client (untag_request service identifier resource_type value) w).0 ≡ none
      → (k : Text)
      → lookup k (
          named_pairs
            (service_tag_type_key_field service)
            (service_tag_type_value_field service)
            value)
        ≡ none
      → remote (client (untag_request service identifier resource_type value) w).1 k ≡ remote w k
  pub tag_lookup :
      (value : Argument) (w : W)
      → NodupKeys (
          named_tags
            (service_tag_type_key_field service)
            (service_tag_type_value_field service)
            value)
      → (client (tag_request service identifier resource_type value) w).0 ≡ none
      → (k : Text)
      → remote (client (tag_request service identifier resource_type value) w).1 k
        ≡ or_else
            (lookup k (
              named_tags
                (service_tag_type_key_field service)
                (service_tag_type_value_field service)
                value))
            (remote w k)

-- The non-`aws:` tags of the resource are these tags.
abbrev pub Holds : (Text → Option Text) → KeyValueTags → Type 0
Holds held tags = (k : Text) → is_aws k ≡ false → held k ≡ map_option map_value (tag_at tags k)

-- What a request to untag some tags leaves under a key, if the resource holds those tags.
untagged :
    (tags : KeyValueTags) (k : Text) (asked : Option (Option Text)) (held left : Option Text)
    → AsksFor tags k asked
    → (names_key tags k ≡ true → held ≡ map_option map_value (tag_at tags k))
    → ((given : Option Text) → asked ≡ some given → IsMatch given held → left ≡ none)
    → (asked ≡ none → left ≡ held)
    → left ≡ (if names_key tags k then none else held)
untagged tags k asked held left (inl alone) same named kept = elim (Bool-cases (names_key tags k)) [
  | inl is_named ↦ rw is_named (named none (rw is_named at alone) tt)
  | inr unnamed ↦ rw unnamed (kept (rw unnamed at alone))
]
untagged tags k asked held left (inr with_value) same named kept =
    elim (Option-cases (tag_at (ignore_aws tags) k)) [
      | inl absent ↦
          let unnamed : names_key tags k ≡ false = ground (arith, lookup-ignore_aws tags k) in
          rw unnamed (kept (rw absent at with_value))
      | inr (v, present) ↦
          let is_named : names_key tags k ≡ true = ground (arith, lookup-ignore_aws tags k) in
          let there : tag_at tags k ≡ some v = ground (arith, lookup-ignore_aws tags k) in
          rw is_named
            (named (some (map_value v)) (rw present at with_value) (rw there at (same is_named)))
    ]

module _ {W : Type 0} (client : Client W) (service identifier resource_type : Text)
    (remote : W → Text → Option Text)
    (lawful : IsLawful client service identifier resource_type remote)
    (found : mem service services ≡ true) where
  abbrev between : KeyValueTags → KeyValueTags → Go W (Unit {0})
  between =
      update_between_tags client (service_tag_package service) identifier
        (template_untag service identifier resource_type)
        (template_tag service identifier resource_type)

  untag_law :
      (tags : KeyValueTags) (w : W) (k : Text)
      → (names_key tags k ≡ true → remote w k ≡ map_option map_value (tag_at tags k))
      → (client
          (request_of
            (service_tag_package service)
            (template_untag service identifier resource_type)
            tags)
          w).0
        ≡ none
      → remote
          (client
            (request_of
              (service_tag_package service)
              (template_untag service identifier resource_type)
              tags)
            w).1
          k
        ≡ (if names_key tags k then none else remote w k)
  unfolding template_untag has_two_fields
  untag_law tags w k same h =
      let checked = service-checks service found in
      let value = template_untag_value service plain_keys tags in
      untagged tags k _ (remote w k) _
        (template_untag_value-AsksFor service (ground arith) (ground arith) tags k) same
        (lawful.untag_named value w h k) (lawful.untag_kept value w h k)

  tag_law :
      (tags : KeyValueTags) (w : W) (k : Text)
      → (client
          (request_of
            (service_tag_package service)
            (template_tag service identifier resource_type)
            tags)
          w).0
        ≡ none
      → remote
          (client
            (request_of
              (service_tag_package service)
              (template_tag service identifier resource_type)
              tags)
            w).1
          k
        ≡ or_else (map_option map_value (tag_at (ignore_aws tags) k)) (remote w k)
  unfolding template_tag has_two_fields
  tag_law tags w k h =
      let checked = service-checks service found in
      let (values, unique) = template_tag_value-Names service (ground arith) (ground arith) tags in
      lawful.tag_lookup (template_tag_value service tags) w unique h k ∙ rw (values k)

  -- The value under each key after both requests.
  after_between :
      (old_tags new_tags : KeyValueTags) (unique : NodupKeys (entries new_tags)) (w : W)
      → (between old_tags new_tags w).0 ≡ ok tt
      → (k : Text)
      → (names_key (removed old_tags new_tags) k ≡ true
          → remote w k ≡ map_option map_value (tag_at (removed old_tags new_tags) k))
      → remote (between old_tags new_tags w).1 k
        ≡ or_else
            (if is_aws k then none else change_at (tag_at old_tags k) (tag_at new_tags k))
            (if names_key (removed old_tags new_tags) k then none else remote w k)
  unfolding update_between_tags
  after_between old_tags new_tags unique w h k same =
      let first = when (not (is_empty (entries (removed old_tags new_tags)))) (
        check (error_untagging identifier) (
          client (
            request_of (service_tag_package service)
              (template_untag service identifier resource_type) (removed old_tags new_tags)))) in
      let second = when (not (is_empty (entries (updated old_tags new_tags)))) (
        check (error_tagging identifier) (
          client (
            request_of (service_tag_package service) (template_tag service identifier resource_type)
              (updated old_tags new_tags)))) in
      let (u, untagged, rest) = >>=-eq-ok first (λ _. second) w h in
      rw rest (
        after_tag remote (error_tagging identifier) _ (updated old_tags new_tags) (first w).1
          (rw rest at h) k (tag_law (updated old_tags new_tags) (first w).1 k)
        ∙ ground (
          arith,
          lookup-ignore_aws (updated old_tags new_tags) k,
          lookup-updated old_tags new_tags k unique,
          after_untag remote (error_untagging identifier) _ (removed old_tags new_tags) w untagged k
              (untag_law (removed old_tags new_tags) w k same),
        ))

  after-Holds :
      (old_tags new_tags : KeyValueTags) (unique : NodupKeys (entries new_tags)) (w : W)
      → (between old_tags new_tags w).0 ≡ ok tt
      → Holds (remote w) old_tags
      → Holds (remote (between old_tags new_tags w).1) new_tags
  after-Holds old_tags new_tags unique w h before k plain =
      after_between old_tags new_tags unique w h k
        (λ named. before k plain ∙ ground (arith, lookup-removed old_tags new_tags k))
      ∙ rw (plain, lookup-removed, before k plain) (settle (tag_at old_tags k) (tag_at new_tags k))

-- Take a service that has one request to untag and one to tag, without a custom value, and does to tags what
-- is documented, where a request to untag that names a key with a value speaks of a tag with that value only. If
-- it held the old tags of a resource, leaving `aws:` keys aside, and its function of update_tags_gen.go, as the
-- template prints it, returns no error, then it holds the new tags, leaving `aws:` keys aside.
pub template_update_tags-Holds :
    {W : Type 0} (client : Client W) (service identifier resource_type : Text)
    (remote : W → Text → Option Text)
    → IsLawful client service identifier resource_type remote
    → mem service services ≡ true
    → (old_tags_map new_tags_map : Source) (old_tags new_tags : KeyValueTags) (w : W)
    → new old_tags_map ≡ some old_tags
    → new new_tags_map ≡ some new_tags
    → (template_update_tags client service identifier resource_type old_tags_map new_tags_map w).0
      ≡ ok tt
    → Holds (remote w) old_tags
    → Holds
        (remote
          (template_update_tags client service identifier resource_type old_tags_map new_tags_map
            w).1)
        new_tags
unfolding template_update_tags update_tags has_two_fields
template_update_tags-Holds client service identifier resource_type remote lawful found old_tags_map
      new_tags_map old_tags new_tags w old_read new_read h before =
    let checked = service-checks service found in
    let apart : (service_tag_function service == service_untag_function service) ≡ false =
      ground arith in
    let no_batches : is_empty (service_tag_function_batch_size service) ≡ true = ground arith in
    rw (apart, no_batches, old_read, new_read)
      (after-Holds client service identifier resource_type remote lawful found old_tags new_tags
        (new-NodupKeys new_tags_map new_read) w (rw (apart, no_batches, old_read, new_read) at h)
        before)
