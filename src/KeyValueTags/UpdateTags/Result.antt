-- ===== src/KeyValueTags/UpdateTags/Result.antt =====
-- The tags that a service holds after an update that returned no error.
use terraform_provider_awsut.Prelude.{
  ◌≡◌, refl, ◌∙◌, inl, inr, Bool, true, false, not, ◌&&◌, Option, none, some, List, Text, arith,
  if◌then◌else◌, is_some, ap, Bool-cases, mem,
}
use terraform_provider_awsut.Prelude.Go.{ok, Go, >>=-eq-ok}
use terraform_provider_awsut.Prelude.Map.{Entries, entries, lookup, has, NodupKeys}
use terraform_provider_awsut.KeyValueTags.Data.{TagData, KeyValueTags, equal}
use terraform_provider_awsut.KeyValueTags.Copy.{or_else, keep}
use terraform_provider_awsut.KeyValueTags.Filter.{ignore_aws, removed, differs, updated}
use terraform_provider_awsut.KeyValueTags.Access.{keys, map_value, to_map}
use terraform_provider_awsut.KeyValueTags.New.{Source, new}
use terraform_provider_awsut.KeyValueTags.New.Keys.{new-NodupKeys}
use terraform_provider_awsut.KeyValueTags.Lookups.{
  tag_at, map_option, lookup-ignore_aws, lookup-removed, lookup-updated, lookup-to_map,
  to_map-NodupKeys, mem-keys, map_value-eq_of_equal,
}
use terraform_provider_awsut.KeyValueTags.UpdateTags.{
  TagConn, iam_tags, untag_removed, tag_updated, update_between, accessanalyzer_update_tags,
  iam_update_tags, IamConn, iam_instance_profile_update_tags,
  iam_open_id_connect_provider_update_tags, iam_policy_update_tags, iam_saml_provider_update_tags,
  iam_server_certificate_update_tags,
}
use terraform_provider_awsut.KeyValueTags.UpdateTags.Sync.{
  is_aws, IsLawful, InSync, after-untag_removed, after-tag_updated, lookup-iam_tags,
  iam_tags-NodupKeys,
}

-- What an update stores under a key that the new tags hold, if it stores anything.
abbrev pub change_at : Option (Option TagData) → Option (Option TagData) → Option Text
change_at old new = map_option map_value (keep (differs old) new)

-- What the two requests make of a key that the service held like the old tags.
pub settle :
    (old new : Option (Option TagData))
    → or_else
        (change_at old new)
        (if is_some (if is_some new then none else old) then none else map_option map_value old)
      ≡ map_option map_value new
unfolding differs
settle none none = refl
settle none (some v) = refl
settle (some o) none = refl
settle (some o) (some v) = elim (Bool-cases (equal o v)) [
  | inl same ↦ rw same (ap some (map_value-eq_of_equal o v same))
  | inr other ↦ rw other
]

module _ {W : Type 0} (conn : TagConn W) (remote : W → Text → Text → Option Text)
    (lawful : IsLawful conn remote) (identifier : Text) (old_tags new_tags : KeyValueTags)
    (unique : NodupKeys (entries new_tags)) (tag_keys : KeyValueTags → List Text) (p : Text → Bool)
    (keys_spec : (t : KeyValueTags) (k : Text) → mem k (tag_keys t) ≡ (p k && has (entries t) k))
    (tags_of : KeyValueTags → Entries Text)
    (tags_spec : (t : KeyValueTags) (k : Text)
      → lookup k (tags_of t) ≡ map_option map_value (tag_at t k))
    (tags_unique : (t : KeyValueTags) → NodupKeys (tags_of t)) where
  abbrev run : Go W (Unit {0})
  run = update_between tag_keys tags_of conn identifier old_tags new_tags

  -- The value under each key.
  after-update_between :
      (w : W)
      → (run w).0 ≡ ok tt
      → (k : Text)
      → remote (run w).1 identifier k
        ≡ or_else (if is_aws k then none else change_at (tag_at old_tags k) (tag_at new_tags k)) (
            if p k && has (entries (removed old_tags new_tags)) k
            then none
            else remote w identifier k)
  unfolding update_between
  after-update_between w h k =
      let first = untag_removed tag_keys conn identifier old_tags new_tags in
      let second = tag_updated tags_of conn identifier old_tags new_tags in
      let (u, untagged, rest) = >>=-eq-ok first (λ _. second) w h in
      rw rest (
        after-tag_updated conn remote lawful identifier old_tags new_tags tags_of tags_spec
          tags_unique (first w).1 (rw rest at h) k
        ∙ ground (
          arith,
          lookup-ignore_aws (updated old_tags new_tags) k,
          lookup-updated old_tags new_tags k unique,
          after-untag_removed conn remote lawful identifier old_tags new_tags tag_keys p keys_spec w
              untagged k,
        ))

  -- Keys that neither set of tags holds are left alone.
  unmanaged :
      (w : W)
      → (run w).0 ≡ ok tt
      → (k : Text) → tag_at old_tags k ≡ none
      → tag_at new_tags k ≡ none
      → remote (run w).1 identifier k ≡ remote w identifier k
  unmanaged w h k no_old no_new =
      after-update_between w h k ∙ ground (arith, lookup-removed old_tags new_tags k)

  -- From the old tags to the new ones.
  in_sync :
      ((k : Text) → is_aws k ≡ false → p k ≡ true)
      → (w : W) → (run w).0 ≡ ok tt
      → InSync remote w identifier old_tags
      → InSync remote (run w).1 identifier new_tags
  in_sync named w h before k plain =
      after-update_between w h k
      ∙ rw (plain, named k plain, lookup-removed, before k plain)
          (settle (tag_at old_tags k) (tag_at new_tags k))

pub generated_keys :
    (t : KeyValueTags) (k : Text)
    → mem k (keys (entries (ignore_aws t))) ≡ (not (is_aws k) && has (entries t) k)
generated_keys t k = mem-keys k (entries (ignore_aws t)) ∙ ground (arith, lookup-ignore_aws t k)

not_aws : (k : Text) → is_aws k ≡ false → not (is_aws k) ≡ true
not_aws k h = ground arith

module _ {W : Type 0} (conn : TagConn W) (remote : W → Text → Text → Option Text)
    (lawful : IsLawful conn remote) (identifier : Text) (old_tags_map new_tags_map : Source)
    (old_tags new_tags : KeyValueTags) (w : W) (old_read : new old_tags_map ≡ some old_tags)
    (new_read : new new_tags_map ≡ some new_tags) where
  -- If the resource had the old tags, leaving `aws:` keys aside, and the function of a generated
  -- service returns no error, then each key that does not begin with `aws:` has the value of the
  -- new tag there, or no tag if the new tags lack it.
  pub accessanalyzer_update_tags-InSync :
      (accessanalyzer_update_tags conn identifier old_tags_map new_tags_map w).0 ≡ ok tt
      → InSync remote w identifier old_tags
      → (k : Text) → is_aws k ≡ false
      → remote
          (accessanalyzer_update_tags conn identifier old_tags_map new_tags_map w).1
          identifier
          k
        ≡ map_option map_value (tag_at new_tags k)
  unfolding accessanalyzer_update_tags
  accessanalyzer_update_tags-InSync h =
      rw (old_read, new_read)
        (in_sync conn remote lawful identifier old_tags new_tags
          (new-NodupKeys new_tags_map new_read) (λ t. keys (entries (ignore_aws t)))
          (λ k. not (is_aws k)) generated_keys (λ t. entries (to_map t)) lookup-to_map
          to_map-NodupKeys not_aws w (rw (old_read, new_read) at h))

  -- The body of the functions of iam_tags.go, over calls that tell keys apart by case.
  iam_update_tags-InSync :
      (iam_update_tags conn identifier old_tags_map new_tags_map w).0 ≡ ok tt
      → InSync remote w identifier old_tags
      → (k : Text) → is_aws k ≡ false
      → remote (iam_update_tags conn identifier old_tags_map new_tags_map w).1 identifier k
        ≡ map_option map_value (tag_at new_tags k)
  unfolding iam_update_tags
  iam_update_tags-InSync h =
      rw (old_read, new_read)
        (in_sync conn remote lawful identifier old_tags new_tags
          (new-NodupKeys new_tags_map new_read) (λ t. keys (entries t)) (λ k. true)
          (λ t k. mem-keys k (entries t)) iam_tags lookup-iam_tags iam_tags-NodupKeys (λ k _. refl)
          w (rw (old_read, new_read) at h))

  -- An update that returns no error leaves a key alone that neither set of tags holds, whatever
  -- the service holds under it.
  pub accessanalyzer_update_tags-unmanaged :
      (accessanalyzer_update_tags conn identifier old_tags_map new_tags_map w).0 ≡ ok tt
      → (k : Text) → tag_at old_tags k ≡ none
      → tag_at new_tags k ≡ none
      → remote
          (accessanalyzer_update_tags conn identifier old_tags_map new_tags_map w).1
          identifier
          k
        ≡ remote w identifier k
  unfolding accessanalyzer_update_tags
  accessanalyzer_update_tags-unmanaged h =
      rw (old_read, new_read)
        (unmanaged conn remote lawful identifier old_tags new_tags
          (new-NodupKeys new_tags_map new_read) (λ t. keys (entries (ignore_aws t)))
          (λ k. not (is_aws k)) generated_keys (λ t. entries (to_map t)) lookup-to_map
          to_map-NodupKeys w (rw (old_read, new_read) at h))

-- The kinds of IAM resource whose tag keys are told apart by case. IAM compares the tag keys of users and
-- roles without case.
pub data CaseSensitive : Type 0 where
  instance_profile : CaseSensitive
  open_id_connect_provider : CaseSensitive
  policy : CaseSensitive
  saml_provider : CaseSensitive
  server_certificate : CaseSensitive

module _ {W : Type 0} (conn : IamConn W) where
  abbrev pub calls_of : CaseSensitive → TagConn W
  calls_of instance_profile = conn.instance_profile
  calls_of open_id_connect_provider = conn.open_id_connect_provider
  calls_of policy = conn.policy
  calls_of saml_provider = conn.saml_provider
  calls_of server_certificate = conn.server_certificate

  abbrev pub update_of : CaseSensitive → Text → Source → Source → Go W (Unit {0})
  update_of instance_profile = iam_instance_profile_update_tags conn
  update_of open_id_connect_provider = iam_open_id_connect_provider_update_tags conn
  update_of policy = iam_policy_update_tags conn
  update_of saml_provider = iam_saml_provider_update_tags conn
  update_of server_certificate = iam_server_certificate_update_tags conn

  update_of-iam_update_tags :
      (kind : CaseSensitive) → update_of kind ≡ iam_update_tags (calls_of kind)
  unfolding iam_instance_profile_update_tags iam_open_id_connect_provider_update_tags
      iam_policy_update_tags iam_saml_provider_update_tags iam_server_certificate_update_tags
  update_of-iam_update_tags instance_profile = refl
  update_of-iam_update_tags open_id_connect_provider = refl
  update_of-iam_update_tags policy = refl
  update_of-iam_update_tags saml_provider = refl
  update_of-iam_update_tags server_certificate = refl

-- If an instance profile, an OpenID Connect provider, a policy, a SAML provider or a server certificate had
-- the old tags, leaving `aws:` keys aside, and its function returns no error, then each key that does not
-- begin with `aws:` has the value of the new tag there, or no tag if the new tags lack it. Users and roles,
-- whose tag keys IAM compares without case, are left out.
pub update_of-InSync :
    {W : Type 0} (conn : IamConn W) (kind : CaseSensitive) (remote : W → Text → Text → Option Text)
    → IsLawful (calls_of conn kind) remote
    → (identifier : Text) (old_tags_map new_tags_map : Source) (old_tags new_tags : KeyValueTags)
      (w : W)
    → new old_tags_map ≡ some old_tags
    → new new_tags_map ≡ some new_tags
    → (update_of conn kind identifier old_tags_map new_tags_map w).0 ≡ ok tt
    → InSync remote w identifier old_tags
    → (k : Text) → is_aws k ≡ false
    → remote (update_of conn kind identifier old_tags_map new_tags_map w).1 identifier k
      ≡ map_option map_value (tag_at new_tags k)
update_of-InSync conn kind remote lawful identifier old_tags_map new_tags_map old_tags new_tags w
      old_read new_read h before =
    rw (update_of-iam_update_tags conn kind) (
      iam_update_tags-InSync (calls_of conn kind) remote lawful identifier old_tags_map new_tags_map
        old_tags new_tags w old_read new_read (rw (update_of-iam_update_tags conn kind) at h)
        before)
