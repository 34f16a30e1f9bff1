-- ===== src/KeyValueTags/UpdateTags/Sync.antt =====
-- Functions that update tags bring the service to the new tags, whatever the service held under
-- other keys.
use terraform_provider_awsut.Prelude.{
  ◌≡◌, refl, ◌∙◌, inl, inr, Bool, true, false, ◌&&◌, Option, none, some, List, [], ◌∷◌, ◌++◌, Text,
  ◌==◌, eq_iff, has_prefix, arith, if◌then◌else◌, Bool-cases, mem, is_empty,
}
use terraform_provider_awsut.Prelude.Error.{Error}
use terraform_provider_awsut.Prelude.Go.{ok, outcome_of}
use terraform_provider_awsut.Prelude.Map.{Entries, entries, lookup, has, NodupKeys}
use terraform_provider_awsut.KeyValueTags.Data.{KeyValueTags, aws_tag_key_prefix}
use terraform_provider_awsut.KeyValueTags.Copy.{or_else}
use terraform_provider_awsut.KeyValueTags.Filter.{ignore_aws, removed, updated}
use terraform_provider_awsut.KeyValueTags.Access.{map_value, to_map}
use terraform_provider_awsut.KeyValueTags.Lookups.{
  tag_at, map_option, lookup-ignore_aws, lookup-to_map, to_map-NodupKeys,
}
use terraform_provider_awsut.KeyValueTags.UpdateTags.{
  TagConn, tag_list, iam_tags, untag_removed, tag_updated,
}

abbrev pub is_aws : Text → Bool
is_aws k = has_prefix k aws_tag_key_prefix

-- The documented behaviour of a service, over the tags that it holds: `remote w identifier k`. A
-- call that returns no error removes the named keys, or stores the given tags, and does nothing
-- to other keys. Nothing is assumed of a call that fails.
pub record IsLawful {W : Type 0} (conn : TagConn W) (remote : W → Text → Text → Option Text)
    : Type 0 where
  pub untag_lookup :
      (identifier : Text) (tag_keys : List Text) (w : W)
      → (conn.untag_resource identifier tag_keys w).0 ≡ none
      → (k : Text)
      → remote (conn.untag_resource identifier tag_keys w).1 identifier k
        ≡ (if mem k tag_keys then none else remote w identifier k)
  pub tag_lookup :
      (identifier : Text) (tags : Entries Text) (w : W)
      → NodupKeys tags
      → (conn.tag_resource identifier tags w).0 ≡ none
      → (k : Text)
      → remote (conn.tag_resource identifier tags w).1 identifier k
        ≡ or_else (lookup k tags) (remote w identifier k)

pub is_empty-eq {ℓ} : {A : Type ℓ} (l : List A) → is_empty l ≡ true → l ≡ []
is_empty-eq [] h = refl
is_empty-eq (x ∷ l) h = cc

pub none_of_ok : (f : Error → Error) (o : Option Error) → outcome_of f o ≡ ok tt → o ≡ none
none_of_ok f none h = refl
none_of_ok f (some e) h = cc

lookup-tag_list-append :
    (k j : Text) (v : Text) (m : Entries Text)
    → lookup j (m ++ (k, v) ∷ []) ≡ or_else (lookup j m) (if k == j then some v else none)
unfolding lookup
lookup-tag_list-append k j v [] = refl
lookup-tag_list-append k j v ((i, w) ∷ m) = ground (arith, lookup-tag_list-append k j v m)

pub lookup-tag_list :
    (j : Text) (m : Entries Text) → NodupKeys m → lookup j (tag_list m) ≡ lookup j m
unfolding tag_list lookup
lookup-tag_list j [] u = refl
lookup-tag_list j ((k, v) ∷ m) (fresh, u) =
    ground (arith, lookup-tag_list-append k j v (tag_list m), lookup-tag_list j m u, eq_iff k j)

append-NodupKeys :
    (k v : Text) (m : Entries Text) → NodupKeys m → lookup k m ≡ none → NodupKeys (m ++ (k, v) ∷ [])
unfolding lookup
append-NodupKeys k v [] u h = (refl, tt)
append-NodupKeys k v ((i, w) ∷ m) (fresh, u) h =
    ground (arith, append-NodupKeys k v m u, lookup-tag_list-append k i v m, eq_iff i k, eq_iff k i)

pub tag_list-NodupKeys : (m : Entries Text) → NodupKeys m → NodupKeys (tag_list m)
unfolding tag_list
tag_list-NodupKeys [] u = tt
tag_list-NodupKeys ((k, v) ∷ m) (fresh, u) =
    append-NodupKeys k v (tag_list m) (tag_list-NodupKeys m u) (lookup-tag_list k m u ∙ fresh)

pub lookup-iam_tags :
    (tags : KeyValueTags) (k : Text)
    → lookup k (iam_tags tags) ≡ map_option map_value (tag_at tags k)
unfolding iam_tags
lookup-iam_tags tags k =
    lookup-tag_list k (entries (to_map tags)) (to_map-NodupKeys tags) ∙ lookup-to_map tags k

pub iam_tags-NodupKeys : (tags : KeyValueTags) → NodupKeys (iam_tags tags)
unfolding iam_tags
iam_tags-NodupKeys tags = tag_list-NodupKeys (entries (to_map tags)) (to_map-NodupKeys tags)

-- The non-`aws:` tags of a resource are these tags.
abbrev pub InSync :
    {W : Type 0} → (W → Text → Text → Option Text) → W → Text → KeyValueTags → Type 0
InSync remote w identifier tags =
    (k : Text) → is_aws k ≡ false → remote w identifier k ≡ map_option map_value (tag_at tags k)

module _ {W : Type 0} (conn : TagConn W) (remote : W → Text → Text → Option Text)
    (lawful : IsLawful conn remote) (identifier : Text) (old_tags new_tags : KeyValueTags) where
  -- The keys of the first request are those of the removed tags that pass a test.
  pub after-untag_removed :
      (tag_keys : KeyValueTags → List Text) (p : Text → Bool)
      → ((t : KeyValueTags) (k : Text) → mem k (tag_keys t) ≡ (p k && has (entries t) k))
      → (w : W) → (untag_removed tag_keys conn identifier old_tags new_tags w).0 ≡ ok tt
      → (k : Text)
      → remote (untag_removed tag_keys conn identifier old_tags new_tags w).1 identifier k ≡ (
          if p k && has (entries (removed old_tags new_tags)) k
          then none
          else remote w identifier k)
  unfolding untag_removed
  after-untag_removed tag_keys p spec w h k =
      elim (Bool-cases (is_empty (entries (removed old_tags new_tags)))) [
        | inl nothing ↦ rw (nothing, is_empty-eq _ nothing) (unfold lookup in ground arith)
        | inr some_keys ↦ rw some_keys (
            lawful.untag_lookup identifier (tag_keys (removed old_tags new_tags)) w
              (none_of_ok _ _ (rw some_keys at h)) k
            ∙ ground (arith, spec (removed old_tags new_tags) k))
      ]

  pub after-tag_updated :
      (tags_of : KeyValueTags → Entries Text)
      → ((t : KeyValueTags) (k : Text) → lookup k (tags_of t) ≡ map_option map_value (tag_at t k))
      → ((t : KeyValueTags) → NodupKeys (tags_of t))
      → (w : W) → (tag_updated tags_of conn identifier old_tags new_tags w).0 ≡ ok tt
      → (k : Text)
      → remote (tag_updated tags_of conn identifier old_tags new_tags w).1 identifier k
        ≡ or_else
            (map_option map_value (tag_at (ignore_aws (updated old_tags new_tags)) k))
            (remote w identifier k)
  unfolding tag_updated
  after-tag_updated tags_of spec unique w h k =
      elim (Bool-cases (is_empty (entries (updated old_tags new_tags)))) [
        | inl nothing ↦
            rw (nothing, lookup-ignore_aws, is_empty-eq _ nothing) (unfold lookup in ground arith)
        | inr some_tags ↦ rw some_tags (
            lawful.tag_lookup identifier (tags_of (ignore_aws (updated old_tags new_tags))) w
              (unique _) (none_of_ok _ _ (rw some_tags at h)) k
            ∙ ground (arith, spec (ignore_aws (updated old_tags new_tags)) k))
      ]
