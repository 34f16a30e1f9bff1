-- ===== src/KeyValueTags/BucketTags/Result.antt =====
-- What an update leaves in a bucket whose service replaces all tags at once: the new tags, and of
-- the tags that the bucket had those that are neither old nor new.
use terraform_provider_awsut.Prelude.{
  ◌≡◌, refl, ◌∙◌, inl, inr, true, ◌&&◌, Option, none, some, [], ◌∷◌, Text, eq_iff, ◌+◌, arith,
  if◌then◌else◌, Bool-cases, length, ltb, eqb,
}
use terraform_provider_awsut.Prelude.Error.{Error}
use terraform_provider_awsut.Prelude.Go.{
  Outcome, ok, >>=-eq-ok, ok-injective, Reply, output, failed, relabel,
}
use terraform_provider_awsut.Prelude.Map.{
  Entries, entries, size, lookup, insert, lookup-insert, has, NodupKeys,
}
use terraform_provider_awsut.KeyValueTags.Data.{KeyValueTags}
use terraform_provider_awsut.KeyValueTags.Copy.{or_else}
use terraform_provider_awsut.KeyValueTags.Filter.{ignore, merge}
use terraform_provider_awsut.KeyValueTags.Access.{map_value}
use terraform_provider_awsut.KeyValueTags.New.{Source, of_pointer, from_pointers, new}
use terraform_provider_awsut.KeyValueTags.Lookups.{tag_at, map_option, lookup-ignore, lookup-merge}
use terraform_provider_awsut.KeyValueTags.UpdateTags.{iam_tags}
use terraform_provider_awsut.KeyValueTags.UpdateTags.Sync.{
  lookup-iam_tags, iam_tags-NodupKeys, none_of_ok,
}
use terraform_provider_awsut.KeyValueTags.BucketTags.{
  BucketConn, err_code_no_such_tag_set, s3_tags, collect, s3_key_value_tags, listed, error_listing,
  all_tags_of, store_tags, s3_bucket_update_tags,
}

-- The documented behaviour of the service over the tags that its buckets hold. A bucket without
-- tags may answer with the error of the code NoSuchTagSet. Nothing is assumed of a request that
-- fails otherwise.
pub record IsLawful {W : Type 0} (conn : BucketConn W) (remote : W → Text → Text → Option Text)
    : Type 0 where
  pub get_unique :
      (identifier : Text) (w : W) (tags : Entries (Option Text))
      → (conn.get_bucket_tagging identifier w).0 ≡ output tags
      → NodupKeys tags
  pub get_lookup :
      (identifier : Text) (w : W) (tags : Entries (Option Text))
      → (conn.get_bucket_tagging identifier w).0 ≡ output tags
      → (k : Text) → lookup k tags ≡ map_option some (remote w identifier k)
  pub get_none :
      (identifier : Text) (w : W) (e : Error)
      → (conn.get_bucket_tagging identifier w).0 ≡ failed e
      → conn.err_code_equals e err_code_no_such_tag_set ≡ true
      → (k : Text) → remote w identifier k ≡ none
  pub get_keeps :
      (identifier : Text) (w : W) (k : Text)
      → remote (conn.get_bucket_tagging identifier w).1 identifier k ≡ remote w identifier k
  pub put_lookup :
      (identifier : Text) (tags : Entries Text) (w : W)
      → NodupKeys tags
      → (conn.put_bucket_tagging identifier tags w).0 ≡ none
      → (k : Text)
      → remote (conn.put_bucket_tagging identifier tags w).1 identifier k ≡ lookup k tags
  pub delete_lookup :
      (identifier : Text) (w : W)
      → (conn.delete_bucket_tagging identifier w).0 ≡ none
      → (k : Text) → remote (conn.delete_bucket_tagging identifier w).1 identifier k ≡ none

lookup-collect :
    (j : Text) (tags m : Entries (Option Text))
    → NodupKeys tags
    → lookup j (collect tags m) ≡ or_else (lookup j tags) (lookup j m)
unfolding collect lookup
lookup-collect j [] m u = refl
lookup-collect j ((k, v) ∷ tags) m (fresh, u) =
    lookup-collect j tags (insert k v m) u ∙ ground (arith, lookup-insert j k v m, eq_iff k j)

lookup-from_pointers :
    (j : Text) (m : Entries (Option Text))
    → lookup j (from_pointers m) ≡ map_option of_pointer (lookup j m)
unfolding from_pointers lookup
lookup-from_pointers j [] = refl
lookup-from_pointers j ((k, v) ∷ m) =
    ground (arith, lookup-from_pointers j m, lookup-insert j k (of_pointer v) (from_pointers m))

value_of_pointer :
    (o : Option Text) → map_option map_value (map_option of_pointer (map_option some o)) ≡ o
unfolding map_value of_pointer
value_of_pointer none = refl
value_of_pointer (some s) = refl

pub lookup-s3_key_value_tags :
    (tags : Entries (Option Text)) (k : Text)
    → NodupKeys tags
    → tag_at (s3_key_value_tags tags) k ≡ map_option of_pointer (lookup k tags)
unfolding s3_key_value_tags
lookup-s3_key_value_tags tags k u =
    rw (lookup-from_pointers, lookup-collect k tags [] u) (unfold lookup in ground arith)

pub lookup-s3_tags :
    (tags : KeyValueTags) (k : Text)
    → lookup k (s3_tags tags) ≡ map_option map_value (tag_at tags k)
unfolding s3_tags iam_tags
lookup-s3_tags tags k = lookup-iam_tags tags k

s3_tags-NodupKeys : (tags : KeyValueTags) → NodupKeys (s3_tags tags)
unfolding s3_tags iam_tags
s3_tags-NodupKeys tags = iam_tags-NodupKeys tags

lookup_of_empty {ℓ} : {V : Type ℓ} (k : Text) (m : Entries V) → length m ≡ 0 → lookup k m ≡ none
unfolding lookup
lookup_of_empty k [] h = refl
lookup_of_empty k (x ∷ m) h = absurd (omega arith)

module _ {W : Type 0} (conn : BucketConn W) (remote : W → Text → Text → Option Text)
    (lawful : IsLawful conn remote) (identifier : Text) where
  -- The tags that are read are those of the bucket.
  read_by :
      (w : W) (reply : Reply (Entries (Option Text)))
      → (conn.get_bucket_tagging identifier w).0 ≡ reply
      → (a : KeyValueTags) → relabel (error_listing identifier) (listed conn reply) ≡ ok a
      → (k : Text) → map_option map_value (tag_at a k) ≡ remote w identifier k
  unfolding listed
  read_by w (output tags) e a h k =
      rw
        (
          ← ok-injective h,
          lookup-s3_key_value_tags tags k (lawful.get_unique identifier w tags e),
          lawful.get_lookup identifier w tags e k,
        )
        (value_of_pointer (remote w identifier k))
  read_by w (failed x) e a h k =
      elim (Bool-cases (conn.err_code_equals x err_code_no_such_tag_set)) [
        | inl absent ↦
            rw (← ok-injective (rw absent at h), lawful.get_none identifier w x e absent k)
              (unfold lookup in refl)
        | inr other ↦ cc (rw other at h)
      ]

  module _ (old_tags new_tags ignored_tags : KeyValueTags) where
    -- The tags that the bucket holds once the request, if any, has returned no error.
    after-store_tags :
        (w : W)
        → (store_tags conn identifier old_tags new_tags ignored_tags w).0 ≡ ok tt
        → (k : Text)
        → map_option map_value (tag_at ignored_tags k) ≡ (
            if has (entries new_tags) k
            then none
            else if has (entries old_tags) k
            then none
            else remote w identifier k)
        → remote (store_tags conn identifier old_tags new_tags ignored_tags w).1 identifier k
          ≡ or_else
              (map_option map_value (tag_at new_tags k))
              (if has (entries old_tags) k then none else remote w identifier k)
    unfolding store_tags
    after-store_tags w h k seen = elim (Bool-cases (ltb 0 (size new_tags + size ignored_tags))) [
      | inl put ↦ rw put (
          lawful.put_lookup identifier (s3_tags (merge new_tags ignored_tags)) w
            (s3_tags-NodupKeys _) (none_of_ok _ _ (rw put at h)) k
          ∙ lookup-s3_tags (merge new_tags ignored_tags) k
          ∙ ground (arith, lookup-merge new_tags ignored_tags k))
      | inr empty ↦ elim (Bool-cases (ltb 0 (size old_tags) && eqb (size ignored_tags) 0)) [
        | inl delete ↦
            rw (empty, delete)
              (lawful.delete_lookup identifier w (none_of_ok _ _ (rw (empty, delete) at h)) k
                ∙ ground (
                  arith,
                  lookup_of_empty k (entries new_tags),
                  lookup_of_empty k (entries ignored_tags),
                ))
        | inr nothing ↦
            rw (empty, nothing)
              (ground
                (arith, lookup_of_empty k (entries new_tags), lookup_of_empty k (entries old_tags)))
      ]
    ]

module _ {W : Type 0} (conn : BucketConn W) (remote : W → Text → Text → Option Text)
    (lawful : IsLawful conn remote) (identifier : Text) (old_tags new_tags all_tags : KeyValueTags)
    (w : W) (read : (all_tags_of conn identifier w).0 ≡ ok all_tags) where
  abbrev stored : Outcome (Unit {0}) × W
  stored =
      store_tags conn identifier old_tags new_tags (ignore (ignore all_tags old_tags) new_tags)
        (all_tags_of conn identifier w).1

  after-read :
      stored.0 ≡ ok tt
      → (k : Text)
      → remote stored.1 identifier k
        ≡ or_else
            (map_option map_value (tag_at new_tags k))
            (if has (entries old_tags) k then none else remote w identifier k)
  unfolding all_tags_of
  after-read h k =
      after-store_tags conn remote lawful identifier old_tags new_tags
        (ignore (ignore all_tags old_tags) new_tags) (all_tags_of conn identifier w).1 h k
        (ground (
          arith,
          lookup-ignore (ignore all_tags old_tags) new_tags k,
          lookup-ignore all_tags old_tags k,
          lawful.get_keeps identifier w k,
          read_by conn remote lawful identifier w (conn.get_bucket_tagging identifier w).0 refl
              all_tags read k,
        ))
      ∙ ground (arith, lawful.get_keeps identifier w k)

-- If an update of a bucket's tags returns no error, the bucket holds the new tags with their
-- values; of the tags that it held under other keys, those under an old key are gone and the
-- others have their value still.
pub s3_bucket_update_tags-lookup :
    {W : Type 0} (conn : BucketConn W) (remote : W → Text → Text → Option Text)
    (lawful : IsLawful conn remote) (identifier : Text) (old_tags_map new_tags_map : Source)
    (old_tags new_tags : KeyValueTags) (w : W)
    → new old_tags_map ≡ some old_tags
    → new new_tags_map ≡ some new_tags
    → (s3_bucket_update_tags conn identifier old_tags_map new_tags_map w).0 ≡ ok tt
    → (k : Text)
    → remote (s3_bucket_update_tags conn identifier old_tags_map new_tags_map w).1 identifier k
      ≡ or_else
          (map_option map_value (tag_at new_tags k))
          (if has (entries old_tags) k then none else remote w identifier k)
unfolding s3_bucket_update_tags
s3_bucket_update_tags-lookup conn remote lawful identifier old_map new_map old_tags new_tags w o n h
      k =
    let store = λ (all_tags : KeyValueTags).
      store_tags conn identifier old_tags new_tags (ignore (ignore all_tags old_tags) new_tags) in
    let (all_tags, read, rest) = >>=-eq-ok (all_tags_of conn identifier) store w (rw (o, n) at h) in
    rw (o, n, rest)
      (after-read conn remote lawful identifier old_tags new_tags all_tags w read
        (rw rest at (rw (o, n) at h)) k)
