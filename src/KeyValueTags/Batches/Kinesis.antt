-- ===== src/KeyValueTags/Batches/Kinesis.antt =====
-- The requests of KinesisUpdateTags in batches do what one request would do.
use terraform_provider_awsut.Prelude.{
  ℕ, ◌%◌, ◌≡◌, refl, ◌∙◌, inl, inr, true, false, not, ◌&&◌, Option, none, some, List, [], ◌∷◌, ◌++◌,
  Text, ◌==◌, arith, is_empty, eqb, if◌then◌else◌, Bool-cases,
}
use native.Mathlib.Nat.{zero-mod}
use terraform_provider_awsut.Prelude.Go.{ok, Go, Call, check, >>=-eq-ok}
use terraform_provider_awsut.Prelude.Map.{made, entries, size, has, lookup, lookup-insert}
use terraform_provider_awsut.KeyValueTags.Data.{TagData, KeyValueTags}
use terraform_provider_awsut.KeyValueTags.Copy.{or_else}
use terraform_provider_awsut.KeyValueTags.Filter.{ignore_aws, removed, updated}
use terraform_provider_awsut.KeyValueTags.Access.{keys, to_map, map_value}
use terraform_provider_awsut.KeyValueTags.New.{Source, new}
use terraform_provider_awsut.KeyValueTags.New.Keys.{new-NodupKeys}
use terraform_provider_awsut.KeyValueTags.Lookups.{
  tag_at, map_option, lookup-ignore_aws, lookup-removed, lookup-updated, lookup-to_map,
  to_map-NodupKeys,
}
use terraform_provider_awsut.KeyValueTags.UpdateTags.{TagConn, error_untagging, error_tagging}
use terraform_provider_awsut.KeyValueTags.UpdateTags.Sync.{
  is_aws, IsLawful, InSync, none_of_ok, is_empty-eq,
}
use terraform_provider_awsut.KeyValueTags.UpdateTags.Result.{settle, generated_keys}
use terraform_provider_awsut.KeyValueTags.Batches.{
  Tags, add_to_chunk, chunk_loop, in_order, chunks, untag_each, tag_each, in_batches,
  kinesis_update_tags,
}
use terraform_provider_awsut.KeyValueTags.Batches.Chunks.{
  Begun, in_chunk, chunks_lem, chunks-keys, chunk_loop_lem,
}

-- The value that the last chunk with the key holds.
abbrev value_in : Text → List KeyValueTags → Option (Option TagData)
value_in k [] = none
value_in k (chunk ∷ batches) = or_else (value_in k batches) (tag_at chunk k)

value_in-append :
    (k : Text) (a b : List KeyValueTags)
    → value_in k (a ++ b) ≡ or_else (value_in k b) (value_in k a)
value_in-append k [] b = ground arith
value_in-append k (c ∷ a) b = ground (arith, value_in-append k a b)

abbrev first_value : Text → List Tags → Option (Option TagData)
first_value k [] = none
first_value k (chunk ∷ result) = or_else (lookup k chunk) (first_value k result)

value_in-in_order :
    (k : Text) (result : List Tags) → value_in k (in_order result) ≡ first_value k result
unfolding in_order
value_in-in_order k [] = refl
value_in-in_order k (chunk ∷ result) =
    value_in-append k (in_order result) (made chunk ∷ [])
    ∙ ground (arith, value_in-in_order k result)

first_value-add_to_chunk :
    (size n : ℕ) (k j : Text) (v : Option TagData) (result : List Tags)
    → Begun n result
    → eqb (n % size) 0 ≡ false
    → first_value j (add_to_chunk k v result) ≡ (if k == j then some v else first_value j result)
unfolding add_to_chunk
first_value-add_to_chunk size n k j v [] h later =
    let wrong : true ≡ false = rw (h, zero-mod size) at later in cc
first_value-add_to_chunk size n k j v (chunk ∷ result) h later =
    ground (arith, lookup-insert j k v chunk)

first_value-chunk_loop :
    (size : ℕ) (tags : Tags) (j : Text) → first_value j (chunk_loop size tags).1 ≡ lookup j tags
unfolding chunk_loop lookup
first_value-chunk_loop size [] j = refl
first_value-chunk_loop size ((k, v) ∷ tags) j =
    let before = chunk_loop size tags in
    elim (Bool-cases (eqb (before.0 % size) 0)) [
      | inl first ↦
          rw first (ground (arith, lookup-insert j k v [], first_value-chunk_loop size tags j))
      | inr later ↦ rw later (
          first_value-add_to_chunk size before.0 k j v before.1 ((chunk_loop_lem size tags j).1)
            later
          ∙ ground (arith, first_value-chunk_loop size tags j))
    ]

value_in-chunks :
    (tags : KeyValueTags) (batches : List KeyValueTags) (k : Text)
    → chunks tags 10 ≡ some batches
    → value_in k batches ≡ tag_at tags k
unfolding chunks
value_in-chunks tags batches k h =
    let it : ◌≡◌ {A = Option (List KeyValueTags)} (some (in_order (chunk_loop 10 (entries tags)).1))
        (some batches) =
      h in
    let same : in_order (chunk_loop 10 (entries tags)).1 ≡ batches = cc in
    rw (← same, value_in-in_order) (first_value-chunk_loop 10 (entries tags) k)

module _ {W : Type 0} (conn : TagConn W) (remote : W → Text → Text → Option Text)
    (lawful : IsLawful conn remote) (identifier : Text) where
  after-untag_each :
      (batches : List KeyValueTags) (w : W)
      → (untag_each conn identifier batches w).0 ≡ ok tt
      → (k : Text)
      → remote (untag_each conn identifier batches w).1 identifier k
        ≡ (if not (is_aws k) && in_chunk k batches then none else remote w identifier k)
  unfolding untag_each
  after-untag_each [] w h k = ground arith
  after-untag_each (c ∷ batches) w h k =
      let call : Call W = conn.untag_resource identifier (keys (entries (ignore_aws c))) in
      let (u, untagged, next) = >>=-eq-ok (check (error_untagging identifier) call) _ w h in
      rw next (
        after-untag_each batches (call w).1 (rw next at h) k
        ∙ ground (
          arith,
          lawful.untag_lookup identifier (keys (entries (ignore_aws c))) w (none_of_ok _ _ untagged)
              k,
          generated_keys c k,
        ))

  after-tag_each :
      (batches : List KeyValueTags) (w : W)
      → (tag_each conn identifier batches w).0 ≡ ok tt
      → (k : Text)
      → remote (tag_each conn identifier batches w).1 identifier k
        ≡ or_else
            (if is_aws k then none else map_option map_value (value_in k batches))
            (remote w identifier k)
  unfolding tag_each
  after-tag_each [] w h k = ground arith
  after-tag_each (c ∷ batches) w h k =
      let tags = entries (to_map (ignore_aws c)) in
      let call : Call W = conn.tag_resource identifier tags in
      let (u, tagged, next) = >>=-eq-ok (check (error_tagging identifier) call) _ w h in
      rw next (
        after-tag_each batches (call w).1 (rw next at h) k
        ∙ ground (
          arith,
          lawful.tag_lookup identifier tags w (to_map-NodupKeys (ignore_aws c))
              (none_of_ok _ _ tagged) k,
          lookup-to_map (ignore_aws c) k,
          lookup-ignore_aws c k,
        ))

  after-untag_batches :
      (tags : KeyValueTags) (w : W)
      → (in_batches conn identifier (untag_each conn identifier) tags w).0 ≡ ok tt
      → (k : Text)
      → remote (in_batches conn identifier (untag_each conn identifier) tags w).1 identifier k
        ≡ (if not (is_aws k) && has (entries tags) k then none else remote w identifier k)
  unfolding in_batches
  after-untag_batches tags w h k = elim (Bool-cases (is_empty (entries tags))) [
    | inl nothing ↦ rw (nothing, is_empty-eq _ nothing) (unfold lookup in ground arith)
    | inr some_tags ↦
        let (batches, cut, small) = chunks_lem tags in
        rw (some_tags, cut)
          (after-untag_each batches w (rw (some_tags, cut) at h) k
            ∙ ground (arith, chunks-keys tags 10 batches k cut))
  ]

  after-tag_batches :
      (tags : KeyValueTags) (w : W)
      → (in_batches conn identifier (tag_each conn identifier) tags w).0 ≡ ok tt
      → (k : Text)
      → remote (in_batches conn identifier (tag_each conn identifier) tags w).1 identifier k
        ≡ or_else
            (if is_aws k then none else map_option map_value (tag_at tags k))
            (remote w identifier k)
  unfolding in_batches
  after-tag_batches tags w h k = elim (Bool-cases (is_empty (entries tags))) [
    | inl nothing ↦ rw (nothing, is_empty-eq _ nothing) (unfold lookup in ground arith)
    | inr some_tags ↦
        let (batches, cut, small) = chunks_lem tags in
        rw (some_tags, cut)
          (after-tag_each batches w (rw (some_tags, cut) at h) k
            ∙ ground (arith, value_in-chunks tags batches k cut))
  ]

  module _ (old_tags_map new_tags_map : Source) (old_tags new_tags : KeyValueTags) (w : W)
      (old_read : new old_tags_map ≡ some old_tags)
      (new_read : new new_tags_map ≡ some new_tags) where
    -- If the stream had the old tags, leaving `aws:` keys aside, and the requests of the batches return
    -- no error, then each key that does not begin with `aws:` has the value of the new tag there, or no
    -- tag if the new tags lack it.
    pub kinesis_update_tags-InSync :
        (kinesis_update_tags conn identifier old_tags_map new_tags_map w).0 ≡ ok tt
        → InSync remote w identifier old_tags
        → (k : Text) → is_aws k ≡ false
        → remote (kinesis_update_tags conn identifier old_tags_map new_tags_map w).1 identifier k
          ≡ map_option map_value (tag_at new_tags k)
    unfolding kinesis_update_tags
    kinesis_update_tags-InSync h before k plain =
        let first : Go W (Unit {0}) =
          in_batches conn identifier (untag_each conn identifier) (removed old_tags new_tags) in
        let second : Go W (Unit {0}) =
          in_batches conn identifier (tag_each conn identifier) (updated old_tags new_tags) in
        let (u, untagged, rest) = >>=-eq-ok first (λ _. second) w (rw (old_read, new_read) at h) in
        rw (old_read, new_read, rest)
          (after-tag_batches (updated old_tags new_tags) (first w).1
              (rw (old_read, new_read, rest) at h) k
            ∙ rw
                (
                  plain,
                  after-untag_batches (removed old_tags new_tags) w untagged k,
                  plain,
                  lookup-removed,
                  lookup-updated old_tags new_tags k (new-NodupKeys new_tags_map new_read),
                  before k plain,
                )
                (settle (tag_at old_tags k) (tag_at new_tags k)))
