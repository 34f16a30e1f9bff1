-- ===== src/KeyValueTags/Batches/Chunks.antt =====
-- Each chunk is small, and the chunks hold the keys of the tags.
use terraform_provider_awsut.Prelude.{
  ℕ, suc, ◌-◌, ◌%◌, ◌≤◌, ◌≡◌, refl, ◌∙◌, inl, inr, Bool, true, false, not, ◌&&◌, ◌||◌, Option, none,
  some, List, [], ◌∷◌, ◌++◌, Text, ◌==◌, arith, length, is_empty, eqb, eqb_iff, Bool-cases, All,
  All-append,
}
use native.Mathlib.Nat.{zero-mod}
use terraform_provider_awsut.Prelude.Map.{made, entries, size, insert, has, lookup, lookup-insert}
use terraform_provider_awsut.KeyValueTags.Data.{TagData, KeyValueTags}
use terraform_provider_awsut.KeyValueTags.Batches.{Tags, add_to_chunk, chunk_loop, in_order, chunks}

length-insert : (k : Text) (v : Option TagData) (m : Tags) → length (insert k v m) ≤ suc (length m)
unfolding insert
length-insert k v [] = omega arith
length-insert k v ((j, w) ∷ m) = ground (arith, length-insert k v m)

length-insert_empty : (k : Text) (v : Option TagData) → length (insert k v []) ≡ 1
unfolding insert
length-insert_empty k v = refl

-- The chunks hold at most ten tags each, and the one that was begun last no more than were counted
-- since it was begun.
abbrev Small : ℕ → List Tags → Type 0
Small n [] = n ≡ 0
Small n (chunk ∷ result) =
    (length chunk ≤ suc ((n - 1) % 10)) × All (λ (c : Tags). length c ≤ 10) result

add_to_chunk-Small :
    (k : Text) (v : Option TagData) (n : ℕ) (result : List Tags)
    → Small n result
    → eqb (n % 10) 0 ≡ false
    → Small (suc n) (add_to_chunk k v result)
unfolding add_to_chunk
add_to_chunk-Small k v n [] h later = let wrong : true ≡ false = rw h at later in cc
add_to_chunk-Small k v n (chunk ∷ result) (short, small) later =
    (ground (arith, eqb_iff (n % 10) 0, length-insert k v chunk), small)

begin-Small :
    (k : Text) (v : Option TagData) (n : ℕ) (result : List Tags)
    → Small n result
    → Small (suc n) (insert k v [] ∷ result)
begin-Small k v n [] h = (omega (arith, length-insert_empty k v), tt)
begin-Small k v n (chunk ∷ result) (short, small) =
    (omega (arith, length-insert_empty k v), (omega arith, small))

chunk_loop-Small : (tags : Tags) → Small (chunk_loop 10 tags).0 (chunk_loop 10 tags).1
unfolding chunk_loop
chunk_loop-Small [] = refl
chunk_loop-Small ((k, v) ∷ tags) =
    let before = chunk_loop 10 tags in
    let small = chunk_loop-Small tags in
    elim (Bool-cases (eqb (before.0 % 10) 0)) [
      | inl first ↦ rw first (begin-Small k v before.0 before.1 small)
      | inr later ↦ rw later (add_to_chunk-Small k v before.0 before.1 small later)
    ]

Small-All : (n : ℕ) (result : List Tags) → Small n result → All (λ (c : Tags). length c ≤ 10) result
Small-All n [] h = tt
Small-All n (chunk ∷ result) (short, small) = (omega arith, small)

in_order-All :
    (result : List Tags)
    → All (λ (c : Tags). length c ≤ 10) result
    → All (λ (c : KeyValueTags). size c ≤ 10) (in_order result)
unfolding in_order
in_order-All [] h = tt
in_order-All (chunk ∷ result) (short, small) =
    All-append (λ (c : KeyValueTags). size c ≤ 10) (in_order result) (made chunk ∷ [])
      (in_order-All result small) (short, tt)

-- Chunks of size ten hold at most ten tags each, and there is no panic.
pub chunks_lem :
    (tags : KeyValueTags)
    → (batches : List KeyValueTags) × (chunks tags 10 ≡ some batches)
      × All (λ (c : KeyValueTags). size c ≤ 10) batches
unfolding chunks
chunks_lem tags = (
  in_order (chunk_loop 10 (entries tags)).1,
  refl,
  in_order-All (chunk_loop 10 (entries tags)).1 (
      Small-All (chunk_loop 10 (entries tags)).0 (chunk_loop 10 (entries tags)).1
        (chunk_loop-Small (entries tags))),
)

-- A key is in one of the chunks.
abbrev pub in_chunk : Text → List KeyValueTags → Bool
in_chunk k [] = false
in_chunk k (chunk ∷ batches) = has (entries chunk) k || in_chunk k batches

in_chunk-append :
    (k : Text) (a b : List KeyValueTags) → in_chunk k (a ++ b) ≡ (in_chunk k a || in_chunk k b)
in_chunk-append k [] b = refl
in_chunk-append k (c ∷ a) b = ground (arith, in_chunk-append k a b)

abbrev pub in_some : Text → List Tags → Bool
in_some k [] = false
in_some k (chunk ∷ result) = has chunk k || in_some k result

in_chunk-in_order :
    (k : Text) (result : List Tags) → in_chunk k (in_order result) ≡ in_some k result
unfolding in_order
in_chunk-in_order k [] = refl
in_chunk-in_order k (chunk ∷ result) =
    in_chunk-append k (in_order result) (made chunk ∷ [])
    ∙ ground (arith, in_chunk-in_order k result)

has-insert :
    (k j : Text) (v : Option TagData) (m : Tags) → has (insert k v m) j ≡ (k == j || has m j)
has-insert k j v m = ground (arith, lookup-insert j k v m)

-- No chunk was begun before the first tag.
abbrev pub Begun : ℕ → List Tags → Type 0
Begun n [] = n ≡ 0
Begun n (chunk ∷ result) = Unit

in_some-add_to_chunk :
    (size n : ℕ) (k j : Text) (v : Option TagData) (result : List Tags)
    → Begun n result
    → eqb (n % size) 0 ≡ false
    → in_some j (add_to_chunk k v result) ≡ (k == j || in_some j result)
unfolding add_to_chunk
in_some-add_to_chunk size n k j v [] h later =
    let wrong : true ≡ false = rw (h, zero-mod size) at later in cc
in_some-add_to_chunk size n k j v (chunk ∷ result) h later = ground (arith, has-insert k j v chunk)

Begun-add_to_chunk :
    (size n : ℕ) (k : Text) (v : Option TagData) (result : List Tags)
    → Begun n result
    → eqb (n % size) 0 ≡ false
    → Begun (suc n) (add_to_chunk k v result)
unfolding add_to_chunk
Begun-add_to_chunk size n k v [] h later =
    let wrong : true ≡ false = rw (h, zero-mod size) at later in cc
Begun-add_to_chunk size n k v (chunk ∷ result) h later = tt

pub chunk_loop_lem :
    (size : ℕ) (tags : Tags) (j : Text)
    → (in_some j (chunk_loop size tags).1 ≡ has tags j)
      × Begun (chunk_loop size tags).0 (chunk_loop size tags).1
unfolding chunk_loop lookup
chunk_loop_lem size [] j = (refl, refl)
chunk_loop_lem size ((k, v) ∷ tags) j =
    let before = chunk_loop size tags in
    let (same, begun) = chunk_loop_lem size tags j in
    elim (Bool-cases (eqb (before.0 % size) 0)) [
      | inl first ↦ rw first (ground (arith, has-insert k j v []), tt)
      | inr later ↦ rw later (
        in_some-add_to_chunk size before.0 k j v before.1 begun later ∙ ground arith,
        Begun-add_to_chunk size before.0 k v before.1 begun later,
      )
    ]

-- If `Chunks` does not panic, its chunks hold the keys of the tags and no others.
pub chunks-keys :
    (tags : KeyValueTags) (size : ℕ) (batches : List KeyValueTags) (k : Text)
    → chunks tags size ≡ some batches
    → in_chunk k batches ≡ has (entries tags) k
unfolding chunks
chunks-keys tags size batches k h =
    elim (Bool-cases (eqb size 0 && not (is_empty (entries tags)))) [
      | inl panics ↦
          let wrong : ◌≡◌ {A = Option (List KeyValueTags)} none (some batches) = rw panics at h in
          cc
      | inr fine ↦
          let it : ◌≡◌ {A = Option (List KeyValueTags)}
              (some (in_order (chunk_loop size (entries tags)).1)) (some batches) =
            rw fine at h in
          let same : in_order (chunk_loop size (entries tags)).1 ≡ batches = cc in
          rw (← same, in_chunk-in_order) ((chunk_loop_lem size (entries tags) k).0)
    ]
