-- ===== src/Prelude/Map/Count.antt =====
-- Maps compared by their keys: a map whose keys all occur in another is no larger, and if it is
-- as large then the keys are the same.
use terraform_provider_awsut.Prelude.{
  suc, ◌≤◌, ◌≡◌, true, false, none, [], ◌∷◌, Text, ◌==◌, eq_iff, eq_refl, length, arith, inl, inr,
  if◌then◌else◌, Bool-cases,
}
use terraform_provider_awsut.Prelude.Map.{Entries, lookup, has, NodupKeys}

module _ {ℓ} {V : Type ℓ} where
  -- The map without a key.
  unfoldable pub erase : Text → Entries V → Entries V
  erase k [] = []
  erase k ((j, v) ∷ m) = if j == k then m else (j, v) ∷ erase k m

  pub lookup-erase :
      (j k : Text) (m : Entries V)
      → NodupKeys m
      → lookup j (erase k m) ≡ (if k == j then none else lookup j m)
  unfolding erase lookup
  lookup-erase j k [] h = ground arith
  lookup-erase j k ((i, v) ∷ m) (fresh, u) =
      ground (arith, lookup-erase j k m u, eq_iff i k, eq_iff i j, eq_iff k j)

  length-erase : (k : Text) (m : Entries V) → has m k ≡ true → length m ≡ suc (length (erase k m))
  unfolding erase lookup
  length-erase k [] h = cc
  length-erase k ((j, v) ∷ m) h = ground (arith, length-erase k m)

  erase-NodupKeys : (k : Text) (m : Entries V) → NodupKeys m → NodupKeys (erase k m)
  unfolding erase
  erase-NodupKeys k [] h = tt
  erase-NodupKeys k ((j, v) ∷ m) (fresh, u) =
      ground (arith, erase-NodupKeys k m u, lookup-erase j k m u)

  -- Every key of the one map is a key of the other.
  abbrev pub Covers {κ} : {W : Type κ} → Entries V → Entries W → Type 0
  Covers m n = (k : Text) → has m k ≡ true → has n k ≡ true

  has-head : (k : Text) (v : V) (m : Entries V) → has ((k, v) ∷ m) k ≡ true
  unfolding lookup
  has-head k v m = ground (arith, eq_refl k)

  has-tail : (j k : Text) (v : V) (m : Entries V) → has m j ≡ true → has ((k, v) ∷ m) j ≡ true
  unfolding lookup
  has-tail j k v m h = ground arith

  has-erase :
      (j k : Text) (m : Entries V)
      → NodupKeys m
      → has m j ≡ true
      → (k == j) ≡ false
      → has (erase k m) j ≡ true
  has-erase j k m u h ne = ground (arith, lookup-erase j k m u)

  fresh-ne : (j k : Text) (m : Entries V) → lookup k m ≡ none → has m j ≡ true → (k == j) ≡ false
  fresh-ne j k m fresh h = elim (Bool-cases (k == j)) [
    | inl e ↦ cc ((eq_iff k j).0 e)
    | inr ne ↦ ne
  ]

  Covers-erase :
      (k : Text) (v : V) (m n : Entries V)
      → NodupKeys ((k, v) ∷ m)
      → NodupKeys n
      → Covers ((k, v) ∷ m) n
      → Covers m (erase k n)
  Covers-erase k v m n (fresh, u) w c j h =
      has-erase j k n w (c j (has-tail j k v m h)) (fresh-ne j k m fresh h)

  pub length-le-of_Covers :
      (m n : Entries V) → NodupKeys m → NodupKeys n → Covers m n → length m ≤ length n
  length-le-of_Covers [] n u w c = omega arith
  length-le-of_Covers ((k, v) ∷ m) n u w c = omega (
    arith,
    length-erase k n (c k (has-head k v m)),
    length-le-of_Covers m (erase k n) u.1 (erase-NodupKeys k n w) (Covers-erase k v m n u w c),
  )

  pub Covers-of_length-le :
      (m n : Entries V) → NodupKeys m → NodupKeys n → Covers m n → length n ≤ length m → Covers n m
  Covers-of_length-le [] [] u w c le j h = h
  Covers-of_length-le [] (x ∷ n) u w c le j h = absurd (omega arith)
  Covers-of_length-le ((k, v) ∷ m) n u w c le j h = elim (Bool-cases (k == j)) [
    | inl e ↦ rw (← (eq_iff k j).0 e) (has-head k v m)
    | inr ne ↦ has-tail j k v m (
        Covers-of_length-le m (erase k n) u.1 (erase-NodupKeys k n w) (Covers-erase k v m n u w c)
          (omega (arith, length-erase k n (c k (has-head k v m)))) j (has-erase j k n w h ne))
  ]
