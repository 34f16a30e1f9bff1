-- ===== src/KeyValueTags/Copy.antt =====
-- The loop that most methods of `KeyValueTags` are: a `range` over the tags that stores some of the
-- entries in a result.
use terraform_provider_awsut.Prelude.{
  ◌≡◌, refl, Bool, Option, none, some, [], ◌∷◌, Text, eq_iff, arith, if◌then◌else◌,
}
use terraform_provider_awsut.Prelude.Map.{
  Entries, lookup, insert, lookup-insert, NodupKeys, insert-NodupKeys,
}

abbrev pub or_else {ℓ} : {A : Type ℓ} → Option A → Option A → Option A
or_else none o = o
or_else (some a) o = some a

abbrev pub keep {ℓ} : {A : Type ℓ} → (A → Bool) → Option A → Option A
keep test none = none
keep test (some a) = if test a then some a else none

module _ {ℓ} {V : Type ℓ} where
  -- `for k, v := range m { if test(k, v) { result[k] = v } }`, from an empty result
  unfoldable pub copy_if : (Text → V → Bool) → Entries V → Entries V
  copy_if test [] = []
  copy_if test ((k, v) ∷ m) =
      let result = copy_if test m in if test k v then insert k v result else result

  -- `for k, v := range m { result[k] = v }`
  unfoldable pub copy_into : Entries V → Entries V → Entries V
  copy_into [] result = result
  copy_into ((k, v) ∷ m) result = insert k v (copy_into m result)

  copy_if-absent :
      (test : Text → V → Bool) (j : Text) (m : Entries V)
      → lookup j m ≡ none
      → lookup j (copy_if test m) ≡ none
  unfolding copy_if lookup
  copy_if-absent test j [] h = refl
  copy_if-absent test j ((k, v) ∷ m) h =
      ground (arith, copy_if-absent test j m, lookup-insert j k v (copy_if test m))

  -- The entries that pass the test are kept and the others are gone.
  pub lookup-copy_if :
      (test : Text → V → Bool) (j : Text) (m : Entries V)
      → NodupKeys m
      → lookup j (copy_if test m) ≡ keep (test j) (lookup j m)
  unfolding copy_if lookup
  lookup-copy_if test j [] h = refl
  lookup-copy_if test j ((k, v) ∷ m) (fresh, u) = ground (
    arith,
    lookup-copy_if test j m u,
    lookup-insert j k v (copy_if test m),
    eq_iff k j,
    copy_if-absent test k m fresh,
  )

  -- A test of the key alone needs no hypothesis on the entries.
  pub lookup-copy_if_key :
      (test : Text → Bool) (j : Text) (m : Entries V)
      → lookup j (copy_if (λ k _. test k) m) ≡ (if test j then lookup j m else none)
  unfolding copy_if lookup
  lookup-copy_if_key test j [] = ground arith
  lookup-copy_if_key test j ((k, v) ∷ m) = ground (
    arith,
    lookup-copy_if_key test j m,
    lookup-insert j k v (copy_if (λ i _. test i) m),
    eq_iff k j,
  )

  pub lookup-copy_into :
      (j : Text) (m result : Entries V)
      → lookup j (copy_into m result) ≡ or_else (lookup j m) (lookup j result)
  unfolding copy_into lookup
  lookup-copy_into j [] result = refl
  lookup-copy_into j ((k, v) ∷ m) result =
      ground (arith, lookup-copy_into j m result, lookup-insert j k v (copy_into m result))

  pub copy_if-NodupKeys : (test : Text → V → Bool) (m : Entries V) → NodupKeys (copy_if test m)
  unfolding copy_if
  copy_if-NodupKeys test [] = tt
  copy_if-NodupKeys test ((k, v) ∷ m) =
      ground (arith, copy_if-NodupKeys test m, insert-NodupKeys k v (copy_if test m))

  pub copy_into-NodupKeys :
      (m result : Entries V) → NodupKeys result → NodupKeys (copy_into m result)
  unfolding copy_into
  copy_into-NodupKeys [] result h = h
  copy_into-NodupKeys ((k, v) ∷ m) result h =
      insert-NodupKeys k v (copy_into m result) (copy_into-NodupKeys m result h)
