-- ===== src/KeyValueTags/Equality.antt =====
-- `TagData.Equal` and reflect.DeepEqual on maps decide equality of what the data hold.
use terraform_provider_awsut.Prelude.{
  ◌≡◌, refl, sym, ◌↔◌, inl, inr, Bool, true, false, Option, none, some, [], ◌∷◌, Text, ◌==◌, eq_iff,
  eq_refl, length, arith, Option-cases,
}
use terraform_provider_awsut.Prelude.Map.{GoMap, Entries, entries, is_nil, lookup, NodupKeys}
use terraform_provider_awsut.Prelude.Map.Count.{Covers, length-le-of_Covers, Covers-of_length-le}
use terraform_provider_awsut.KeyValueTags.Data.{
  TagData, deep_equal_pointer, bool_eq, all_equal_in, deep_equal_map, equal,
}

-- The comparison answers whether its arguments are equal.
abbrev pub Decides {ℓ} : {A : Type ℓ} → (A → A → Bool) → Type ℓ
Decides {A} eq = (a b : A) → (eq a b ≡ true) ↔ (a ≡ b)

pub bool_eq-Decides : Decides bool_eq
unfolding bool_eq
bool_eq-Decides true b = (λ h. sym h, λ h. sym h)
bool_eq-Decides false true = (λ h. cc, λ h. cc)
bool_eq-Decides false false = (λ h. refl, λ h. refl)

module _ {ℓ} {A : Type ℓ} (eq : A → A → Bool) (d : Decides eq) where
  pub deep_equal_pointer-Decides : Decides (deep_equal_pointer eq)
  unfolding deep_equal_pointer
  deep_equal_pointer-Decides none none = (λ h. refl, λ h. refl)
  deep_equal_pointer-Decides none (some b) = (λ h. cc, λ h. cc)
  deep_equal_pointer-Decides (some a) none = (λ h. cc, λ h. cc)
  deep_equal_pointer-Decides (some a) (some b) = (λ h. cc ((d a b).0 h), λ h. (d a b).1 (cc))

  -- `all_equal_in` says that the other map has the same value at each key of the map.
  all_equal_in_sound :
      (m n : Entries A) (k : Text) (v : A)
      → all_equal_in eq m n ≡ true
      → lookup k m ≡ some v
      → lookup k n ≡ some v
  unfolding all_equal_in lookup
  all_equal_in_sound [] n k v h e = cc
  all_equal_in_sound ((j, w) ∷ m) n k v h e = elim (Option-cases (lookup j n)) [
    | inl absent ↦ ground arith
    | inr (x, present) ↦ ground (arith, all_equal_in_sound m n k v, eq_iff j k, (d w x).0)
  ]

  all_equal_in_complete :
      (m n : Entries A)
      → NodupKeys m
      → ((k : Text) (v : A) → lookup k m ≡ some v → lookup k n ≡ some v)
      → all_equal_in eq m n ≡ true
  unfolding all_equal_in lookup
  all_equal_in_complete [] n u h = refl
  all_equal_in_complete ((j, w) ∷ m) n (fresh, u) h =
      rw (h j w (rw eq_refl), (d w w).1 refl)
        (all_equal_in_complete m n u λ k v e. h k v (ground (arith, eq_iff j k)))

-- Both maps are nil or neither is, and they hold the same keys with the same values.
abbrev pub SameMap {ℓ} : {V : Type ℓ} → GoMap V → GoMap V → Type ℓ
SameMap m n = (is_nil m ≡ is_nil n) × ((k : Text) → lookup k (entries m) ≡ lookup k (entries n))

-- The tags as the map that the program builds: no key twice, in the additional fields too.
pub record IsValid (td : TagData) : Type 0 where
  pub bool_keys : NodupKeys (entries td.additional_bool_fields)
  pub string_keys : NodupKeys (entries td.additional_string_fields)

abbrev pub IsValidTag : Option TagData → Type 0
IsValidTag none = Unit
IsValidTag (some td) = IsValid td

pub record SameTagData (td other : TagData) : Type 0 where
  pub bools : SameMap td.additional_bool_fields other.additional_bool_fields
  pub strings : SameMap td.additional_string_fields other.additional_string_fields
  pub values : td.value ≡ other.value

-- Two tags hold the same data, or both are nil.
abbrev pub SameTag : Option TagData → Option TagData → Type 0
SameTag none none = Unit
SameTag none (some other) = ⊥
SameTag (some td) none = ⊥
SameTag (some td) (some other) = SameTagData td other

pub SameTag-sym : (td other : Option TagData) → SameTag td other → SameTag other td
SameTag-sym none none same = tt
SameTag-sym none (some other) same = absurd same
SameTag-sym (some td) none same = absurd same
SameTag-sym (some td) (some other) same = record {
  bools = (sym same.bools.0, λ k. sym (same.bools.1 k));
  strings = (sym same.strings.0, λ k. sym (same.strings.1 k));
  values = sym same.values;
}

module _ {ℓ} {A : Type ℓ} (eq : A → A → Bool) (d : Decides eq) where
  Covers-of_all_equal_in : (m n : Entries A) → all_equal_in eq m n ≡ true → Covers m n
  Covers-of_all_equal_in m n h k e = elim (Option-cases (lookup k m)) [
    | inl absent ↦ ground arith
    | inr (v, present) ↦ rw (all_equal_in_sound eq d m n k v h present)
  ]

  lookup-eq :
      (m n : Entries A)
      → Covers n m
      → ((k : Text) (v : A) → lookup k m ≡ some v → lookup k n ≡ some v)
      → (k : Text) → lookup k m ≡ lookup k n
  lookup-eq m n c h k = elim (Option-cases (lookup k m)) [
    | inl absent ↦ elim (Option-cases (lookup k n)) [
      | inl gone ↦ cc
      | inr (w, there) ↦ ground (arith, c k)
    ]
    | inr (v, present) ↦ cc (h k v present)
  ]

  same-Covers : (m n : Entries A) → ((k : Text) → lookup k m ≡ lookup k n) → Covers m n
  same-Covers m n h k e = rw (← h k) e

  deep_equal_map_sound :
      (m n : GoMap A)
      → NodupKeys (entries m)
      → NodupKeys (entries n)
      → deep_equal_map eq m n ≡ true
      → SameMap m n
  unfolding deep_equal_map
  deep_equal_map_sound GoMap.nil_map GoMap.nil_map u w h = (refl, λ k. refl)
  deep_equal_map_sound GoMap.nil_map (GoMap.made n) u w h = cc
  deep_equal_map_sound (GoMap.made m) GoMap.nil_map u w h = cc
  deep_equal_map_sound (GoMap.made m) (GoMap.made n) u w h =
      let all : all_equal_in eq m n ≡ true = ground arith in
      let same_size : length m ≡ length n = ground arith in
      (
        refl,
        lookup-eq m n (Covers-of_length-le m n u w (Covers-of_all_equal_in m n all) (omega arith))
            (λ k v. all_equal_in_sound eq d m n k v all),
      )

  deep_equal_map_complete :
      (m n : GoMap A)
      → NodupKeys (entries m)
      → NodupKeys (entries n)
      → SameMap m n
      → deep_equal_map eq m n ≡ true
  unfolding deep_equal_map
  deep_equal_map_complete m n u w (same_nil, same) = ground (
    arith,
    all_equal_in_complete eq d (entries m) (entries n) u (λ k v e. cc (same k)),
    length-le-of_Covers (entries m) (entries n) u w (same-Covers (entries m) (entries n) same),
    length-le-of_Covers (entries n) (entries m) w u
        (same-Covers (entries n) (entries m) (λ k. sym (same k))),
  )

-- `TagData.Equal` answers true exactly when both tags are nil, or both hold the same value and
-- the same additional fields, where a nil map of fields differs from an empty one. The maps of
-- fields hold no key twice.
pub equal_iff :
    (td other : Option TagData)
    → IsValidTag td
    → IsValidTag other
    → (equal td other ≡ true) ↔ SameTag td other
unfolding equal
equal_iff none none u w = (λ h. tt, λ h. refl)
equal_iff none (some other) u w = (λ h. cc, λ h. absurd h)
equal_iff (some td) none u w = (λ h. cc, λ h. absurd h)
equal_iff (some td) (some other) u w =
    let bool_d = deep_equal_pointer-Decides bool_eq bool_eq-Decides in
    let text_d = deep_equal_pointer-Decides ◌==◌ eq_iff in
    (
      λ h. record {
        bools = deep_equal_map_sound _ bool_d _ _ u.bool_keys w.bool_keys (ground arith);
        strings = deep_equal_map_sound _ text_d _ _ u.string_keys w.string_keys (ground arith);
        values = (text_d _ _).0 (ground arith);
      },
      λ s. rw (
        deep_equal_map_complete _ bool_d _ _ u.bool_keys w.bool_keys s.bools,
        deep_equal_map_complete _ text_d _ _ u.string_keys w.string_keys s.strings,
        (text_d _ _).1 s.values,
      ),
    )

pub value-eq_of_equal :
    (td other : TagData) → equal (some td) (some other) ≡ true → td.value ≡ other.value
unfolding equal
value-eq_of_equal td other h = (deep_equal_pointer-Decides ◌==◌ eq_iff _ _).0 (ground arith)
