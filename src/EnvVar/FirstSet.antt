-- ===== src/EnvVar/FirstSet.antt =====
-- `RequireOneOf` finds the first variable that is set, if there is one.
use terraform_provider_awsut.Prelude.{
  ◌≡◌, ◌≢◌, refl, sym, ◌∙◌, ap, ◌↔◌, inl, inr, true, false, List, [], ◌∷◌, ◌++◌, Text, ◌==◌, eq_iff,
  eq_refl, Bool-cases, All,
}
use terraform_provider_awsut.Prelude.Error.{Error}
use terraform_provider_awsut.Prelude.Go.{Outcome, ok, err, ok-injective}
use terraform_provider_awsut.EnvVar.{none_is_set, first_set, require_one_of}

-- The variables are all unset or empty.
abbrev pub AllEmpty : (Text → Text) → List Text → Type 0
AllEmpty getenv = All (λ name. getenv name ≡ [])

-- The name is the first of the names whose variable is set, and the value is that variable's.
abbrev pub IsFirstSet : (Text → Text) → List Text → Text → Text → Type 0
IsFirstSet getenv names name value =
    (before : List Text) × (after : List Text) × (names ≡ before ++ name ∷ after)
    × AllEmpty getenv before
    × (getenv name ≡ value)
    × (value ≢ [])

not_empty : (s value : Text) → s == [] ≡ false → s ≡ value → value ≢ []
not_empty s value set same empty =
    let wrong : true ≡ false = sym ((eq_iff s []).1 (same ∙ empty)) ∙ set in cc

module _ (getenv : Text → Text) where
  first_set-IsFirstSet :
      (e : Error) (names : List Text) (name value : Text)
      → first_set getenv e names ≡ ok (name, value)
      → IsFirstSet getenv names name value
  unfolding first_set
  first_set-IsFirstSet e [] name value h = cc
  first_set-IsFirstSet e (n ∷ names) name value h = elim (Bool-cases (getenv n == [])) [
    | inl unset ↦
        let (before, after, split, empty, at_name, set) =
          first_set-IsFirstSet e names name value (rw unset at h) in
        (
          n ∷ before,
          after,
          ap (λ l. n ∷ l) split,
          ((eq_iff (getenv n) []).0 unset, empty),
          at_name,
          set,
        )
    | inr set ↦
        let found : ok (n, getenv n) ≡ ok (name, value) = rw set at h in
        let same : (n, getenv n) ≡ (name, value) = ok-injective found in
        (
          [],
          names,
          ap (λ (p : Text × Text). p.0 ∷ names) same,
          tt,
          ap getenv (ap (λ (p : Text × Text). p.0) (sym same)) ∙ ap (λ (p : Text × Text). p.1) same,
          not_empty (getenv n) value set (ap (λ (p : Text × Text). p.1) same),
        )
  ]

  first_set-AllEmpty :
      (e e' : Error) (names : List Text) → first_set getenv e names ≡ err e' → AllEmpty getenv names
  unfolding first_set
  first_set-AllEmpty e e' [] h = tt
  first_set-AllEmpty e e' (n ∷ names) h = elim (Bool-cases (getenv n == [])) [
    | inl unset ↦ ((eq_iff (getenv n) []).0 unset, first_set-AllEmpty e e' names (rw unset at h))
    | inr set ↦
        let wrong : ◌≡◌ {A = Outcome (Text × Text)} (ok (n, getenv n)) (err e') = rw set at h in cc
  ]

  first_set-eq-err :
      (e : Error) (names : List Text) → AllEmpty getenv names → first_set getenv e names ≡ err e
  unfolding first_set
  first_set-eq-err e [] empty = refl
  first_set-eq-err e (n ∷ names) (unset, empty) =
      rw (unset, eq_refl) (first_set-eq-err e names empty)

  -- What `RequireOneOf` returns is the first of the names whose variable is set, and its value.
  pub require_one_of-IsFirstSet :
      (names : List Text) (usage_message name value : Text)
      → require_one_of getenv names usage_message ≡ ok (name, value)
      → IsFirstSet getenv names name value
  unfolding require_one_of
  require_one_of-IsFirstSet names usage_message name value h =
      first_set-IsFirstSet (none_is_set names usage_message) names name value h

  -- `RequireOneOf` returns its error exactly when the variables are all unset or empty.
  pub require_one_of-eq-err_iff :
      (names : List Text) (usage_message : Text)
      → (require_one_of getenv names usage_message ≡ err (none_is_set names usage_message))
        ↔ AllEmpty getenv names
  unfolding require_one_of
  require_one_of-eq-err_iff names usage_message =
      (λ h. first_set-AllEmpty _ _ names h, λ empty. first_set-eq-err _ names empty)
