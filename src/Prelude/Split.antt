-- ===== src/Prelude/Split.antt =====
-- strings.Split and strings.Join at a separator of one byte, and that they are inverse.
use Prim.Native.Nat.{ℕ}
use mathlib.Core.Path.{◌≡◌, refl, ap, ◌∙◌}
use mathlib.Core.Logic.{◌≢◌, inl, inr}
use mathlib.Core.Bool.{false}
use mathlib.Core.List.{List, [], ◌∷◌, ◌++◌}
use native.Mathlib.Omega.{arith}
use terraform_provider_awsut.Prelude.Tests.{eqb, if◌then◌else◌, Bool-cases, eqb_iff}
use terraform_provider_awsut.Prelude.Strings.{Text}
use terraform_provider_awsut.Prelude.Lists.{All}

unfoldable pub prepend : ℕ → List Text → List Text
prepend c [] = (c ∷ []) ∷ []
prepend c (p ∷ parts) = (c ∷ p) ∷ parts

unfoldable pub split : Text → ℕ → List Text
unfolding prepend
split [] sep = [] ∷ []
split (c ∷ s) sep = let parts = split s sep in if eqb c sep then [] ∷ parts else prepend c parts

unfoldable pub join : List Text → ℕ → Text
join [] sep = []
join (p ∷ []) sep = p
join (p ∷ q ∷ parts) sep = p ++ sep ∷ join (q ∷ parts) sep

-- No byte of the text is the separator.
abbrev pub Lacks : ℕ → Text → Type 0
Lacks sep = All (λ c. eqb c sep ≡ false)

split-ne-nil : (s : Text) (sep : ℕ) → split s sep ≢ []
unfolding split
split-ne-nil [] sep h = cc
split-ne-nil (c ∷ s) sep h = ground (arith, split-ne-nil s sep)

pub split_of_Lacks : (p : Text) (sep : ℕ) → Lacks sep p → split p sep ≡ p ∷ []
unfolding split
split_of_Lacks [] sep h = refl
split_of_Lacks (c ∷ p) sep (hc, h) = rw (hc, split_of_Lacks p sep h)

split-append : (p s : Text) (sep : ℕ) → Lacks sep p → split (p ++ sep ∷ s) sep ≡ p ∷ split s sep
unfolding split
split-append [] s sep h = rw (eqb_iff sep sep).1 refl
split-append (c ∷ p) s sep (hc, h) = rw (hc, split-append p s sep h)

pub split-join :
    (p : Text) (parts : List Text) (sep : ℕ)
    → Lacks sep p
    → All (Lacks sep) parts
    → split (join (p ∷ parts) sep) sep ≡ p ∷ parts
unfolding join
split-join p [] sep h hs = split_of_Lacks p sep h
split-join p (q ∷ parts) sep h (hq, hs) =
    split-append p (join (q ∷ parts) sep) sep h
    ∙ ap (λ (l : List Text). p ∷ l) (split-join q parts sep hq hs)

join-cons :
    (c : ℕ) (parts : List Text) (sep : ℕ)
    → parts ≢ []
    → join (prepend c parts) sep ≡ c ∷ join parts sep
unfolding join prepend
join-cons c [] sep h = absurd (h refl)
join-cons c (p ∷ []) sep h = refl
join-cons c (p ∷ q ∷ parts) sep h = refl

join-nil : (parts : List Text) (sep : ℕ) → parts ≢ [] → join ([] ∷ parts) sep ≡ sep ∷ join parts sep
unfolding join
join-nil [] sep h = absurd (h refl)
join-nil (p ∷ parts) sep h = refl

pub join-split : (s : Text) (sep : ℕ) → join (split s sep) sep ≡ s
unfolding split
join-split [] sep = unfold join in refl
join-split (c ∷ s) sep = elim (Bool-cases (eqb c sep)) [
  | inl e ↦ rw (e, join-nil _ sep (split-ne-nil s sep), join-split s sep, (eqb_iff c sep).0 e)
  | inr e ↦ rw (e, join-cons c _ sep (split-ne-nil s sep), join-split s sep)
]
