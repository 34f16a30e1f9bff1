-- ===== src/Prelude/Sort.antt =====
-- sort.Strings, whose result does not depend on the order of its argument.
use mathlib.Core.Path.{◌≡◌, refl, ◌∙◌}
use mathlib.Core.Bool.{true, false}
use mathlib.Core.List.{List, [], ◌∷◌, Permᴰ}
use mathlib.Core.List.Permᴰ.{nil, cons, swap, trans}
use native.Mathlib.Omega.{arith}
use terraform_provider_awsut.Prelude.Tests.{if◌then◌else◌}
use terraform_provider_awsut.Prelude.Strings.{Text, lt_text}

unfoldable pub insert_string : Text → List Text → List Text
insert_string s [] = s ∷ []
insert_string s (t ∷ l) =
    let rest = insert_string s l in if lt_text t s then t ∷ rest else s ∷ t ∷ l

unfoldable pub sort_strings : List Text → List Text
unfolding insert_string
sort_strings [] = []
sort_strings (s ∷ l) = insert_string s (sort_strings l)

lt_text_asym : (s t : Text) → lt_text s t ≡ true → lt_text t s ≡ false
unfolding lt_text
lt_text_asym s [] h = cc
lt_text_asym [] (y ∷ t) h = refl
lt_text_asym (x ∷ s) (y ∷ t) h = ground (arith, lt_text_asym s t)

lt_text-connected : (s t : Text) → lt_text s t ≡ false → lt_text t s ≡ false → s ≡ t
unfolding lt_text
lt_text-connected [] [] h g = refl
lt_text-connected [] (y ∷ t) h g = cc
lt_text-connected (x ∷ s) [] h g = cc
lt_text-connected (x ∷ s) (y ∷ t) h g = ground (arith, lt_text-connected s t)

lt_text_trans : (s t u : Text) → lt_text t s ≡ false → lt_text t u ≡ true → lt_text s u ≡ true
unfolding lt_text
lt_text_trans s t [] h g = cc
lt_text_trans [] t (z ∷ u) h g = refl
lt_text_trans (x ∷ s) [] (z ∷ u) h g = cc
lt_text_trans (x ∷ s) (y ∷ t) (z ∷ u) h g = ground (arith, lt_text_trans s t u)

insert_string_comm :
    (a b : Text) (l : List Text)
    → insert_string a (insert_string b l) ≡ insert_string b (insert_string a l)
unfolding insert_string
insert_string_comm a b [] =
    ground (arith, lt_text_asym a b, lt_text_asym b a, lt_text-connected a b)
insert_string_comm a b (t ∷ l) = ground (
  arith,
  insert_string_comm a b l,
  lt_text_asym a b,
  lt_text-connected a b,
  lt_text_trans b t a,
  lt_text_trans a t b,
)

pub sort_strings-perm : {l m : List Text} → Permᴰ l m → sort_strings l ≡ sort_strings m
unfolding sort_strings
sort_strings-perm nil = refl
sort_strings-perm (cons {a} {b} same rest) = rw (same, sort_strings-perm rest)
sort_strings-perm (swap {a} {b} {l} same_a same_b) =
    rw (same_a, same_b) (insert_string_comm _ _ (sort_strings l))
sort_strings-perm (trans first second) = sort_strings-perm first ∙ sort_strings-perm second
