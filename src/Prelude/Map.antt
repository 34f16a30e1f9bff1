-- ===== src/Prelude/Map.antt =====
-- Go maps with string keys. A map that was made is the list of its entries; the order of the list
-- is the order in which a `range` loop happens to visit them, from the last to the first. What is
-- proved for every list holds for every order of iteration.
pub mod Count
use terraform_provider_awsut.Prelude.Tests.{if◌then◌else◌, is_some}
use terraform_provider_awsut.Prelude.Strings.{Text, ◌==◌, eq_iff}
use terraform_provider_awsut.Prelude.Lists.{length}
use Prim.Native.Nat.{ℕ}
use mathlib.Core.Path.{◌≡◌, refl}
use mathlib.Core.Bool.{Bool, true, false}
use mathlib.Core.Option.{Option, none, some}
use mathlib.Core.List.{List, [], ◌∷◌}
use native.Mathlib.Omega.{arith}

abbrev pub Entries {ℓ} : Type ℓ → Type ℓ
Entries V = List (Text × V)

-- `nil_map` is a map variable that no `make` has filled: it reads as empty, and `m == nil` holds.
pub data GoMap {ℓ} (V : Type ℓ) : Type ℓ where
  nil_map : GoMap V
  made : Entries V → GoMap V

module _ {ℓ} {V : Type ℓ} where
  abbrev pub entries : GoMap V → Entries V
  entries nil_map = []
  entries (made l) = l

  abbrev pub is_nil : GoMap V → Bool
  is_nil nil_map = true
  is_nil (made l) = false

  -- `len(m)`
  abbrev pub size : GoMap V → ℕ
  size m = length (entries m)

  -- `v, ok := m[k]`
  unfoldable pub lookup : Text → Entries V → Option V
  lookup k [] = none
  lookup k ((j, v) ∷ m) = if j == k then some v else lookup k m

  -- `m[k] = v`
  unfoldable pub insert : Text → V → Entries V → Entries V
  insert k v [] = (k, v) ∷ []
  insert k v ((j, w) ∷ m) = if j == k then (k, v) ∷ m else (j, w) ∷ insert k v m

  abbrev pub has : Entries V → Text → Bool
  has m k = is_some (lookup k m)

  -- A map holds a key at most once.
  abbrev pub NodupKeys : Entries V → Type ℓ
  NodupKeys [] = Unit
  NodupKeys ((k, v) ∷ m) = (lookup k m ≡ none) × NodupKeys m

  pub lookup-insert :
      (j k : Text) (v : V) (m : Entries V)
      → lookup j (insert k v m) ≡ (if k == j then some v else lookup j m)
  unfolding lookup insert
  lookup-insert j k v [] = refl
  lookup-insert j k v ((i, w) ∷ m) =
      ground (arith, eq_iff k j, eq_iff i k, eq_iff i j, lookup-insert j k v m)

  pub insert-NodupKeys : (k : Text) (v : V) (m : Entries V) → NodupKeys m → NodupKeys (insert k v m)
  unfolding insert lookup
  insert-NodupKeys k v [] h = (refl, tt)
  insert-NodupKeys k v ((j, w) ∷ m) (fresh, u) =
      ground (arith, insert-NodupKeys k v m u, lookup-insert j k v m, eq_iff j k, eq_iff k j)
