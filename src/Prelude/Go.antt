-- ===== src/Prelude/Go.antt =====
-- Go functions that act on a world outside the program: they return a value or an error, or they
-- panic, and what was done before stays done.
use terraform_provider_awsut.Prelude.Error.{Error}
use mathlib.Core.Path.{◌≡◌, refl, ap}
use mathlib.Core.Bool.{Bool, true, false}
use mathlib.Core.Option.{Option, none, some}

pub data Outcome {ℓ} (A : Type ℓ) : Type ℓ where
  ok : A → Outcome A
  err : Error → Outcome A
  panic : Outcome A

abbrev pub Go : Type 0 → Type 0 → Type 0
Go W A = W → Outcome A × W

-- The result of a call whose output the program does not look at: nil or an error.
abbrev pub Call : Type 0 → Type 0
Call W = W → Option Error × W

-- What a call answers that the program looks at: its output, or an error.
pub data Reply (A : Type 0) : Type 0 where
  output : A → Reply A
  failed : Error → Reply A

module _ {W A B : Type 0} where
  abbrev pub continue : Outcome A → (A → Go W B) → Go W B
  continue (ok a) f w = f a w
  continue (err e) f w = (err e, w)
  continue panic f w = (panic, w)

  infixl 5 ◌>>=◌ ◌>>◌
  abbrev pub ◌>>=◌ : Go W A → (A → Go W B) → Go W B
  ◌>>=◌ m f w = continue (m w).0 f (m w).1

  abbrev pub ◌>>◌ : Go W A → Go W B → Go W B
  m >> n = m >>= λ _. n

-- The error of a function is returned with more text.
abbrev pub relabel {ℓ} : {A : Type ℓ} → (Error → Error) → Outcome A → Outcome A
relabel describe (ok a) = ok a
relabel describe (err e) = err (describe e)
relabel describe panic = panic

abbrev pub outcome_of : (Error → Error) → Option Error → Outcome (Unit {0})
outcome_of describe none = ok tt
outcome_of describe (some e) = err (describe e)

module _ {W : Type 0} where
  abbrev pub pure : {A : Type 0} → A → Go W A
  pure a w = (ok a, w)

  abbrev pub fail : {A : Type 0} → Error → Go W A
  fail e w = (err e, w)

  abbrev pub or_panic : {A : Type 0} → Option A → Go W A
  or_panic none w = (panic, w)
  or_panic (some a) w = (ok a, w)

  abbrev pub when : Bool → Go W (Unit {0}) → Go W (Unit {0})
  when true m = m
  when false m = pure tt

  abbrev pub labelled : {A : Type 0} → (Error → Error) → Go W A → Go W A
  labelled describe m w = (relabel describe (m w).0, (m w).1)

  -- `if _, err := call(); err != nil { return describe(err) }`
  abbrev pub check : (Error → Error) → Call W → Go W (Unit {0})
  check describe call w = (outcome_of describe (call w).0, (call w).1)

-- A block that returned a value: its parts did.
module _ {W A B : Type 0} where
  pub continue-eq-ok :
      (r : Outcome A) (f : A → Go W B) (w : W) {b : B}
      → (continue r f w).0 ≡ ok b
      → (a : A) × (r ≡ ok a) × (continue r f w ≡ f a w)
  continue-eq-ok (ok a) f w h = (a, refl, refl)
  continue-eq-ok (err e) f w h = cc
  continue-eq-ok panic f w h = cc

  pub >>=-eq-ok :
      (m : Go W A) (f : A → Go W B) (w : W) {b : B}
      → ((m >>= f) w).0 ≡ ok b
      → (a : A) × ((m w).0 ≡ ok a) × ((m >>= f) w ≡ f a (m w).1)
  >>=-eq-ok m f w h = continue-eq-ok (m w).0 f (m w).1 h

abbrev value_or {ℓ} : {A : Type ℓ} → A → Outcome A → A
value_or d (ok a) = a
value_or d (err e) = d
value_or d panic = d

pub ok-injective {ℓ} : {A : Type ℓ} {a b : A} → ok a ≡ ok b → a ≡ b
ok-injective {a} h = ap (value_or a) h
