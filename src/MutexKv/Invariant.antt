-- ===== src/MutexKv/Invariant.antt =====
-- What holds of every thread at every step.
use terraform_provider_awsut.Prelude.{ℕ, ◌≡◌, ◌≢◌, refl, Option, none, some, Text, eq_iff, arith}
use terraform_provider_awsut.Prelude.Map.{lookup, lookup-insert}
use terraform_provider_awsut.MutexKv.{
  Memory, Task, locking, unlocking, Pc, idle, called, in_get, missing, returning, got, inside,
  crashed, update, Move, call_lock, call_unlock, enter_get, find, miss, make, leave_get, acquire,
  release, crash,
}

-- A thread has locked the mutex of a key.
abbrev pub Holds : ℕ → Memory → Text → Type 0
Holds i m key = (p : ℕ) × (lookup key m.store ≡ some p) × (m.held p ≡ some i)

-- A thread that unlocks a key holds it.
abbrev pub During : ℕ → Memory → Task → Text → Type 0
During i m locking key = Unit
During i m unlocking key = Holds i m key

abbrev pub Safe : ℕ → Memory → Pc → Type 0
Safe i m idle = Unit
Safe i m (called task key) = During i m task key
Safe i m (in_get task key) = (m.lock ≡ some i) × During i m task key
Safe i m (missing task key) = (m.lock ≡ some i) × (lookup key m.store ≡ none) × During i m task key
Safe i m (returning task key p) =
    (m.lock ≡ some i) × (lookup key m.store ≡ some p) × During i m task key
Safe i m (got task key p) = (lookup key m.store ≡ some p) × During i m task key
Safe i m (inside key) = Holds i m key
Safe i m crashed = ⊥

held-Holds :
    (i p : ℕ) (m : Memory) (key : Text)
    → lookup key m.store ≡ some p
    → Holds i m key
    → m.held p ≡ some i
held-Holds i p m key at (q, found, by) = cc

-- A change of the memory that another thread than `j` made.
pub record Keeps (j : ℕ) (m n : Memory) : Type 0 where
  pub lock : m.lock ≡ some j → n.lock ≡ some j
  pub found : (key : Text) (p : ℕ) → lookup key m.store ≡ some p → lookup key n.store ≡ some p
  pub unfound :
      m.lock ≡ some j → (key : Text) → lookup key m.store ≡ none → lookup key n.store ≡ none
  pub held : (p : ℕ) → m.held p ≡ some j → n.held p ≡ some j

module _ {j : ℕ} {m n : Memory} (keeps : Keeps j m n) where
  Keeps-Holds : (key : Text) → Holds j m key → Holds j n key
  Keeps-Holds key (p, at, by) = (p, keeps.found key p at, keeps.held p by)

  Keeps-During : (task : Task) (key : Text) → During j m task key → During j n task key
  Keeps-During locking key h = tt
  Keeps-During unlocking key h = Keeps-Holds key h

  pub Keeps-Safe : (pc : Pc) → Safe j m pc → Safe j n pc
  Keeps-Safe idle h = tt
  Keeps-Safe (called task key) h = Keeps-During task key h
  Keeps-Safe (in_get task key) (own, h) = (keeps.lock own, Keeps-During task key h)
  Keeps-Safe (missing task key) (own, none_yet, h) =
      (keeps.lock own, keeps.unfound own key none_yet, Keeps-During task key h)
  Keeps-Safe (returning task key p) (own, at, h) =
      (keeps.lock own, keeps.found key p at, Keeps-During task key h)
  Keeps-Safe (got task key p) (at, h) = (keeps.found key p at, Keeps-During task key h)
  Keeps-Safe (inside key) h = Keeps-Holds key h
  Keeps-Safe crashed h = h

same-Keeps : (j : ℕ) (m : Memory) → Keeps j m m
same-Keeps j m = record {
  lock = λ h. h;
  found = λ key p h. h;
  unfound = λ own key h. h;
  held = λ p h. h;
}

some-injective : {o : Option ℕ} {i j : ℕ} → o ≡ some i → o ≡ some j → i ≡ j
some-injective h g = cc

-- A step of a thread does not disturb the others.
pub Move-Keeps :
    {i : ℕ} {m n : Memory} {p q : Pc} (j : ℕ) → i ≢ j → Move i m p n q → Safe i m p → Keeps j m n
unfolding update
Move-Keeps {i} {m} j other (call_lock key) h = same-Keeps j m
Move-Keeps {i} {m} j other call_unlock h = same-Keeps j m
Move-Keeps {i} {m} j other (enter_get free) h = record {
  lock = λ own. cc;
  found = λ key p at. at;
  unfound = λ own key at. at;
  held = λ p by. by;
}
Move-Keeps {i} {m} j other (find at) h = same-Keeps j m
Move-Keeps {i} {m} j other (miss at) h = same-Keeps j m
Move-Keeps {i} {m} j other (make {task} {key}) (own_i, none_yet, h) = record {
  lock = λ own. own;
  found = λ k p at. ground (arith, lookup-insert k key m.made m.store, eq_iff key k);
  unfound = λ own k at. absurd (other (some-injective own_i own));
  held = λ p by. by;
}
Move-Keeps {i} {m} j other (leave_get) (own_i, at, h) = record {
  lock = λ own. absurd (other (some-injective own_i own));
  found = λ key p at. at;
  unfound = λ own key at. at;
  held = λ p by. by;
}
Move-Keeps {i} {m} j other (acquire {key} {p} free) h = record {
  lock = λ own. own;
  found = λ key p at. at;
  unfound = λ own key at. at;
  held = λ q by. ground arith;
}
Move-Keeps {i} {m} j other (release {key} {p} taken) (at, mine) = record {
  lock = λ own. own;
  found = λ key p at. at;
  unfound = λ own key at. at;
  held = λ q by. ground (arith, held-Holds i p m key at mine);
}
Move-Keeps {i} {m} j other (crash free) h = same-Keeps j m

-- A step of a thread keeps its own condition.
pub Move-Safe : {i : ℕ} {m n : Memory} {p q : Pc} → Move i m p n q → Safe i m p → Safe i n q
unfolding update
Move-Safe (call_lock key) h = tt
Move-Safe call_unlock h = h
Move-Safe (enter_get {task = locking} free) h = (refl, tt)
Move-Safe (enter_get {task = unlocking} free) h = (refl, h)
Move-Safe (find at) (own, h) = (own, at, h)
Move-Safe (miss at) (own, h) = (own, at, h)
Move-Safe {m} (make {task = locking} {key}) (own, none_yet, h) =
    (own, ground (arith, lookup-insert key key m.made m.store, eq_iff key key), tt)
Move-Safe (make {task = unlocking}) (own, none_yet, (p, at, by)) = cc
Move-Safe (leave_get {task = locking}) (own, at, h) = (at, tt)
Move-Safe (leave_get {task = unlocking}) (own, at, h) = (at, h)
Move-Safe {i} {m} (acquire {key} {p} free) (at, h) = (p, at, ground arith)
Move-Safe (release taken) h = tt
Move-Safe {i} {m} (crash {key} {p} free) (at, mine) = cc (held-Holds i p m key at mine)
