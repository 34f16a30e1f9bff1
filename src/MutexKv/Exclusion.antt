-- ===== src/MutexKv/Exclusion.antt =====
-- However the threads are interleaved, no two of them have locked one key, and each unlocks a mutex that is locked.
use terraform_provider_awsut.Prelude.{
  ℕ, ◌≡◌, ◌≢◌, ◌<◌, ◌≤◌, refl, subst, inl, inr, Option, none, some, Text, eqb, eq_iff, arith,
  Bool-cases,
}
use terraform_provider_awsut.Prelude.Map.{lookup, lookup-insert}
use terraform_provider_awsut.MutexKv.{
  Memory, locking, unlocking, Pc, idle, called, in_get, missing, returning, got, inside, crashed,
  update, Move, call_lock, call_unlock, enter_get, find, miss, make, leave_get, acquire, release,
  crash,
}
use terraform_provider_awsut.MutexKv.System.{System, Step, pick, init, Reach, here, later}
use terraform_provider_awsut.MutexKv.Invariant.{Holds, Safe, Keeps-Safe, Move-Keeps, Move-Safe}

-- The key that a thread has locked: from the return of `Lock` until the mutex is unlocked.
abbrev pub locked_key : Pc → Option Text
locked_key idle = none
locked_key (called locking key) = none
locked_key (called unlocking key) = some key
locked_key (in_get locking key) = none
locked_key (in_get unlocking key) = some key
locked_key (missing locking key) = none
locked_key (missing unlocking key) = some key
locked_key (returning locking key p) = none
locked_key (returning unlocking key p) = some key
locked_key (got locking key p) = none
locked_key (got unlocking key p) = some key
locked_key (inside key) = some key
locked_key crashed = none

some_key :
    {a b : Text} {i : ℕ} (m : Memory)
    → ◌≡◌ {A = Option Text} (some a) (some b)
    → Holds i m a
    → Holds i m b
some_key m e (p, at, by) = (p, cc, by)

locked-Holds :
    (i : ℕ) (m : Memory) (key : Text) (pc : Pc)
    → Safe i m pc
    → locked_key pc ≡ some key
    → Holds i m key
locked-Holds i m key idle h e = cc
locked-Holds i m key (called locking k) h e = cc
locked-Holds i m key (called unlocking k) h e = some_key m e h
locked-Holds i m key (in_get locking k) h e = cc
locked-Holds i m key (in_get unlocking k) (own, h) e = some_key m e h
locked-Holds i m key (missing locking k) h e = cc
locked-Holds i m key (missing unlocking k) (own, none_yet, h) e = some_key m e h
locked-Holds i m key (returning locking k p) h e = cc
locked-Holds i m key (returning unlocking k p) (own, at, h) e = some_key m e h
locked-Holds i m key (got locking k p) h e = cc
locked-Holds i m key (got unlocking k p) (at, h) e = some_key m e h
locked-Holds i m key (inside k) h e = some_key m e h
locked-Holds i m key crashed h e = cc

same_holder : {i j : ℕ} (m : Memory) (key : Text) → Holds i m key → Holds j m key → i ≡ j
same_holder m key (p, at, by) (q, found, held) = cc

abbrev AllSafe : System → Type 0
AllSafe s = (j : ℕ) → Safe j s.memory (s.pc j)

Step-AllSafe : {s t : System} → Step s t → AllSafe s → AllSafe t
unfolding update
Step-AllSafe {s} (pick i {m} {p} move) h j = elim (Bool-cases (eqb i j)) [
  | inl same ↦ let at_i : i ≡ j = ground arith in rw same (rw (← at_i) (Move-Safe move (h i)))
  | inr other ↦ rw other (Keeps-Safe (Move-Keeps j (ground arith) move (h i)) (s.pc j) (h j))
]

pub Reach-AllSafe : {s : System} → Reach init s → (j : ℕ) → Safe j s.memory (s.pc j)
Reach-AllSafe here j = tt
Reach-AllSafe (later r st) j = Step-AllSafe st (Reach-AllSafe r) j

-- Two threads that have both locked a key, at any time, are one thread.
pub Reach-exclusive :
    {s : System} (i j : ℕ) (key : Text)
    → Reach init s
    → locked_key (s.pc i) ≡ some key
    → locked_key (s.pc j) ≡ some key
    → i ≡ j
Reach-exclusive {s} i j key r at_i at_j =
    same_holder s.memory key (locked-Holds i s.memory key (s.pc i) (Reach-AllSafe r i) at_i)
      (locked-Holds j s.memory key (s.pc j) (Reach-AllSafe r j) at_j)

-- No thread unlocks a mutex that is not locked, if each unlocks a key that it has locked.
pub Reach-not_crashed : {s : System} (i : ℕ) → Reach init s → s.pc i ≢ crashed
Reach-not_crashed {s} i r e = subst (Safe i s.memory) e (Reach-AllSafe r i)

-- Mutexes are numbered from 0, those that were not made yet are free, and no two keys have the same one.
pub record IsTidy (m : Memory) : Type 0 where
  pub below : (key : Text) (p : ℕ) → lookup key m.store ≡ some p → p < m.made
  pub fresh : (p : ℕ) → m.made ≤ p → m.held p ≡ none
  pub apart : (k l : Text) (p : ℕ) → lookup k m.store ≡ some p → lookup l m.store ≡ some p → k ≡ l

Move-IsTidy : {i : ℕ} {m n : Memory} {p q : Pc} → Move i m p n q → Safe i m p → IsTidy m → IsTidy n
unfolding update
Move-IsTidy (call_lock key) h tidy = tidy
Move-IsTidy call_unlock h tidy = tidy
Move-IsTidy (enter_get free) h tidy = record {
  below = tidy.below;
  fresh = tidy.fresh;
  apart = tidy.apart;
}
Move-IsTidy (find at) h tidy = tidy
Move-IsTidy (miss at) h tidy = tidy
Move-IsTidy {m} (make {key}) h tidy = record {
  below = λ k p at. ground (arith, lookup-insert k key m.made m.store, tidy.below k p);
  fresh = λ p above. tidy.fresh p (omega arith);
  apart = λ k l p at_k at_l. ground (
    arith,
    lookup-insert k key m.made m.store,
    lookup-insert l key m.made m.store,
    eq_iff key k,
    eq_iff key l,
    tidy.below k p,
    tidy.below l p,
    tidy.apart k l p,
  );
}
Move-IsTidy (leave_get) h tidy = record {
  below = tidy.below;
  fresh = tidy.fresh;
  apart = tidy.apart;
}
Move-IsTidy {m} (acquire {key} {p} free) (at, h) tidy = record {
  below = tidy.below;
  fresh = λ q above. ground (arith, tidy.below key p at, tidy.fresh q above);
  apart = tidy.apart;
}
Move-IsTidy (release taken) h tidy = record {
  below = tidy.below;
  fresh = λ q above. ground (arith, tidy.fresh q above);
  apart = tidy.apart;
}
Move-IsTidy (crash free) h tidy = tidy

pub Reach-IsTidy : {s : System} → Reach init s → IsTidy s.memory
unfolding lookup
Reach-IsTidy here = record {
  below = λ key p at. cc;
  fresh = λ p above. refl;
  apart = λ k l p at_k at_l. cc;
}
Reach-IsTidy (later r (pick i move)) = Move-IsTidy move (Reach-AllSafe r i) (Reach-IsTidy r)
