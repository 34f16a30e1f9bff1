-- ===== src/MutexKv/Progress.antt =====
-- A thread that calls `Lock` can get in if the mutex of its key is free and nobody is inside `get`.
use terraform_provider_awsut.Prelude.{
  ℕ, ◌≡◌, ◌≢◌, refl, inl, inr, none, some, Text, arith, Option-cases,
}
use terraform_provider_awsut.Prelude.Map.{lookup}
use terraform_provider_awsut.MutexKv.{
  Memory, locking, Pc, called, inside, update, Move, enter_get, find, miss, make, leave_get,
  acquire,
}
use terraform_provider_awsut.MutexKv.System.{System, pick, init, Reach, here, later}
use terraform_provider_awsut.MutexKv.Exclusion.{IsTidy, Reach-IsTidy}

-- The steps of one thread alone.
data Run (i : ℕ) (m : Memory) (p : Pc) : Memory → Pc → Type 0 where
  start : Run i m p m p
  step : {n o : Memory} {q r : Pc} → Run i m p n q → Move i n q o r → Run i m p o r

Run-Reach :
    (i : ℕ) (s : System) {m : Memory} {p : Pc}
    → Run i s.memory (s.pc i) m p
    → (t : System) × Reach s t × (t.memory ≡ m) × (t.pc i ≡ p) × ((j : ℕ) → i ≢ j → t.pc j ≡ s.pc j)
unfolding update
Run-Reach i s start = (s, here, refl, refl, λ j other. refl)
Run-Reach i s (step {o} {r} run move) =
    let (t, reach, same_memory, same_pc, others) = Run-Reach i s run in
    let moved : Move i t.memory (t.pc i) o r = rw (same_memory, same_pc) move in
    (
      record { memory = o; pc = update t.pc i r },
      later reach (pick i moved),
      refl,
      ground arith,
      λ j other. ground (arith, others j),
    )

lock-Run :
    (i : ℕ) (m : Memory) (key : Text)
    → IsTidy m
    → m.lock ≡ none
    → ((p : ℕ) → lookup key m.store ≡ some p → m.held p ≡ none)
    → (n : Memory) × Run i m (called locking key) n (inside key)
unfolding update
lock-Run i m key tidy nobody free = elim (Option-cases (lookup key m.store)) [
  | inl none_yet ↦ (
    _,
    step (step (step (step (step start (enter_get nobody)) (miss none_yet)) make) leave_get)
        (acquire (tidy.fresh m.made (omega arith))),
  )
  | inr (p, at) ↦ (
    _,
    step (step (step (step start (enter_get nobody)) (find at)) leave_get) (acquire (free p at)),
  )
]

-- From any state that threads reach in which nobody is inside `get` and the mutex of a key, if it has one, is
-- free, a thread that has called `Lock` of the key can get in by steps of its own: some sequence of steps leads
-- to a state in which it is inside and every other thread stands where it stood. Nothing is said of sequences
-- in which another thread is faster.
pub Reach-inside :
    {s : System} (i : ℕ) (key : Text)
    → Reach init s
    → s.pc i ≡ called locking key
    → s.memory.lock ≡ none
    → ((p : ℕ) → lookup key s.memory.store ≡ some p → s.memory.held p ≡ none)
    → (t : System) × Reach s t × (t.pc i ≡ inside key) × ((j : ℕ) → i ≢ j → t.pc j ≡ s.pc j)
Reach-inside {s} i key r at nobody free =
    let (n, run) = lock-Run i s.memory key (Reach-IsTidy r) nobody free in
    let alone : Run i s.memory (s.pc i) n (inside key) = rw at run in
    let (t, reach, same_memory, same_pc, others) = Run-Reach i s alone in
    (t, reach, same_pc, others)
