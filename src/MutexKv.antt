-- ===== src/MutexKv.antt =====
-- internal/mutexkv/mutexkv.go: mutexes by key, which threads lock and unlock in any order. Every access to what
-- the threads share is a step.
pub mod System
pub mod Invariant
pub mod Exclusion
pub mod Progress
use terraform_provider_awsut.Prelude.{ℕ, ◌+◌, ◌≡◌, Option, none, some, [], Text, eqb, if◌then◌else◌}
use terraform_provider_awsut.Prelude.Map.{Entries, lookup, insert}

-- `MutexKV`, with the mutexes that it made, numbered from 0: a mutex that was made last has the number
-- `made - 1`. Of `m.lock` and of each mutex, the thread that has locked it.
pub record Memory : Type 0 where
  pub lock : Option ℕ
  pub store : Entries ℕ
  pub made : ℕ
  pub held : ℕ → Option ℕ

-- `NewMutexKV`
abbrev pub new_mutex_kv : Memory
new_mutex_kv = record { lock = none; store = []; made = 0; held = λ p. none }

pub data Task : Type 0 where
  locking : Task
  unlocking : Task

-- Where a thread stands, which unlocks the key that it has locked before it locks the next one.
pub data Pc : Type 0 where
  idle : Pc  -- outside, without a key
  called : Task → Text → Pc  -- start of `get`, called by `Lock` or `Unlock`
  in_get : Task → Text → Pc  -- after `m.lock.Lock()`
  missing : Task → Text → Pc  -- in the branch `!ok`
  returning : Task → Text → ℕ → Pc  -- before the deferred `m.lock.Unlock()`
  got : Task → Text → ℕ → Pc  -- before `.Lock()` or `.Unlock()` of the mutex that `get` returned
  inside : Text → Pc  -- after `Lock`, before `Unlock`
  crashed : Pc  -- an unlock of a mutex that is not locked

unfoldable pub update {ℓ} : {A : Type ℓ} → (ℕ → A) → ℕ → A → ℕ → A
update f i a j = if eqb i j then a else f j

-- One step of the thread `i`.
pub data Move (i : ℕ) (m : Memory) : Pc → Memory → Pc → Type 0 where
  call_lock : (key : Text) → Move i m idle m (called locking key)
  call_unlock : {key : Text} → Move i m (inside key) m (called unlocking key)
  enter_get :
      {task : Task} {key : Text}
      → m.lock ≡ none
      → Move i m (called task key) (record m { lock = some i }) (in_get task key)
  find :
      {task : Task} {key : Text} {p : ℕ}
      → lookup key m.store ≡ some p
      → Move i m (in_get task key) m (returning task key p)
  miss :
      {task : Task} {key : Text}
      → lookup key m.store ≡ none
      → Move i m (in_get task key) m (missing task key)
  make :
      {task : Task} {key : Text}
      → Move i m
          (missing task key)
          (record m { store = insert key m.made m.store; made = m.made + 1 })
          (returning task key m.made)
  leave_get :
      {task : Task} {key : Text} {p : ℕ}
      → Move i m (returning task key p) (record m { lock = none }) (got task key p)
  acquire :
      {key : Text} {p : ℕ}
      → m.held p ≡ none
      → Move i m (got locking key p) (record m { held = update m.held p (some i) }) (inside key)
  release :
      {key : Text} {p j : ℕ}
      → m.held p ≡ some j
      → Move i m (got unlocking key p) (record m { held = update m.held p none }) idle
  crash : {key : Text} {p : ℕ} → m.held p ≡ none → Move i m (got unlocking key p) m crashed
