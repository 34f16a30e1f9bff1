-- ===== src/Examples/Mutexes.antt =====
-- A thread that locks a key, beside another one that has called `Lock` of the same key.
use terraform_provider_awsut.Prelude.{ℕ, ◌≡◌, ◌≢◌, refl, some, Text, codes}
use terraform_provider_awsut.Prelude.Map.{lookup, insert}
use terraform_provider_awsut.MutexKv.{
  idle, called, locking, inside, update, new_mutex_kv, call_lock, enter_get, miss, make, leave_get,
  acquire,
}
use terraform_provider_awsut.MutexKv.System.{System, init, Reach, here, later, pick}
use terraform_provider_awsut.MutexKv.Exclusion.{locked_key, Reach-exclusive}
use terraform_provider_awsut.MutexKv.Progress.{Reach-inside}

abbrev key : Text
key = codes "k"

-- Thread 1 has called `Lock`.
abbrev waiting : System
waiting = record { memory = new_mutex_kv; pc = update (λ i. idle) 1 (called locking key) }

waiting-Reach : Reach init waiting
waiting-Reach = later here (pick 1 (call_lock key))

Reach-inside_example :
    (t : System) × Reach waiting t
    × (t.pc 1 ≡ inside key)
    × ((j : ℕ) → 1 ≢ j → t.pc j ≡ waiting.pc j)
unfolding update lookup
Reach-inside_example = Reach-inside {s = waiting} 1 key waiting-Reach refl refl (λ p found. cc)

-- Thread 0 has locked the key while thread 1 stands before `get`.
locked :
    (s : System) × Reach init s × (locked_key (s.pc 0) ≡ some key) × (s.pc 1 ≡ called locking key)
unfolding update lookup insert
locked = (
  _,
  later
      (later
        (later
          (later (later (later waiting-Reach (pick 0 (call_lock key))) (pick 0 (enter_get refl)))
            (pick 0 (miss refl)))
          (pick 0 make))
        (pick 0 leave_get))
      (pick 0 (acquire refl)),
  refl,
  refl,
)

Reach-exclusive_example : ◌≡◌ {A = ℕ} 0 0
Reach-exclusive_example = Reach-exclusive {s = locked.0} 0 0 key locked.1 locked.2 locked.2
