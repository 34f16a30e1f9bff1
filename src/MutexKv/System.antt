-- ===== src/MutexKv/System.antt =====
-- Any number of threads over one `MutexKV`, interleaved in any order.
use terraform_provider_awsut.Prelude.{ℕ}
use terraform_provider_awsut.MutexKv.{Memory, new_mutex_kv, Pc, idle, update, Move}

pub record System : Type 0 where
  pub memory : Memory
  pub pc : ℕ → Pc

pub data Step (s : System) : System → Type 0 where
  pick :
      (i : ℕ) {m : Memory} {p : Pc}
      → Move i s.memory (s.pc i) m p
      → Step s (record { memory = m; pc = update s.pc i p })

abbrev pub init : System
init = record { memory = new_mutex_kv; pc = λ i. idle }

pub data Reach (s : System) : System → Type 0 where
  here : Reach s s
  later : {t u : System} → Reach s t → Step t u → Reach s u
