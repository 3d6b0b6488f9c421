-- ===== src/Threads.antt =====
-- The `main` that four programs share: it creates `n` threads in a loop, joins them in a loop,
-- and prints a shared integer. Any thread that is created may run between two steps of `main`.
pub mod Joined
pub mod Invariance
pub mod Termination
pub mod Schedule
use linux_application_layer.Common.{ℕ, ◌+◌, ◌≤◌, ◌<◌, ◌≡◌, ◌≢◌, Option, none, some, update}

-- A thread function over the memory that the threads share. `body` is one atomic step of a thread
-- at a program point, `none` where the thread is blocked, has not been created or has returned.
pub record Program (Mem Pc : Type 0) : Type 0 where
  pub unborn : Pc
  pub start : ℕ → Pc  -- where the thread of a number starts
  pub done : Pc
  pub body : Mem → Pc → Option (Mem × Pc)
  pub output : Mem → ℕ
  pub done_stuck : (m : Mem) → body m done ≡ none
  pub unborn_stuck : (m : Mem) → body m unborn ≡ none
  pub stays_born : (m m' : Mem) (p p' : Pc) → body m p ≡ some (m', p') → p' ≢ unborn
  pub start_born : (i : ℕ) → start i ≢ unborn

-- The loop that `main` is in, with its index, or the number that it printed.
pub data Main : Type 0 where
  creating joining : ℕ → Main
  finished : ℕ → Main

pub record System (Mem Pc : Type 0) : Type 0 where
  pub mem : Mem
  pub main : Main
  pub pc : ℕ → Pc

module _ {Mem Pc : Type 0} (P : Program Mem Pc) (n : ℕ) where
  open P use {unborn, start, done, body, output}

  pub data Step (s : System Mem Pc) : System Mem Pc → Type 0 where
    create :
        {i : ℕ}
        → s.main ≡ creating i
        → i < n
        → Step s (record { mem = s.mem; main = creating (i + 1); pc = update s.pc i (start i) })
    created :
        {i : ℕ}
        → s.main ≡ creating i
        → n ≤ i
        → Step s (record { mem = s.mem; main = joining 0; pc = s.pc })
    run :
        (i : ℕ) {m : Mem} {p : Pc}
        → i < n
        → body s.mem (s.pc i) ≡ some (m, p)
        → Step s (record { mem = m; main = s.main; pc = update s.pc i p })
    join :
        {i : ℕ}
        → s.main ≡ joining i
        → i < n
        → s.pc i ≡ done
        → Step s (record { mem = s.mem; main = joining (i + 1); pc = s.pc })
    print :
        {i : ℕ}
        → s.main ≡ joining i
        → n ≤ i
        → Step s (record { mem = s.mem; main = finished (output s.mem); pc = s.pc })

  abbrev pub init : Mem → System Mem Pc
  init m = record { mem = m; main = creating 0; pc = λ _. unborn }

  -- The states that a run from the memory `m₀` reaches, with the number of steps taken.
  pub data Reach (m₀ : Mem) : ℕ → System Mem Pc → Type 0 where
    here : Reach m₀ 0 (init m₀)
    next : {k : ℕ} {s t : System Mem Pc} → Reach m₀ k s → Step s t → Reach m₀ (k + 1) t
