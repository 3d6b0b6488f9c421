-- ===== src/Counter/SemBinThread.antt =====
-- thread_test/unnamed_sem_bin_thread.c: 10000 threads add one under a semaphore that starts at 1.
use linux_application_layer.Common.{ℕ, ◌≤◌, ◌≡◌, Option, ◌⊎◌, arith}
use linux_application_layer.Threads.{System, Step, Reach, finished}
use linux_application_layer.Counter.Lock.{binary_semaphore}
use linux_application_layer.Counter.Guarded.{Pc, Mem, add_one, program, initial}
use linux_application_layer.Counter.Guarded.Exact.{prints_count, no_deadlock, steps_bounded}

abbrev pub thread_count : ℕ
thread_count = 10000

abbrev pub plus_one : Mem ℕ → Pc → Option (Mem ℕ × Pc)
plus_one = add_one binary_semaphore

abbrev pub MainStep : System (Mem ℕ) Pc → System (Mem ℕ) Pc → Type 0
MainStep = Step (program binary_semaphore) thread_count

-- The states of the program after so many steps.
abbrev pub Runs : ℕ → System (Mem ℕ) Pc → Type 0
Runs = Reach (program binary_semaphore) thread_count (initial binary_semaphore)

-- In whatever order the threads run: what is printed is 10000, until it is printed some thread or
-- `main` can take a step, and no run has more than 70002 steps.
pub prints_10000 :
    {k : ℕ} {s : System (Mem ℕ) Pc}
    → Runs k s
    → ((v : ℕ) → s.main ≡ finished v → v ≡ 10000)
      × (((v : ℕ) × (s.main ≡ finished v)) ⊎ ((t : System (Mem ℕ) Pc) × MainStep s t))
      × (k ≤ 70002)
prints_10000 r = (
  λ v e. prints_count binary_semaphore thread_count v r e,
  no_deadlock binary_semaphore thread_count r,
  omega (arith, steps_bounded binary_semaphore thread_count r),
)
