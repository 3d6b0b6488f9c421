-- ===== src/Counter/MutexTest.antt =====
-- thread_test/mutex_test.c: 20000 threads add one under a mutex.
use linux_application_layer.Common.{ℕ, ◌≤◌, ◌≡◌, Bool, Option, ◌⊎◌, arith}
use linux_application_layer.Threads.{System, Step, Reach, finished}
use linux_application_layer.Counter.Lock.{mutex}
use linux_application_layer.Counter.Guarded.{Pc, Mem, add_one, program, initial}
use linux_application_layer.Counter.Guarded.Exact.{prints_count, no_deadlock, steps_bounded}

abbrev pub thread_count : ℕ
thread_count = 20000

abbrev pub add_thread : Mem Bool → Pc → Option (Mem Bool × Pc)
add_thread = add_one mutex

abbrev pub MainStep : System (Mem Bool) Pc → System (Mem Bool) Pc → Type 0
MainStep = Step (program mutex) thread_count

-- The states of the program after so many steps.
abbrev pub Runs : ℕ → System (Mem Bool) Pc → Type 0
Runs = Reach (program mutex) thread_count (initial mutex)

-- In whatever order the threads run: what is printed is 20000, until it is printed some thread or
-- `main` can take a step, and no run has more than 140002 steps.
pub prints_20000 :
    {k : ℕ} {s : System (Mem Bool) Pc}
    → Runs k s
    → ((v : ℕ) → s.main ≡ finished v → v ≡ 20000)
      × (((v : ℕ) × (s.main ≡ finished v)) ⊎ ((t : System (Mem Bool) Pc) × MainStep s t))
      × (k ≤ 140002)
prints_20000 r = (
  λ v e. prints_count mutex thread_count v r e,
  no_deadlock mutex thread_count r,
  omega (arith, steps_bounded mutex thread_count r),
)
