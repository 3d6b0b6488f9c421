-- ===== src/Counter/RaceConditionTest.antt =====
-- thread_test/race_condition_test.c: 20000 threads add one with no lock.
use linux_application_layer.Common.{ℕ, ◌≤◌, ◌≡◌, ◌↔◌, Option, arith}
use linux_application_layer.Threads.{System, Step, Reach, finished}
use linux_application_layer.Counter.Racy.{Pc, add_one, program}
use linux_application_layer.Counter.Racy.Bounds.{prints_between}
use linux_application_layer.Counter.Racy.Attained.{prints_any}

abbrev pub thread_count : ℕ
thread_count = 20000

abbrev pub add_thread : ℕ → Pc → Option (ℕ × Pc)
add_thread = add_one

abbrev pub MainStep : System ℕ Pc → System ℕ Pc → Type 0
MainStep = Step program thread_count

-- The states of the program after so many steps.
abbrev pub Runs : ℕ → System ℕ Pc → Type 0
Runs = Reach program thread_count 0

-- Some schedule makes `main` print this number.
abbrev pub CanPrint : ℕ → Type 0
CanPrint v = (k : ℕ) × (s : System ℕ Pc) × Runs k s × (s.main ≡ finished v)

-- The numbers that the program can print are exactly those from 1 to 20000.
pub prints_iff_20000 : (v : ℕ) → CanPrint v ↔ (1 ≤ v) × (v ≤ 20000)
prints_iff_20000 v = (
  λ (k, s, r, e). prints_between thread_count (omega arith) v (omega arith) r e,
  λ (lo, hi). prints_any thread_count v lo hi (omega arith),
)
