-- ===== src/Counter/SemBinThreadCondition.antt =====
-- thread_test/unnamed_sem_bin_thread_condition.c: 10000 threads add one with no lock.
use linux_application_layer.Common.{ℕ, ◌≤◌, ◌≡◌, ◌↔◌, Option, arith}
use linux_application_layer.Threads.{System, Step, Reach, finished}
use linux_application_layer.Counter.Racy.{Pc, add_one, program}
use linux_application_layer.Counter.Racy.Bounds.{prints_between}
use linux_application_layer.Counter.Racy.Attained.{prints_any}

abbrev pub thread_count : ℕ
thread_count = 10000

abbrev pub plus_one : ℕ → Pc → Option (ℕ × Pc)
plus_one = add_one

abbrev pub MainStep : System ℕ Pc → System ℕ Pc → Type 0
MainStep = Step program thread_count

-- The states of the program after so many steps.
abbrev pub Runs : ℕ → System ℕ Pc → Type 0
Runs = Reach program thread_count 0

-- Some schedule makes `main` print this number.
abbrev pub CanPrint : ℕ → Type 0
CanPrint v = (k : ℕ) × (s : System ℕ Pc) × Runs k s × (s.main ≡ finished v)

-- The numbers that the program can print are exactly those from 1 to 10000.
pub prints_iff_10000 : (v : ℕ) → CanPrint v ↔ (1 ≤ v) × (v ≤ 10000)
prints_iff_10000 v = (
  λ (k, s, r, e). prints_between thread_count (omega arith) v (omega arith) r e,
  λ (lo, hi). prints_any thread_count v lo hi (omega arith),
)
