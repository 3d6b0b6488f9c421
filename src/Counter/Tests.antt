-- ===== src/Counter/Tests.antt =====
-- Runs of the counting programs, and their theorems at these runs.
use linux_application_layer.Common.{ℕ, ◌≤◌, ◌≡◌, refl, ◌⊎◌, ◌↔◌, Bool, [], ◌∷◌, arith, ℕ_discrete}
use linux_application_layer.Threads.{System, finished}
use linux_application_layer.Threads.Schedule.{main, thread, Run, schedule}
use linux_application_layer.Counter.Lock.{mutex, mutex_lock, mutex_unlock, binary_semaphore}
use linux_application_layer.Counter.Guarded
use linux_application_layer.Counter.Guarded.{Mem}
use linux_application_layer.Counter.Guarded.Exact.{mutual_exclusion}
use linux_application_layer.Counter.MutexTest
use linux_application_layer.Counter.SemBinThread
use linux_application_layer.Counter.RaceConditionTest

Pc-same : (p : Guarded.Pc) → Dec (p ≡ Guarded.done)
Pc-same Guarded.done = yes refl
Pc-same Guarded.unborn = no (λ e. ground arith)
Pc-same Guarded.start = no (λ e. ground arith)
Pc-same Guarded.entered = no (λ e. ground arith)
Pc-same (Guarded.loaded t) = no (λ e. ground arith)
Pc-same Guarded.stored = no (λ e. ground arith)

-- Two threads under the mutex, taking turns; the second waits while the first is inside.
abbrev two_under_mutex : Run (Guarded.program mutex) Pc-same 2 (Guarded.initial mutex)
two_under_mutex = schedule (Guarded.program mutex) Pc-same 2 (Guarded.initial mutex) (
    main
    ∷ main
    ∷ main
    ∷ thread 0
    ∷ thread 1
    ∷ thread 0
    ∷ thread 0
    ∷ thread 1
    ∷ thread 0
    ∷ thread 1
    ∷ thread 1
    ∷ thread 1
    ∷ thread 1
    ∷ main
    ∷ main
    ∷ main
    ∷ [])

two_under_mutex_prints : two_under_mutex.last.main ≡ finished 2
unfolding schedule Pc-same Guarded.add_one mutex_lock mutex_unlock ℕ_discrete
two_under_mutex_prints = refl

-- The first thread is inside, the second is at the lock.
abbrev one_inside : Run (Guarded.program mutex) Pc-same 2 (Guarded.initial mutex)
one_inside =
    schedule (Guarded.program mutex) Pc-same 2 (Guarded.initial mutex)
      (main ∷ main ∷ main ∷ thread 0 ∷ thread 1 ∷ [])

mutual_exclusion_example : ◌≡◌ {A = ℕ} 0 0
unfolding schedule Pc-same Guarded.add_one mutex_lock mutex_unlock ℕ_discrete
mutual_exclusion_example =
    mutual_exclusion mutex 2 0 0 one_inside.reach (omega arith) (omega arith) refl refl

-- One of the 20000 threads has added one and returned.
abbrev mutex_run :
    Run (Guarded.program mutex) Pc-same MutexTest.thread_count (Guarded.initial mutex)
mutex_run =
    schedule (Guarded.program mutex) Pc-same MutexTest.thread_count (Guarded.initial mutex)
      (main ∷ main ∷ thread 0 ∷ thread 0 ∷ thread 0 ∷ thread 0 ∷ [])

prints_20000_example :
    ((v : ℕ) → mutex_run.last.main ≡ finished v → v ≡ 20000)
    × (((v : ℕ) × (mutex_run.last.main ≡ finished v))
        ⊎ ((t : System (Mem Bool) Guarded.Pc) × MutexTest.MainStep mutex_run.last t))
    × (mutex_run.steps ≤ 140002)
prints_20000_example = MutexTest.prints_20000 mutex_run.reach

abbrev semaphore_run :
    Run
      (Guarded.program binary_semaphore)
      Pc-same
      SemBinThread.thread_count
      (Guarded.initial binary_semaphore)
semaphore_run =
    schedule (Guarded.program binary_semaphore) Pc-same SemBinThread.thread_count
      (Guarded.initial binary_semaphore)
      (main ∷ main ∷ thread 1 ∷ thread 0 ∷ thread 1 ∷ thread 1 ∷ thread 1 ∷ thread 0 ∷ [])

-- Of 20000 racing threads all but one may be lost.
prints_iff_20000_example : RaceConditionTest.CanPrint 1 ↔ (1 ≤ 1) × (1 ≤ 20000)
prints_iff_20000_example = RaceConditionTest.prints_iff_20000 1
