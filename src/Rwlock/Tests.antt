-- ===== src/Rwlock/Tests.antt =====
-- Runs of the readers and writers, and the theorems there.
use linux_application_layer.Common.{
  ℕ, ◌+◌, ◌≤◌, ◌<◌, ◌≡◌, refl, ◌≢◌, ◌⊎◌, ◌↔◌, inl, true, false, [], ◌∷◌, ℕ_discrete, dec_lt,
}
use linux_application_layer.Threads.{System, finished}
use linux_application_layer.Threads.Schedule.{main, thread, Run, schedule}
use linux_application_layer.Rwlock.{
  Pc, Mem, run_at, rdlock, wrlock, unlock, value_is, incremented, program, initial, thread_count,
  MainStep, rwlock_test,
}
use linux_application_layer.Rwlock.Invariant.{reads, writes, Consistent}
use linux_application_layer.Rwlock.Exact.{reads_are_snapshots, ends_at_2}
use linux_application_layer.Rwlock.Preference.{Overtaking, mixed_program, overtakes_iff}
use linux_application_layer.Rwlock.Turns.{Pc-same}

-- The first writer works while the second sleeps; then a reader reads.
abbrev test_run : Run (program rwlock_test) Pc-same thread_count initial
test_run = schedule (program rwlock_test) Pc-same thread_count initial (
    main
    ∷ main
    ∷ main
    ∷ thread 0
    ∷ thread 1
    ∷ thread 2
    ∷ thread 0
    ∷ thread 0
    ∷ thread 0
    ∷ thread 0
    ∷ thread 2
    ∷ thread 2
    ∷ thread 1
    ∷ thread 2
    ∷ thread 1
    ∷ [])

test_run_prints : test_run.last.mem.output ≡ value_is 1 ∷ incremented ∷ []
unfolding schedule Pc-same run_at rdlock wrlock unlock ℕ_discrete dec_lt
test_run_prints = refl

reads_are_snapshots_example :
    ((i j : ℕ)
      → i < thread_count
      → j < thread_count
      → i ≢ j
      → writes (test_run.last.pc i) ≡ 1
      → reads (test_run.last.pc j) + writes (test_run.last.pc j) ≡ 0)
    × Consistent test_run.last.mem.output
reads_are_snapshots_example = reads_are_snapshots rwlock_test refl thread_count test_run.reach

ends_at_2_example :
    ((v : ℕ) → test_run.last.main ≡ finished v → v ≡ 2)
    × (((v : ℕ) × (test_run.last.main ≡ finished v))
        ⊎ ((t : System Mem Pc) × MainStep rwlock_test test_run.last t))
    × (test_run.steps ≤ 74)
ends_at_2_example = ends_at_2 rwlock_test refl (inl refl) test_run.reach

overtakes_iff_example : Overtaking (mixed_program true) ↔ (true ≡ false)
overtakes_iff_example = overtakes_iff true

abbrev one : ℕ
one = 1
