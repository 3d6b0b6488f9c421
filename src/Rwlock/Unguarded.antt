-- ===== src/Rwlock/Unguarded.antt =====
-- thread_test/rwlock_test_writer_unlock.c: how it can end.
use linux_application_layer.Common.{
  ℕ, zero, suc, ◌≤◌, ◌≡◌, refl, ◌↔◌, List, [], ◌∷◌, ◌++◌, arith, total, total-congr, get_or, dec_lt,
  ℕ_discrete,
}
use linux_application_layer.Threads.{System, finished}
use linux_application_layer.Threads.Joined.{Reach-Joined}
use linux_application_layer.Threads.Schedule.{Turn, main, thread, schedule}
use linux_application_layer.Rwlock.{
  Role, reader, Pc, done, Mem, rdlock, wrlock, unlock, run_at, program, initial, Runs,
}
use linux_application_layer.Rwlock.Counted.{role, stored}
use linux_application_layer.Rwlock.Turns.{Pc-same}
use linux_application_layer.Rwlock.Bounds.{c, n, stores, Reach-Inv}

writers_of : List Role → ℕ
writers_of plan = total (λ k. k) n (λ j. stored (get_or plan j reader) done)

two_writers : writers_of c.plan ≡ 2
unfolding total writers_of
two_writers = refl

ends_within :
    {k : ℕ} {s : System Mem Pc} (v : ℕ) → Runs c k s → s.main ≡ finished v → (1 ≤ v) × (v ≤ 2)
unfolding writers_of
ends_within {s = s} v r e =
    let ended = Reach-Joined (program c) n r in
    let all : stores s.pc ≡ writers_of c.plan =
      total-congr (λ j. stored (role c n j)) n s.pc (λ _. done) (λ i h. ended.all_done i v e h) in
    omega
      (arith, ended.printed v e, two_writers, all, (Reach-Inv r).at_most, (Reach-Inv r).at_least)

abbrev pub CanEnd : ℕ → Type 0
CanEnd v = (k : ℕ) × (s : System Mem Pc) × Runs c k s × (s.main ≡ finished v)

-- `main` creates, the writers go as given, then each reader, and `main` joins.
abbrev around : List Turn → List Turn
around writers =
    main
    ∷ main
    ∷ main
    ∷ main
    ∷ main
    ∷ main
    ∷ main
    ∷ main
    ∷ main
    ∷ (writers
        ++ (thread 2
            ∷ thread 2
            ∷ thread 2
            ∷ thread 3
            ∷ thread 3
            ∷ thread 3
            ∷ thread 4
            ∷ thread 4
            ∷ thread 4
            ∷ thread 5
            ∷ thread 5
            ∷ thread 5
            ∷ thread 6
            ∷ thread 6
            ∷ thread 6
            ∷ thread 7
            ∷ thread 7
            ∷ thread 7
            ∷ main
            ∷ main
            ∷ main
            ∷ main
            ∷ main
            ∷ main
            ∷ main
            ∷ main
            ∷ main
            ∷ []))

abbrev both_read : List Turn
both_read =
    thread 0
    ∷ thread 1
    ∷ thread 0
    ∷ thread 1
    ∷ thread 0
    ∷ thread 0
    ∷ thread 0
    ∷ thread 1
    ∷ thread 1
    ∷ thread 1
    ∷ []

abbrev one_by_one : List Turn
one_by_one =
    thread 0
    ∷ thread 0
    ∷ thread 0
    ∷ thread 0
    ∷ thread 0
    ∷ thread 1
    ∷ thread 1
    ∷ thread 1
    ∷ thread 1
    ∷ thread 1
    ∷ []

ends_1 : CanEnd 1
unfolding schedule Pc-same run_at rdlock wrlock unlock ℕ_discrete dec_lt
ends_1 =
    let r = schedule (program c) Pc-same n initial (around both_read) in
    (r.steps, r.last, r.reach, refl)

ends_2 : CanEnd 2
unfolding schedule Pc-same run_at rdlock wrlock unlock ℕ_discrete dec_lt
ends_2 =
    let r = schedule (program c) Pc-same n initial (around one_by_one) in
    (r.steps, r.last, r.reach, refl)

-- In rwlock_test_writer_unlock the shared integer can be exactly 1 or 2 when `main` ends: the two
-- writers, which do not take the lock, can lose one increment and no more.
pub unguarded_ends_iff : (v : ℕ) → CanEnd v ↔ ((1 ≤ v) × (v ≤ 2))
unguarded_ends_iff v = (λ (k, s, r, e). ends_within v r e, from v)
  where
    from : (v : ℕ) → (1 ≤ v) × (v ≤ 2) → CanEnd v
    from zero h = absurd (omega (arith, h.0))
    from (suc zero) h = ends_1
    from (suc (suc zero)) h = ends_2
    from (suc (suc (suc u))) h = absurd (omega (arith, h.1))
