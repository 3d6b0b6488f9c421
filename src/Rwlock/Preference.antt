-- ===== src/Rwlock/Preference.antt =====
-- What PTHREAD_RWLOCK_PREFER_WRITER_NONRECURSIVE_NP buys: no reader overtakes a writer that waits.
use linux_application_layer.Common.{
  ℕ, ◌+◌, ◌<◌, ◌≡◌, refl, ◌≢◌, ◌↔◌, Bool, true, false, none, inl, inr, [], ◌∷◌, arith, le-total,
  Option-cases, ℕ_discrete, dec_lt,
}
use linux_application_layer.Threads.{System, create, created, run, join, print, next}
use linux_application_layer.Threads.Joined.{Reach-Joined}
use linux_application_layer.Threads.Schedule.{main, thread, Run, schedule}
use linux_application_layer.Rwlock.{
  Pc, rd_start, rd_entered, wr_asleep, Mem, Config, rdlock, wrlock, run_at, program, initial, mixed,
  thread_count, Runs, MainStep, rwlock_write_hungry,
}
use linux_application_layer.Rwlock.Turns.{Pc-same}
use linux_application_layer.Rwlock.Lock.{rdlock_takes}
use linux_application_layer.Rwlock.Invariant.{sleeps}
use linux_application_layer.Rwlock.Counted.{Reach-Counted}

-- The programs with a mixed order of creation, by the kind of their lock.
abbrev pub mixed_program : Bool → Config
mixed_program prefer = record { prefer_writer = prefer; writers_lock = true; plan = mixed }

-- Steps during which the thread `w` stays asleep in `wrlock`.
pub data Asleep (c : Config) (w : ℕ) (s : System Mem Pc) : System Mem Pc → Type 0 where
  still : s.pc w ≡ wr_asleep → Asleep c w s s
  later :
      {t u : System Mem Pc} → Asleep c w s t → MainStep c t u → u.pc w ≡ wr_asleep → Asleep c w s u

-- In some run a reader that had not called `rdlock` when a writer slept gets the lock before it.
pub record Overtaking (c : Config) : Type 0 where
  pub steps : ℕ
  pub before : System Mem Pc
  pub after : System Mem Pc
  pub writer_at : ℕ
  pub reader_at : ℕ
  pub reached : Runs c steps before
  pub writer_below : writer_at < thread_count
  pub reader_below : reader_at < thread_count
  pub asleep : Asleep c writer_at before after
  pub at_lock : before.pc reader_at ≡ rd_start
  pub inside : after.pc reader_at ≡ rd_entered

module _ (c : Config) (locks : c.writers_lock ≡ true) (prefer : c.prefer_writer ≡ true) where
  refused : (m : Mem) → m.rwlock.asleep ≢ 0 → run_at c m rd_start ≡ none
  unfolding run_at
  refused m h = elim (Option-cases (rdlock c.prefer_writer m.rwlock)) [
    | inl blocked ↦ ground arith
    | inr (l, got) ↦ absurd (h ((rdlock_takes c.prefer_writer m.rwlock l got).none_asleep prefer))
  ]

  some_asleep :
      {k : ℕ} {s : System Mem Pc} (w : ℕ)
      → Runs c k s
      → w < thread_count
      → s.pc w ≡ wr_asleep
      → s.mem.rwlock.asleep ≢ 0
  some_asleep {s = s} w r lt e z = ground (
    arith,
    (Reach-Counted c thread_count locks r).0.asleep,
    le-total sleeps thread_count s.pc w lt,
  )

  kept_out :
      {k : ℕ} {s t : System Mem Pc} (j : ℕ)
      → Runs c k s
      → MainStep c s t
      → s.mem.rwlock.asleep ≢ 0
      → s.pc j ≡ rd_start
      → t.pc j ≡ rd_start
  kept_out {s = s} j r (create {i} e lt) h q =
      ground (arith, (Reach-Joined (program c) thread_count r).unborn_above i i e)
  kept_out j r (created e le) h q = q
  kept_out {s = s} j r (run i {m} {p} lt e) h q = ground (arith, refused s.mem h)
  kept_out j r (join e lt d) h q = q
  kept_out j r (print e le) h q = q

  waits :
      {k : ℕ} {s : System Mem Pc} (w j : ℕ) {t : System Mem Pc}
      → Runs c k s
      → w < thread_count
      → s.pc j ≡ rd_start
      → Asleep c w s t
      → ((m : ℕ) × Runs c m t) × (t.pc w ≡ wr_asleep) × (t.pc j ≡ rd_start)
  waits {k} w j r lt q (still e) = ((k, r), e, q)
  waits {k} w j r lt q (later a st e) =
      let ((m, r'), e', q') = waits w j r lt q a in
      ((m + 1, next r' st), e, kept_out j r' st (some_asleep w r' lt e') q')

  none_passes : ¬ Overtaking c
  none_passes o =
      let (_, _, q) = waits o.writer_at o.reader_at o.reached o.writer_below o.at_lock o.asleep in
      ground (arith, o.inside)

-- All threads are created, the first reader is inside, and the second writer finds it there.
abbrev pub hungry : Run (program rwlock_write_hungry) Pc-same thread_count initial
hungry =
    schedule (program rwlock_write_hungry) Pc-same thread_count initial
      (main ∷ main ∷ main ∷ main ∷ main ∷ main ∷ main ∷ main ∷ main ∷ thread 1 ∷ thread 4 ∷ [])

overtaking : Overtaking rwlock_write_hungry
unfolding schedule Pc-same run_at rdlock wrlock ℕ_discrete dec_lt
overtaking = record {
  steps = hungry.steps;
  before = hungry.last;
  after = _;
  writer_at = 4;
  reader_at = 5;
  reached = hungry.reach;
  writer_below = omega arith;
  reader_below = omega arith;
  asleep = later (still refl) (run 5 (omega arith) refl) refl;
  at_lock = refl;
  inside = refl;
}

-- A reader can overtake a sleeping writer in rwlock_write_hungry and in rwlock_rw_alternate, whose
-- lock has the default kind, and not in rwlock_hungry_solved, whose lock prefers writers.
pub overtakes_iff : (prefer : Bool) → Overtaking (mixed_program prefer) ↔ (prefer ≡ false)
overtakes_iff true = (λ o. absurd (none_passes (mixed_program true) refl refl o), λ e. ground arith)
overtakes_iff false = (λ o. refl, λ e. overtaking)
