-- ===== src/Rwlock/Moves.antt =====
-- Some thread can always go on: no two of them wait for each other.
use linux_application_layer.Common.{
  ℕ, ◌+◌, ◌<◌, ◌≡◌, refl, ◌≢◌, true, Option, none, some, arith, dec_lt, total, member_of_total,
  Option-cases,
}
use linux_application_layer.Threads.{System, Step, run}
use linux_application_layer.Rwlock.{
  Pc, unborn, done, rd_start, rd_entered, rd_printed, wr_start, wr_asleep, wr_entered, wr_stored,
  wr_printed, wr_loaded, Mem, Config, rdlock, wrlock, run_at, program,
}
use linux_application_layer.Rwlock.Lock.{rdlock_refuses, wrlock_refuses}
use linux_application_layer.Rwlock.Invariant.{reads, writes, sleeps, Inv}

module _ (c : Config) (locks : c.writers_lock ≡ true) (n : ℕ) where
  abbrev pub CanStep : System Mem Pc → Type 0
  CanStep s = (t : System Mem Pc) × Step (program c) n s t

  thread_steps :
      (s : System Mem Pc) (i : ℕ) (o : Option (Mem × Pc))
      → i < n
      → run_at c s.mem (s.pc i) ≡ o
      → o ≢ none
      → CanStep s
  thread_steps s i (some (m, p)) lt e h = (_, run i lt e)
  thread_steps s i none lt e h = absurd (h refl)

  thread_runs :
      (s : System Mem Pc) (i : ℕ) (p : Pc)
      → i < n
      → s.pc i ≡ p
      → run_at c s.mem p ≢ none
      → CanStep s
  thread_runs s i p lt e h = thread_steps s i (run_at c s.mem (s.pc i)) lt refl (ground (arith, h))

  inside_runs : (m : Mem) (p : Pc) → 0 < reads p + writes p → run_at c m p ≢ none
  unfolding run_at
  inside_runs m rd_entered h e = ground arith
  inside_runs m rd_printed h e = ground arith
  inside_runs m wr_entered h e = ground arith
  inside_runs m (wr_loaded t) h e = ground arith
  inside_runs m wr_stored h e = ground arith
  inside_runs m wr_printed h e = ground arith
  inside_runs m unborn h e = absurd (omega arith)
  inside_runs m done h e = absurd (omega arith)
  inside_runs m rd_start h e = absurd (omega arith)
  inside_runs m wr_start h e = absurd (omega arith)
  inside_runs m wr_asleep h e = absurd (omega arith)

  -- The lock is free and a writer sleeps: it wakes.
  asleep_runs :
      (m : Mem) (p : Pc)
      → m.rwlock.writing ≡ 0
      → m.rwlock.readers ≡ 0
      → 0 < sleeps p
      → run_at c m p ≢ none
  unfolding run_at
  asleep_runs m wr_asleep w r h e =
      ground (arith, Option-cases (wrlock m.rwlock), wrlock_refuses m.rwlock)
  asleep_runs m rd_entered w r h e = absurd (omega arith)
  asleep_runs m rd_printed w r h e = absurd (omega arith)
  asleep_runs m wr_entered w r h e = absurd (omega arith)
  asleep_runs m (wr_loaded t) w r h e = absurd (omega arith)
  asleep_runs m wr_stored w r h e = absurd (omega arith)
  asleep_runs m wr_printed w r h e = absurd (omega arith)
  asleep_runs m unborn w r h e = absurd (omega arith)
  asleep_runs m done w r h e = absurd (omega arith)
  asleep_runs m rd_start w r h e = absurd (omega arith)
  asleep_runs m wr_start w r h e = absurd (omega arith)

  idle_runs :
      (m : Mem) (p : Pc)
      → m.rwlock.writing ≡ 0
      → m.rwlock.readers ≡ 0
      → m.rwlock.asleep ≡ 0
      → p ≢ unborn
      → p ≢ done
      → run_at c m p ≢ none
  unfolding run_at
  idle_runs m rd_start w r a b d e = ground (
    arith,
    Option-cases (rdlock c.prefer_writer m.rwlock),
    rdlock_refuses c.prefer_writer m.rwlock,
  )
  idle_runs m wr_start w r a b d e = ground (arith, locks)
  idle_runs m wr_asleep w r a b d e =
      ground (arith, Option-cases (wrlock m.rwlock), wrlock_refuses m.rwlock)
  idle_runs m rd_entered w r a b d e = ground arith
  idle_runs m rd_printed w r a b d e = ground arith
  idle_runs m wr_entered w r a b d e = ground arith
  idle_runs m (wr_loaded t) w r a b d e = ground arith
  idle_runs m wr_stored w r a b d e = ground arith
  idle_runs m wr_printed w r a b d e = ground arith
  idle_runs m unborn w r a b d e = b refl
  idle_runs m done w r a b d e = d refl

  pub someone_moves :
      (s : System Mem Pc) (i : ℕ)
      → Inv c locks n s.mem s.pc
      → i < n
      → s.pc i ≢ unborn
      → s.pc i ≢ done
      → CanStep s
  someone_moves s i inv lt b d = elim (dec_lt 0 (total writes n s.pc)) [
    | yes w ↦
        let (j, h, q) = member_of_total writes n s.pc w in
        thread_runs s j (s.pc j) h refl (inside_runs s.mem (s.pc j) (omega arith))
    | no w ↦ elim (dec_lt 0 (total reads n s.pc)) [
      | yes r ↦
          let (j, h, q) = member_of_total reads n s.pc r in
          thread_runs s j (s.pc j) h refl (inside_runs s.mem (s.pc j) (omega arith))
      | no r ↦
          let none_writes : s.mem.rwlock.writing ≡ 0 = omega (arith, inv.writing) in
          let none_reads : s.mem.rwlock.readers ≡ 0 = omega (arith, inv.reading) in
          elim (dec_lt 0 (total sleeps n s.pc)) [
            | yes a ↦
                let (j, h, q) = member_of_total sleeps n s.pc a in
                thread_runs s j (s.pc j) h refl
                  (asleep_runs s.mem (s.pc j) none_writes none_reads q)
            | no a ↦
                thread_runs s i (s.pc i) lt refl
                  (idle_runs s.mem (s.pc i) none_writes none_reads (omega (arith, inv.asleep)) b d)
          ]
    ]
  ]
