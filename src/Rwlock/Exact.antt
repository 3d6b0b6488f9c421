-- ===== src/Rwlock/Exact.antt =====
-- Writers exclude everyone, no increment is lost, every run ends, and the prints are snapshots.
use linux_application_layer.Common.{
  ℕ, ◌+◌, ◌*◌, ◌%◌, ◌^◌, ◌≤◌, ◌<◌, ◌≡◌, refl, ◌≢◌, ◌⊎◌, true, some, inl, inr, List, arith, total,
  total-congr, pair-le-total, le-total, ap, get_or, dec_lt, Option-cases,
}
use linux_application_layer.Threads.{
  Reach, System, Main, creating, joining, finished, create, created, join, print,
}
use linux_application_layer.Threads.Joined.{Reach-Joined}
use linux_application_layer.Threads.Termination
use linux_application_layer.Rwlock.{
  Role, reader, writer, Pc, unborn, done, rd_start, rd_entered, rd_printed, wr_start, wr_asleep,
  wr_entered, wr_stored, wr_printed, wr_loaded, Mem, Config, rdlock, wrlock, run_at, start_of,
  program, initial, thread_count, writers_first, mixed, Runs, MainStep,
}
use linux_application_layer.Rwlock.Invariant.{reads, writes, Consistent}
use linux_application_layer.Rwlock.Moves.{CanStep, someone_moves}
use linux_application_layer.Rwlock.Counted.{role, stored, Reach-Counted}

module _ (c : Config) (locks : c.writers_lock ≡ true) (n : ℕ) where
  -- What is left at the end is the number of the writers.
  final_counts :
      {k : ℕ} {s : System Mem Pc} (v : ℕ)
      → Reach (program c) n initial k s
      → s.main ≡ finished v
      → v ≡ total (λ k. k) n (λ j. stored (role c n j) done) % 2 ^ 32
  final_counts {s = s} v r e =
      let ended = Reach-Joined (program c) n r in
      omega (
        arith,
        ended.printed v e,
        (Reach-Counted c n locks r).1.count,
        total-congr (λ j. stored (role c n j)) n s.pc (λ _. done) (λ i h. ended.all_done i v e h),
      )

  main_moves :
      {k : ℕ} (s : System Mem Pc) (m : Main)
      → Reach (program c) n initial k s
      → s.main ≡ m
      → ((v : ℕ) × (s.main ≡ finished v)) ⊎ CanStep c locks n s
  main_moves s (creating i) r e = elim (dec_lt i n) [
    | yes lt ↦ inr (_, create e lt)
    | no ge ↦ inr (_, created e (omega arith))
  ]
  main_moves s (joining i) r e = elim (dec_lt i n) [
    | yes lt ↦ inr (waiting (s.pc i) refl lt)
    | no ge ↦ inr (_, print e (omega arith))
  ]
    where
      others : {p : Pc} → s.pc i ≡ p → p ≢ done → i < n → CanStep c locks n s
      others q d lt =
          someone_moves c locks n s i (Reach-Counted c n locks r).0 lt
            ((Reach-Joined (program c) n r).all_born i i e lt) (ground (arith, d))

      waiting : (p : Pc) → s.pc i ≡ p → i < n → CanStep c locks n s
      waiting done q lt = (_, join e lt q)
      waiting unborn q lt = others q (λ x. ground arith) lt
      waiting rd_start q lt = others q (λ x. ground arith) lt
      waiting rd_entered q lt = others q (λ x. ground arith) lt
      waiting rd_printed q lt = others q (λ x. ground arith) lt
      waiting wr_start q lt = others q (λ x. ground arith) lt
      waiting wr_asleep q lt = others q (λ x. ground arith) lt
      waiting wr_entered q lt = others q (λ x. ground arith) lt
      waiting (wr_loaded t) q lt = others q (λ x. ground arith) lt
      waiting wr_stored q lt = others q (λ x. ground arith) lt
      waiting wr_printed q lt = others q (λ x. ground arith) lt
  main_moves s (finished v) r e = inl (v, e)

  abbrev cost : Pc → ℕ
  cost unborn = 7
  cost wr_start = 6
  cost wr_asleep = 5
  cost wr_entered = 4
  cost (wr_loaded _) = 3
  cost wr_stored = 2
  cost wr_printed = 1
  cost rd_start = 3
  cost rd_entered = 2
  cost rd_printed = 1
  cost done = 0

  cost-step : (m m' : Mem) (p p' : Pc) → run_at c m p ≡ some (m', p') → cost p' < cost p
  unfolding run_at
  cost-step m m' rd_start p' e = ground (arith, Option-cases (rdlock c.prefer_writer m.rwlock))
  cost-step m m' rd_entered p' e = ground arith
  cost-step m m' rd_printed p' e = ground arith
  cost-step m m' wr_start p' e = ground (arith, locks, Option-cases (wrlock m.rwlock))
  cost-step m m' wr_asleep p' e = ground (arith, Option-cases (wrlock m.rwlock))
  cost-step m m' wr_entered p' e = ground arith
  cost-step m m' (wr_loaded t) p' e = ground arith
  cost-step m m' wr_stored p' e = ground arith
  cost-step m m' wr_printed p' e = ground arith
  cost-step m m' unborn p' e = ground arith
  cost-step m m' done p' e = ground arith

  start_cost : (r : Role) → cost (start_of c r) < 7
  start_cost reader = omega arith
  start_cost writer = omega arith

  bounded : {k : ℕ} {s : System Mem Pc} → Reach (program c) n initial k s → k ≤ n * 7 + 2 * n + 2
  bounded r =
      Termination.steps_bounded (program c) n cost (λ i. start_cost (role c n i)) cost-step r

  -- In every state that a program reaches whose writers take the lock: while a writer has it, no
  -- other thread has it for writing or for reading; and each value that a reader has printed is the
  -- number (as a 32-bit integer) of the increments that the writers had printed before it.
  pub reads_are_snapshots :
      {k : ℕ} {s : System Mem Pc}
      → Reach (program c) n initial k s
      → ((i j : ℕ)
          → i < n
          → j < n
          → i ≢ j
          → writes (s.pc i) ≡ 1
          → reads (s.pc j) + writes (s.pc j) ≡ 0)
        × Consistent s.mem.output
  reads_are_snapshots {s = s} r =
      let inv = (Reach-Counted c n locks r).0 in
      (
        λ i j hi hj ne w. omega (
          arith,
          inv.reading,
          inv.writing,
          inv.one,
          inv.apart,
          pair-le-total writes n s.pc i j hi hj ne,
          le-total writes n s.pc i hi,
          le-total reads n s.pc j hj,
        ),
        inv.log,
      )

writers_of : List Role → ℕ
writers_of plan = total (λ k. k) thread_count (λ j. stored (get_or plan j reader) done)

two_writers : (plan : List Role) → (plan ≡ writers_first) ⊎ (plan ≡ mixed) → writers_of plan ≡ 2
unfolding total writers_of
two_writers plan (inl e) = ap writers_of e
two_writers plan (inr e) = ap writers_of e

-- The thread functions of all the programs but rwlock_test_writer_unlock, in the two orders of
-- creation that there are: the shared integer is 2 when `main` ends; until then some thread or `main`
-- can take a step, so that neither kind of lock makes a deadlock; and no run has more than 74 steps.
pub ends_at_2 :
    (c : Config) {k : ℕ} {s : System Mem Pc}
    → c.writers_lock ≡ true
    → (c.plan ≡ writers_first) ⊎ (c.plan ≡ mixed)
    → Runs c k s
    → ((v : ℕ) → s.main ≡ finished v → v ≡ 2)
      × (((v : ℕ) × (s.main ≡ finished v)) ⊎ ((t : System Mem Pc) × MainStep c s t))
      × (k ≤ 74)
unfolding writers_of
ends_at_2 c {s = s} locks order r = (
  λ v e. omega (arith, final_counts c locks thread_count v r e, two_writers c.plan order),
  main_moves c locks thread_count s s.main r refl,
  omega (arith, bounded c locks thread_count r),
)
