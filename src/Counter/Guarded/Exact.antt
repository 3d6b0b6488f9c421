-- ===== src/Counter/Guarded/Exact.antt =====
-- What the lock buys: one thread inside at a time, no lost addition, no deadlock, no endless run.
use linux_application_layer.Common.{
  ℕ, ◌+◌, ◌*◌, ◌%◌, ◌^◌, ◌≤◌, ◌<◌, ◌≡◌, refl, ◌≢◌, ◌⊎◌, some, inl, inr, arith, dec_lt, ℕ_discrete,
  total-eq_of_all, int_suc, pair-le-total, member_of_total, Option-cases,
}
use linux_application_layer.Threads.{
  Reach, System, Main, creating, joining, finished, Step, create, created, run, join, print,
}
use linux_application_layer.Threads.Joined.{Reach-Joined}
use linux_application_layer.Threads.Termination
use linux_application_layer.Counter.Lock.{Lock}
use linux_application_layer.Counter.Guarded.{
  Pc, unborn, start, entered, loaded, stored, done, Mem, add_one, program, initial,
}
use linux_application_layer.Counter.Guarded.Invariant.{holds, added, Reach-Inv}

module _ (L : Lock) (n : ℕ) where
  open L use {State, acquire, release, acquire_blocks}

  -- Two threads are never inside together.
  pub mutual_exclusion :
      {k : ℕ} {s : System (Mem State) Pc} (i j : ℕ)
      → Reach (program L) n (initial L) k s
      → i < n
      → j < n
      → holds (s.pc i) ≡ 1
      → holds (s.pc j) ≡ 1
      → i ≡ j
  mutual_exclusion {s = s} i j r hi hj wi wj = elim (ℕ_discrete i j) [
    | yes e ↦ e
    | no ne ↦
        absurd (omega (arith, (Reach-Inv L n r).permits, pair-le-total holds n s.pc i j hi hj ne))
  ]

  -- What `main` prints is the number of threads, as a 32-bit integer.
  pub prints_count :
      {k : ℕ} {s : System (Mem State) Pc} (v : ℕ)
      → Reach (program L) n (initial L) k s
      → s.main ≡ finished v
      → v ≡ n % 2 ^ 32
  prints_count {s = s} v r e = omega (
    arith,
    (Reach-Joined (program L) n r).printed v e,
    (Reach-Inv L n r).counted,
    total-eq_of_all added 1 n s.pc
        (λ i h. ground (arith, (Reach-Joined (program L) n r).all_done i v e h)),
  )

  abbrev CanStep : System (Mem State) Pc → Type 0
  CanStep s = (t : System (Mem State) Pc) × Step (program L) n s t

  inside_moves :
      (s : System (Mem State) Pc) (i : ℕ) (p : Pc) → i < n → s.pc i ≡ p → 0 < holds p → CanStep s
  unfolding add_one
  inside_moves s i entered lt e h =
      (_, run i {m = s.mem} {p = loaded (int_suc s.mem.num)} lt (ground arith))
  inside_moves s i (loaded t) lt e h =
      (_, run i {m = record s.mem { num = t }} {p = stored} lt (ground arith))
  inside_moves s i stored lt e h =
      (_, run i {m = record s.mem { lock = release s.mem.lock }} {p = done} lt (ground arith))
  inside_moves s i unborn lt e h = absurd (omega arith)
  inside_moves s i start lt e h = absurd (omega arith)
  inside_moves s i done lt e h = absurd (omega arith)

  someone_moves :
      {k : ℕ} (s : System (Mem State) Pc) (i : ℕ) (p : Pc)
      → Reach (program L) n (initial L) k s
      → i < n
      → s.pc i ≡ p
      → p ≢ unborn
      → p ≢ done
      → CanStep s
  unfolding add_one
  someone_moves s i start r lt e b d = elim (Option-cases (acquire s.mem.lock)) [
    | inl blocked ↦
        let (j, h, w) =
          member_of_total holds n s.pc
            (omega (arith, (Reach-Inv L n r).permits, acquire_blocks s.mem.lock blocked)) in
        inside_moves s j (s.pc j) h refl w
    | inr (l, got) ↦ (_, run i {m = record s.mem { lock = l }} {p = entered} lt (ground arith))
  ]
  someone_moves s i entered r lt e b d = inside_moves s i entered lt e (omega arith)
  someone_moves s i (loaded t) r lt e b d = inside_moves s i (loaded t) lt e (omega arith)
  someone_moves s i stored r lt e b d = inside_moves s i stored lt e (omega arith)
  someone_moves s i unborn r lt e b d = absurd (b refl)
  someone_moves s i done r lt e b d = absurd (d refl)

  main_moves :
      {k : ℕ} (s : System (Mem State) Pc) (m : Main)
      → Reach (program L) n (initial L) k s
      → s.main ≡ m
      → ((v : ℕ) × (s.main ≡ finished v)) ⊎ CanStep s
  main_moves s (creating i) r e = elim (dec_lt i n) [
    | yes lt ↦ inr (_, create e lt)
    | no ge ↦ inr (_, created e (omega arith))
  ]
  main_moves s (joining i) r e = elim (dec_lt i n) [
    | yes lt ↦ inr (waiting (s.pc i) refl lt)
    | no ge ↦ inr (_, print e (omega arith))
  ]
    where
      waiting : (p : Pc) → s.pc i ≡ p → i < n → CanStep s
      waiting done q lt = (_, join e lt q)
      waiting unborn q lt = absurd ((Reach-Joined (program L) n r).all_born i i e lt q)
      waiting start q lt = someone_moves s i start r lt q (λ x. ground arith) (λ x. ground arith)
      waiting entered q lt =
          someone_moves s i entered r lt q (λ x. ground arith) (λ x. ground arith)
      waiting (loaded t) q lt =
          someone_moves s i (loaded t) r lt q (λ x. ground arith) (λ x. ground arith)
      waiting stored q lt = someone_moves s i stored r lt q (λ x. ground arith) (λ x. ground arith)
  main_moves s (finished v) r e = inl (v, e)

  -- No deadlock: until `main` has printed, some thread or `main` can take a step.
  pub no_deadlock :
      {k : ℕ} {s : System (Mem State) Pc}
      → Reach (program L) n (initial L) k s
      → ((v : ℕ) × (s.main ≡ finished v)) ⊎ CanStep s
  no_deadlock {s = s} r = main_moves s s.main r refl

  abbrev cost : Pc → ℕ
  cost unborn = 5
  cost start = 4
  cost entered = 3
  cost (loaded _) = 2
  cost stored = 1
  cost done = 0

  cost-step : (m m' : Mem State) (p p' : Pc) → add_one L m p ≡ some (m', p') → cost p' < cost p
  unfolding add_one
  cost-step m m' start p' e = ground (arith, Option-cases (acquire m.lock))
  cost-step m m' unborn p' e = ground arith
  cost-step m m' entered p' e = ground arith
  cost-step m m' (loaded t) p' e = ground arith
  cost-step m m' stored p' e = ground arith
  cost-step m m' done p' e = ground arith

  -- Every run ends: seven steps for each thread, and two, are the most.
  pub steps_bounded :
      {k : ℕ} {s : System (Mem State) Pc} → Reach (program L) n (initial L) k s → k ≤ n * 7 + 2
  steps_bounded r =
      omega (arith, Termination.steps_bounded (program L) n cost (λ _. omega arith) cost-step r)
