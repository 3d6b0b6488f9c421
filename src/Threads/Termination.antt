-- ===== src/Threads/Termination.antt =====
-- Every schedule of the threads ends: a run has a bounded number of steps.
use linux_application_layer.Common.{
  ℕ, ◌+◌, ◌-◌, ◌*◌, ◌≤◌, ◌<◌, ◌≡◌, refl, some, arith, total, total-update, total-eq_of_all,
}
use linux_application_layer.Threads.{
  Program, Main, creating, joining, finished, System, Step, create, created, run, join, print,
  Reach, here, next,
}
use linux_application_layer.Threads.Joined.{Reach-Joined, Joined}

module _ {Mem Pc : Type 0} (P : Program Mem Pc) (n : ℕ) (cost : Pc → ℕ)
    (start_cost : (i : ℕ) → cost (P.start i) < cost P.unborn)
    (body_cost : (m m' : Mem) (p p' : Pc) → P.body m p ≡ some (m', p') → cost p' < cost p) where
  abbrev main_cost : Main → ℕ
  main_cost (creating i) = (n - i) + n + 2
  main_cost (joining i) = (n - i) + 1
  main_cost (finished v) = 0

  work : System Mem Pc → ℕ
  work s = total cost n s.pc + main_cost s.main

  work-Step : {s t : System Mem Pc} → Joined P n s → Step P n s t → work t < work s
  unfolding work
  work-Step {s} inv (create {i} e lt) =
      ground
        (arith, start_cost i, total-update cost n s.pc i (P.start i) lt, inv.unborn_above i i e)
  work-Step {s} inv (created e le) = ground arith
  work-Step {s} inv (run i {m = m} {p = p} lt e) =
      ground (arith, body_cost s.mem m (s.pc i) p e, total-update cost n s.pc i p lt)
  work-Step {s} inv (join e lt d) = ground arith
  work-Step {s} inv (print e le) = ground arith

  work-Reach :
      {m₀ : Mem} {k : ℕ} {s : System Mem Pc}
      → Reach P n m₀ k s
      → k + work s ≤ n * cost P.unborn + 2 * n + 2
  unfolding work
  work-Reach here =
      omega (arith, total-eq_of_all cost (cost P.unborn) n (λ _. P.unborn) (λ i h. refl))
  work-Reach (next {k = k} {s = s} {t = t} r st) =
      omega (arith, work-Reach r, work-Step (Reach-Joined P n r) st)

  -- No run takes more steps than this.
  pub steps_bounded :
      {m₀ : Mem} {k : ℕ} {s : System Mem Pc} → Reach P n m₀ k s → k ≤ n * cost P.unborn + 2 * n + 2
  steps_bounded {s = s} r = omega (arith, work-Reach r)
