-- ===== src/ThreadPool/Finish.antt =====
-- The pool finishes, and then every task was done once and every block freed.
use linux_application_layer.Common.{
  ℕ, suc, ◌+◌, ◌-◌, ◌*◌, ◌≤◌, ◌<◌, ◌≡◌, refl, ◌≢◌, subst, ap, ◌∙◌, Option, none, some, List, [],
  ◌∷◌, ◌++◌, arith, false, length, ◌⊎◌, inl, inr, Option-cases,
}
use linux_application_layer.ThreadPool.Api.{same, PoolApi}
use linux_application_layer.ThreadPool.{
  Worker, task_func, still_there, MainPc, allocating, pushing, waiting_for_all, telling, ended,
  tasks, max_threads, System, main_at, worked, Step, by_main, starts, by_worker, Reach, start, next,
}
use linux_application_layer.ThreadPool.Counts.{
  sum, alive, holds, undone, steps, hand, to_come, after, same_self,
}
use linux_application_layer.ThreadPool.Invariant.{Inv, Idle, between, worker_works}
use linux_application_layer.ThreadPool.Rounds.{Reach-Inv}

abbrev main_left : MainPc → ℕ
main_left (allocating i) = 8 * (tasks - i) + 3
main_left (pushing i) = 8 * (tasks - i) + 2
main_left waiting_for_all = 2
main_left telling = 1
main_left ended = 0

module _ (api : PoolApi) where
  abbrev left : System api → ℕ
  left s = main_left s.main + 6 * api.unprocessed s.pool + sum steps s.running

  main_shrinks :
      (s t : System api) (p : MainPc)
      → s.main ≡ p
      → ((i : ℕ) → p ≡ pushing i → i < tasks)
      → main_at api p s ≡ some t
      → suc (left t) ≡ left s
  unfolding main_at
  main_shrinks s t (allocating i) q h e = ground arith
  main_shrinks s t (pushing i) q h e = ground (arith, h i refl, api.push_unprocessed s.pool (i + 1))
  main_shrinks s t waiting_for_all q h e = ground arith
  main_shrinks s t telling q h e = ground arith
  main_shrinks s t ended q h e = ground arith

  in_range : (s : System api) (i : ℕ) → s.main ≡ pushing i → Inv api s → i < tasks
  in_range s i q inv =
      let full : hand (i + 1) s.main ≡ 1 = rw q (same_self (i + 1)) in
      ground (arith, full, inv.all (i + 1))

  worker_shrinks :
      (s : System api) (before : List Worker) (w : Worker) (rest : List Worker)
      → s.running ≡ before ++ (w ∷ rest)
      → Inv api s
      → suc (left (worked api s before w rest)) ≡ left s
  worker_shrinks s before w rest q inv =
      let work = task_func w.pc w s.memory in
      let k = worker_works api s before w rest q inv in
      let old = ap (sum steps) q ∙ between api steps before (w ∷ []) rest in
      let new = between api steps before (still_there work.worker) rest in
      omega (arith, old, new, k.nearer)

  Reach-left : {k : ℕ} {s : System api} → Reach api k s → k + left s ≡ 83
  Reach-left start = omega (arith, api.fresh_unprocessed)
  Reach-left (next {s} {t} r (by_main e)) =
      let h = main_shrinks s t s.main refl (λ i q. in_range s i q (Reach-Inv api r)) e in
      omega (arith, Reach-left r, h)
  Reach-left (next {s} r (starts {d} {p} l e)) =
      omega (arith, Reach-left r, api.pick_unprocessed s.pool p d e)
  Reach-left (next {s} r (by_worker before w rest q)) =
      omega (arith, Reach-left r, worker_shrinks s before w rest q (Reach-Inv api r))

  abbrev pub CanStep : System api → Type 0
  CanStep s = (t : System api) × Step api s t

  main_runs :
      (s : System api) (o : Option (System api)) → main_at api s.main s ≡ o → o ≢ none → CanStep s
  main_runs s (some t) e h = (t, by_main e)
  main_runs s none e h = absurd (h refl)

  main_moves :
      (s : System api) (p : MainPc)
      → s.main ≡ p
      → api.unprocessed s.pool + length s.running ≡ 0
      → (s.main ≡ ended) ⊎ CanStep s
  unfolding main_at
  main_moves s (allocating i) q h = inr (main_runs s (main_at api s.main s) refl (ground arith))
  main_moves s (pushing i) q h = inr (main_runs s (main_at api s.main s) refl (ground arith))
  main_moves s waiting_for_all q h = inr (main_runs s (main_at api s.main s) refl (ground arith))
  main_moves s telling q h = inr (main_runs s (main_at api s.main s) refl (ground arith))
  main_moves s ended q h = inl q

  -- A thread runs on; else one starts on a block that waits; else `main` goes on.
  mover : (s : System api) (ws : List Worker) → s.running ≡ ws → (s.main ≡ ended) ⊎ CanStep s
  mover s (w ∷ ws) q = inr (_, by_worker [] w ws q)
  mover s [] q = elim (Option-cases (api.pick s.pool)) [
    | inr ((d, p), e) ↦ inr (_, starts (ground arith) e)
    | inl e ↦ main_moves s s.main refl (ground (arith, api.pick_none s.pool e))
  ]

  -- Each task from 1 to 10 was completed once, no other, and the heap is empty.
  pub record Done (s : System api) : Type 0 where
    pub once : (x : ℕ) → sum (same x) s.memory.completed ≡ after 0 x
    pub freed : (x : ℕ) → s.memory.heap x ≡ none

  none_left : (o : Option ℕ) → alive o ≡ 0 → o ≡ none
  none_left none h = refl
  none_left (some v) h = absurd (omega arith)

  empty_list : (xs : List Worker) → length xs ≡ 0 → xs ≡ []
  empty_list [] h = refl
  empty_list (x ∷ xs) h = absurd (omega arith)

  done :
      (s : System api)
      → ((x : ℕ) → hand x s.main ≡ 0)
      → ((x : ℕ) → to_come x s.main ≡ 0)
      → api.unprocessed s.pool + length s.running ≡ 0
      → Inv api s
      → Done s
  done s hands coming h inv = record {
    once = λ x. omega (arith, inv.all x, hands x, coming x, waits x, runs (undone x));
    freed = λ x.
        none_left (s.memory.heap x) (omega (arith, inv.live x, hands x, waits x, runs (holds x)));
  }
    where
      waits : (x : ℕ) → api.waiting s.pool x ≡ 0
      waits x = api.none_waiting s.pool x (omega (arith, h))

      runs : (f : Worker → ℕ) → sum f s.running ≡ 0
      runs f = rw (empty_list s.running (omega (arith, h))) refl

  -- `main` is at its last print or behind it.
  abbrev pub PastFree : MainPc → Type 0
  PastFree telling = Unit
  PastFree ended = Unit
  PastFree _ = ⊥

  past_free : (s : System api) (p : MainPc) → s.main ≡ p → PastFree p → Inv api s → Done s
  past_free s (allocating i) q h inv = absurd h
  past_free s (pushing i) q h inv = absurd h
  past_free s waiting_for_all q h inv = absurd h
  past_free s telling q h inv =
      done s (λ x. rw q refl) (λ x. rw q refl)
        (subst (λ p. Idle p (api.unprocessed s.pool + length s.running)) q inv.idle) inv
  past_free s ended q h inv =
      done s (λ x. rw q refl) (λ x. rw q refl)
        (subst (λ p. Idle p (api.unprocessed s.pool + length s.running)) q inv.idle) inv

  -- With any pool that gives each block pushed to one thread, thread_pool_test.c ends after 83 steps
  -- of `main` and the threads, and until then one of them can step; at most five tasks run at once, no
  -- block is read or freed that is not in the heap, and when `main` prints that all tasks are
  -- completed, each of the tasks 1 to 10 has been, once, and every block is freed.
  pub all_completed :
      {k : ℕ} {s : System api}
      → Reach api k s
      → ((s.main ≡ ended) ⊎ CanStep s)
        × (k ≤ 83)
        × (length s.running ≤ max_threads)
        × (s.memory.fault ≡ false)
        × (PastFree s.main → Done s)
  all_completed {k} {s} r =
      let inv = Reach-Inv api r in
      (
        mover s s.running refl,
        omega (arith, Reach-left r),
        inv.few,
        inv.safe,
        λ h. past_free s s.main refl h inv,
      )
