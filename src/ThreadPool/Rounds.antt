-- ===== src/ThreadPool/Rounds.antt =====
-- The invariant through the rounds of `main`, and in every run.
use mathlib.Core.Option.{some-injective}
use linux_application_layer.Common.{
  ℕ, ◌+◌, ◌≤◌, ◌<◌, ◌≡◌, refl, sym, subst, ◌∙◌, some, arith, ltb, ◌==◌, update, ℕ_discrete, length,
  inl, inr, Bool-cases,
}
use linux_application_layer.ThreadPool.Api.{same, PoolApi}
use linux_application_layer.ThreadPool.{
  TaskPc, reading, freeing, executing, sleeping, completing, MainPc, allocating, pushing,
  waiting_for_all, telling, ended, tasks, System, main_at, Step, by_main, starts, by_worker, Reach,
  start, next,
}
use linux_application_layer.ThreadPool.Counts.{
  sum_le, alive, holds, undone, hand, to_come, after, same_self, same_other, update_self,
  update_other,
}
use linux_application_layer.ThreadPool.Invariant.{Idle, Inv, begun-Inv, starts-Inv, worker-Inv}

module _ (api : PoolApi) where
  after_next : (i x : ℕ) → i < tasks → after i x ≡ same x (i + 1) + after (i + 1) x
  after_next i x h = ground (arith, h)

  after_last : (i x : ℕ) → tasks ≤ i → after i x ≡ 0
  after_last i x h = ground (arith, h)

  holds_undone :
      (x : ℕ) (d : ℕ) (pc : TaskPc) → holds x (record { data_block = d; pc = pc }) ≤ same x d
  holds_undone x d reading = omega arith
  holds_undone x d (freeing v) = omega arith
  holds_undone x d (executing v) = omega arith
  holds_undone x d (sleeping v) = omega arith
  holds_undone x d (completing v) = omega arith

  -- The block that `malloc` gives is not in the heap yet.
  new_block :
      (s : System api) (i : ℕ)
      → i < tasks
      → s.main ≡ allocating i
      → Inv api s
      → alive (s.memory.heap (i + 1)) ≡ 0
  new_block s i h q inv =
      let x = i + 1 in
      let empty : hand x s.main ≡ 0 = rw q refl in
      let coming : to_come x s.main ≡ 1 = rw q (ground (arith, h)) in
      let whole : after 0 x ≡ 1 = ground (arith, h) in
      let less = sum_le (holds x) (undone x) s.running (λ w. holds_undone x w.data_block w.pc) in
      omega (arith, inv.live x, inv.all x, empty, coming, whole, less)

  allocates :
      (s : System api) (i : ℕ)
      → i < tasks
      → s.main ≡ allocating i
      → Inv api s
      → Inv api (record s {
        memory = record s.memory { heap = update s.memory.heap (i + 1) (some (i + 1)) };
        main = pushing i;
      })
  allocates s i h q inv = record {
    live = λ x. elim (ℕ_discrete x (i + 1)) [
      | yes e ↦
          let none_yet = new_block s i h q inv in
          rw (e, update_self s.memory.heap (i + 1) (some (i + 1)), same_self (i + 1))
            (omega (arith, none_yet, inv.live (i + 1)))
      | no n ↦
          rw (update_other s.memory.heap (i + 1) x (some (i + 1)) n, same_other x (i + 1) n)
            (omega (arith, inv.live x, empty x))
    ];
    all = λ x. omega (arith, inv.all x, empty x, coming x, after_next i x h);
    right = inv.right;
    own = λ y v e. elim (ℕ_discrete y (i + 1)) [
      | yes p ↦ ground (arith, p, e, update_self s.memory.heap (i + 1) (some (i + 1)))
      | no n ↦ inv.own y v (sym (update_other s.memory.heap (i + 1) y (some (i + 1)) n) ∙ e)
    ];
    safe = inv.safe;
    few = inv.few;
    idle = tt;
  }
    where
      empty : (x : ℕ) → hand x s.main ≡ 0
      empty x = rw q refl

      coming : (x : ℕ) → to_come x s.main ≡ after i x
      coming x = rw q refl

  moves_on :
      (s : System api) (p : MainPc)
      → ((x : ℕ) → hand x s.main ≡ hand x p)
      → ((x : ℕ) → to_come x s.main ≡ to_come x p)
      → Idle p (api.unprocessed s.pool + length s.running)
      → Inv api s
      → Inv api (record s { main = p })
  moves_on s p hands coming rest inv = record {
    live = λ x. omega (arith, inv.live x, hands x);
    all = λ x. omega (arith, inv.all x, hands x, coming x);
    right = inv.right;
    own = inv.own;
    safe = inv.safe;
    few = inv.few;
    idle = rest;
  }

  pushes :
      (s : System api) (i : ℕ)
      → s.main ≡ pushing i
      → Inv api s
      → Inv api (record s { pool = api.push s.pool (i + 1); main = allocating (i + 1) })
  pushes s i q inv = record {
    live = λ x. omega (arith, inv.live x, full x, api.push_waiting s.pool (i + 1) x);
    all = λ x. omega (arith, inv.all x, full x, coming x, api.push_waiting s.pool (i + 1) x);
    right = inv.right;
    own = inv.own;
    safe = inv.safe;
    few = inv.few;
    idle = tt;
  }
    where
      full : (x : ℕ) → hand x s.main ≡ same x (i + 1)
      full x = rw q refl

      coming : (x : ℕ) → to_come x s.main ≡ after (i + 1) x
      coming x = rw q refl

  known : {t u : System api} → some u ≡ some t → Inv api u → Inv api t
  known e h = subst (Inv api) (some-injective _ _ e) h

  main-Inv :
      (s t : System api) (p : MainPc)
      → s.main ≡ p
      → main_at api p s ≡ some t
      → Inv api s
      → Inv api t
  unfolding main_at
  main-Inv s t (allocating i) q e inv = elim (Bool-cases (ltb i tasks)) [
    | inl b ↦ known (rw b at e) (allocates s i (ground (arith, b)) q inv)
    | inr b ↦ known (rw b at e) (
        moves_on s waiting_for_all (λ x. rw q refl) (λ x. rw q (after_last i x (ground (arith, b))))
          tt inv)
  ]
  main-Inv s t (pushing i) q e inv = known e (pushes s i q inv)
  main-Inv s t waiting_for_all q e inv =
      elim (Bool-cases ((api.unprocessed s.pool + length s.running) == 0)) [
        | inl b ↦
            known (rw b at e)
              (moves_on s telling (λ x. rw q refl) (λ x. rw q refl) (ground (arith, b)) inv)
        | inr b ↦ absurd (ground (arith, b, e))
      ]
  main-Inv s t telling q e inv = known e (
      moves_on s ended (λ x. rw q refl) (λ x. rw q refl)
        (subst (λ p. Idle p (api.unprocessed s.pool + length s.running)) q inv.idle) inv)
  main-Inv s t ended q e inv = absurd (ground (arith, e))

  Step-Inv : {s t : System api} → Step api s t → Inv api s → Inv api t
  Step-Inv {s} {t} (by_main e) inv = main-Inv s t s.main refl e inv
  Step-Inv {s} (starts {d} {p} l e) inv = starts-Inv api s d p l e inv
  Step-Inv {s} (by_worker before w rest q) inv = worker-Inv api s before w rest q inv

  pub Reach-Inv : {k : ℕ} {s : System api} → Reach api k s → Inv api s
  Reach-Inv start = begun-Inv api
  Reach-Inv (next r st) = Step-Inv st (Reach-Inv r)
