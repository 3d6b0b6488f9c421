-- ===== src/ThreadPool/Workers.antt =====
-- A step of `task_func`, where its block is in the heap until it frees it.
use linux_application_layer.Common.{
  ℕ, suc, ◌+◌, ◌≤◌, ◌≡◌, refl, ◌∙◌, sym, Option, none, some, arith, update, ℕ_discrete,
}
use linux_application_layer.ThreadPool.Api.{same}
use linux_application_layer.ThreadPool.{
  TaskPc, reading, freeing, executing, sleeping, completing, Worker, Memory, Work, task_func,
  still_there,
}
use linux_application_layer.ThreadPool.Counts.{
  sum, alive, holds, undone, wrong, steps, same_self, same_other, update_self, update_other,
}

-- A block holds its own number.
abbrev pub Own : Memory → Type 0
Own m = (y v : ℕ) → m.heap y ≡ some v → v ≡ y

pub record Worked (w : Worker) (m : Memory) (work : Work) : Type 0 where
  pub safe : work.memory.fault ≡ m.fault
  pub live :
      (x : ℕ)
      → alive (work.memory.heap x) + holds x w
        ≡ alive (m.heap x) + sum (holds x) (still_there work.worker)
  pub done :
      (x : ℕ)
      → sum (same x) work.memory.completed + sum (undone x) (still_there work.worker)
        ≡ sum (same x) m.completed + undone x w
  pub right : sum wrong (still_there work.worker) ≡ 0
  pub nearer : suc (sum steps (still_there work.worker)) ≡ steps w
  pub own : Own work.memory

alive_some : (o : Option ℕ) → 1 ≤ alive o → (v : ℕ) × (o ≡ some v)
alive_some none h = absurd (omega arith)
alive_some (some v) h = (v, refl)

pub works :
    (m : Memory) (d : ℕ) (pc : TaskPc)
    → Own m
    → wrong (record { data_block = d; pc = pc }) ≡ 0
    → holds d (record { data_block = d; pc = pc }) ≤ alive (m.heap d)
    → Worked
        (record { data_block = d; pc = pc })
        m
        (task_func pc (record { data_block = d; pc = pc }) m)
unfolding task_func
works m d reading own h a =
    let (v, e) = alive_some (m.heap d) (ground (arith, a)) in
    rw e (record {
      safe = refl;
      live = λ x. omega arith;
      done = λ x. omega arith;
      right = ground (arith, own d v e);
      nearer = refl;
      own = own;
    })
works m d (freeing v) own h a =
    let (u, e) = alive_some (m.heap d) (ground (arith, a)) in
    rw e (record {
      safe = refl;
      live = λ x. freed x u e;
      done = λ x. omega arith;
      right = omega (arith, h);
      nearer = refl;
      own = λ y z q. others y z q;
    })
  where
    freed :
        (x u : ℕ)
        → m.heap d ≡ some u
        → alive (update m.heap d none x) + same x d ≡ alive (m.heap x) + 0
    freed x u e = elim (ℕ_discrete x d) [
      | yes q ↦ rw (q, update_self m.heap d none, same_self d, e) refl
      | no n ↦ rw (update_other m.heap d x none n, same_other x d n) refl
    ]

    others : (y z : ℕ) → update m.heap d none y ≡ some z → z ≡ y
    others y z q = elim (ℕ_discrete y d) [
      | yes p ↦ absurd (ground (arith, q, p, update_self m.heap d none))
      | no n ↦ own y z (sym (update_other m.heap d y none n) ∙ q)
    ]
works m d (executing v) own h a = record {
  safe = refl;
  live = λ x. omega arith;
  done = λ x. omega arith;
  right = omega (arith, h);
  nearer = refl;
  own = own;
}
works m d (sleeping v) own h a = record {
  safe = refl;
  live = λ x. omega arith;
  done = λ x. omega arith;
  right = omega (arith, h);
  nearer = refl;
  own = own;
}
works m d (completing v) own h a =
    let e : v ≡ d = ground (arith, h) in
    record {
      safe = refl;
      live = λ x. omega arith;
      done = λ x. rw e (omega arith);
      right = refl;
      nearer = refl;
      own = own;
    }
