-- ===== src/ThreadPool/Invariant.antt =====
-- Each block is in one place: still to come, in the hand of `main`, waiting, with a thread, or done.
use linux_application_layer.Common.{
  ℕ, ◌+◌, ◌≤◌, ◌<◌, ◌≡◌, refl, ap, ◌∙◌, Option, none, some, List, [], ◌∷◌, ◌++◌, arith, false,
  length, length-append,
}
use linux_application_layer.ThreadPool.Api.{same, PoolApi}
use linux_application_layer.ThreadPool.{
  reading, Worker, Work, task_func, still_there, MainPc, allocating, pushing, waiting_for_all,
  telling, ended, max_threads, System, worked, begun,
}
use linux_application_layer.ThreadPool.Counts.{
  sum, sum-append, alive, holds, undone, wrong, hand, to_come, after,
}
use linux_application_layer.ThreadPool.Workers.{Own, Worked, works}

-- After `g_thread_pool_free` nothing waits and nothing runs.
abbrev pub Idle : MainPc → ℕ → Type 0
Idle telling n = n ≡ 0
Idle ended n = n ≡ 0
Idle _ n = Unit

weaker : (p : MainPc) (m n : ℕ) → m ≤ n → Idle p n → Idle p m
weaker (allocating i) m n h a = tt
weaker (pushing i) m n h a = tt
weaker waiting_for_all m n h a = tt
weaker telling m n h a = omega (arith, h, a)
weaker ended m n h a = omega (arith, h, a)

module _ (api : PoolApi) where
  pub record Inv (s : System api) : Type 0 where
    pub live :
        (x : ℕ)
        → alive (s.memory.heap x) ≡ hand x s.main + api.waiting s.pool x + sum (holds x) s.running
    pub all :
        (x : ℕ)
        → sum (same x) s.memory.completed
            + sum (undone x) s.running
            + api.waiting s.pool x
            + hand x s.main
            + to_come x s.main
          ≡ after 0 x
    pub right : sum wrong s.running ≡ 0
    pub own : Own s.memory
    pub safe : s.memory.fault ≡ false
    pub few : length s.running ≤ max_threads
    pub idle : Idle s.main (api.unprocessed s.pool + length s.running)

  pub begun-Inv : Inv (begun api)
  begun-Inv = record {
    live = λ x. omega (arith, api.fresh_waiting x);
    all = λ x. omega (arith, api.fresh_waiting x);
    right = refl;
    own = λ y v e. ground (arith, e);
    safe = refl;
    few = omega arith;
    idle = tt;
  }

  pub starts-Inv :
      (s : System api) (d : ℕ) (p : api.State)
      → length s.running < max_threads
      → api.pick s.pool ≡ some (d, p)
      → Inv s
      → Inv (record s { pool = p; running = record { data_block = d; pc = reading } ∷ s.running })
  starts-Inv s d p l e inv = record {
    live = λ x. omega (arith, inv.live x, api.pick_waiting s.pool p d x e);
    all = λ x. omega (arith, inv.all x, api.pick_waiting s.pool p d x e);
    right = omega (arith, inv.right);
    own = inv.own;
    safe = inv.safe;
    few = omega (arith, l);
    idle = weaker s.main _ _ (omega (arith, api.pick_unprocessed s.pool p d e)) inv.idle;
  }

  -- What a thread among the others makes of a sum.
  pub between :
      (f : Worker → ℕ) (before mid after_ : List Worker)
      → sum f (before ++ (mid ++ after_)) ≡ sum f before + sum f mid + sum f after_
  between f before mid rest =
      omega (arith, sum-append f before (mid ++ rest), sum-append f mid rest)

  still_one : (o : Option Worker) → length (still_there o) ≤ 1
  still_one none = omega arith
  still_one (some w) = omega arith

  -- A thread that has not freed its block finds it in the heap.
  pub worker_works :
      (s : System api) (before : List Worker) (w : Worker) (rest : List Worker)
      → s.running ≡ before ++ (w ∷ rest)
      → Inv s
      → Worked w s.memory (task_func w.pc w s.memory)
  worker_works s before w rest q inv =
      let d = w.data_block in
      let fine : wrong w ≡ 0 = omega (arith, inv.right, old wrong) in
      let owner : holds d w ≤ alive (s.memory.heap d) = omega (arith, inv.live d, old (holds d)) in
      works s.memory d w.pc inv.own fine owner
    where
      old : (f : Worker → ℕ) → sum f s.running ≡ sum f before + (f w + 0) + sum f rest
      old f = ap (sum f) q ∙ between f before (w ∷ []) rest

  pub worker-Inv :
      (s : System api) (before : List Worker) (w : Worker) (rest : List Worker)
      → s.running ≡ before ++ (w ∷ rest)
      → Inv s
      → Inv (worked api s before w rest)
  worker-Inv s before w rest q inv =
      let k = worker_works s before w rest q inv in
      record {
        live = λ x. omega (arith, inv.live x, k.live x, old (holds x), new (holds x));
        all = λ x. omega (arith, inv.all x, k.done x, old (undone x), new (undone x));
        right = omega (arith, inv.right, k.right, old wrong, new wrong);
        own = k.own;
        safe = k.safe ∙ inv.safe;
        few = omega (arith, inv.few, count);
        idle = weaker s.main _ _ (omega (arith, count)) inv.idle;
      }
    where
      work : Work
      work = task_func w.pc w s.memory

      old : (f : Worker → ℕ) → sum f s.running ≡ sum f before + (f w + 0) + sum f rest
      old f = ap (sum f) q ∙ between f before (w ∷ []) rest

      new :
          (f : Worker → ℕ)
          → sum f (before ++ (still_there work.worker ++ rest))
            ≡ sum f before + sum f (still_there work.worker) + sum f rest
      new f = between f before (still_there work.worker) rest

      count : length (before ++ (still_there work.worker ++ rest)) ≤ length s.running
      count = omega (
        arith,
        ap length q,
        length-append before (w ∷ rest),
        length-append before (still_there work.worker ++ rest),
        length-append (still_there work.worker) rest,
        still_one work.worker,
      )
