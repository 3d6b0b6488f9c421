-- ===== src/ThreadPool/Tests.antt =====
-- A queue as the pool, a run with it, and the theorem there.
use linux_application_layer.Common.{
  ℕ, suc, ◌+◌, ◌≤◌, ◌<◌, ◌≡◌, refl, ◌⊎◌, false, Option, none, some, List, [], ◌∷◌, ◌++◌, length,
  length-append, dec_lt, ℕ_discrete, arith,
}
use linux_application_layer.ThreadPool.Api.{PoolApi, same}
use linux_application_layer.ThreadPool.{
  Worker, sleeping, max_threads, System, main_at, task_func, by_main, starts, by_worker, begun,
  Reach, start, next, ended,
}
use linux_application_layer.ThreadPool.Counts.{sum, sum-append}
use linux_application_layer.ThreadPool.Finish.{CanStep, PastFree, Done, all_completed}

abbrev take_first : List ℕ → Option (ℕ × List ℕ)
take_first [] = none
take_first (x ∷ xs) = some (x, xs)

taken_waiting :
    (p q : List ℕ) (y x : ℕ)
    → take_first p ≡ some (y, q)
    → sum (same x) p ≡ sum (same x) q + same x y
taken_waiting [] q y x e = ground (arith, e)
taken_waiting (z ∷ zs) q y x e = ground (arith, e)

taken_length : (p q : List ℕ) (y : ℕ) → take_first p ≡ some (y, q) → length p ≡ suc (length q)
taken_length [] q y e = ground (arith, e)
taken_length (z ∷ zs) q y e = ground (arith, e)

none_taken : (p : List ℕ) → take_first p ≡ none → length p ≡ 0
none_taken [] e = refl
none_taken (z ∷ zs) e = ground (arith, e)

none_waits : (p : List ℕ) (x : ℕ) → length p ≡ 0 → sum (same x) p ≡ 0
none_waits [] x e = refl
none_waits (z ∷ zs) x e = absurd (omega (arith, e))

abbrev first_in_first_out : PoolApi
first_in_first_out = record {
  State = List ℕ;
  fresh = [];
  push = λ p y. p ++ (y ∷ []);
  pick = take_first;
  waiting = λ p x. sum (same x) p;
  unprocessed = length;
  fresh_waiting = λ x. refl;
  fresh_unprocessed = refl;
  push_waiting = λ p y x. omega (arith, sum-append (same x) p (y ∷ []));
  push_unprocessed = λ p y. omega (arith, length-append p (y ∷ []));
  pick_waiting = taken_waiting;
  pick_unprocessed = taken_length;
  pick_none = none_taken;
  none_waiting = none_waits;
}

record Run : Type 0 where
  steps : ℕ
  last : System first_in_first_out
  reach : Reach first_in_first_out steps last

step_main :
    (r : Run) (o : Option (System first_in_first_out))
    → main_at first_in_first_out r.last.main r.last ≡ o
    → Run
step_main r none e = r
step_main r (some t) e = record { steps = suc r.steps; last = t; reach = next r.reach (by_main e) }

step_start :
    (r : Run) (o : Option (ℕ × List ℕ))
    → Dec (length r.last.running < max_threads)
    → take_first r.last.pool ≡ o
    → Run
step_start r (some (d, p)) (yes l) e = record {
  steps = suc r.steps;
  last = _;
  reach = next r.reach (starts l e);
}
step_start r _ _ e = r

step_worker : (r : Run) (ws : List Worker) → r.last.running ≡ ws → Run
step_worker r [] e = r
step_worker r (w ∷ ws) e = record {
  steps = suc r.steps;
  last = _;
  reach = next r.reach (by_worker [] w ws e);
}

data Turn : Type 0 where
  main_goes thread_starts thread_goes : Turn

play : Run → List Turn → Run
unfolding step_main step_start step_worker
play r [] = r
play r (main_goes ∷ ts) = play (step_main r (main_at first_in_first_out r.last.main r.last) refl) ts
play r (thread_starts ∷ ts) =
    play (step_start r (take_first r.last.pool) (dec_lt (length r.last.running) max_threads) refl)
      ts
play r (thread_goes ∷ ts) = play (step_worker r r.last.running refl) ts

-- The first task is pushed, started, and has freed its block.
abbrev first_task : Run
first_task =
    play (record { steps = 0; last = begun first_in_first_out; reach = start })
      (main_goes ∷ main_goes ∷ thread_starts ∷ thread_goes ∷ thread_goes ∷ thread_goes ∷ [])

first_task_lem :
    (first_task.last.running ≡ record { data_block = 1; pc = sleeping 1 } ∷ [])
    × (first_task.last.memory.heap 1 ≡ none)
unfolding play main_at task_func dec_lt ℕ_discrete
first_task_lem = (refl, refl)

all_completed_example :
    ((first_task.last.main ≡ ended) ⊎ CanStep first_in_first_out first_task.last)
    × (first_task.steps ≤ 83)
    × (length first_task.last.running ≤ max_threads)
    × (first_task.last.memory.fault ≡ false)
    × (PastFree first_in_first_out first_task.last.main → Done first_in_first_out first_task.last)
all_completed_example = all_completed first_in_first_out first_task.reach
