-- ===== src/ThreadPool.antt =====
-- thread_test/thread_pool_test.c: ten tasks for a pool of five threads, with a block of the heap for
-- each. The pool is glib's, and a parameter.
pub mod Api
pub mod Counts
pub mod Workers
pub mod Invariant
pub mod Rounds
pub mod Finish
mod Tests
use linux_application_layer.Common.{
  ℕ, zero, suc, ◌+◌, ◌<◌, ◌≡◌, Bool, true, false, Option, none, some, List, [], ◌∷◌, ◌++◌,
  if◌then◌else◌, ltb, ◌==◌, length, update, ◌⊎◌, inl, inr,
}
use linux_application_layer.ThreadPool.Api.{PoolApi}

-- `task_func`: before `*(int*)data`, before `free`, before its first print, before the end of
-- `sleep(1)`, before its last print.
pub data TaskPc : Type 0 where
  reading : TaskPc
  freeing executing sleeping completing : ℕ → TaskPc

-- A thread of the pool that runs `task_func`.
pub record Worker : Type 0 where
  pub data_block : ℕ
  pub pc : TaskPc

-- `main`: before `malloc` in the round `i`, before `g_thread_pool_push`, at `g_thread_pool_free`,
-- before the last print, at its end.
pub data MainPc : Type 0 where
  allocating pushing : ℕ → MainPc
  waiting_for_all telling ended : MainPc

abbrev pub tasks : ℕ
tasks = 10

abbrev pub max_threads : ℕ
max_threads = 5

-- The blocks of the heap with the int in each, what was printed as completed, the latest first, and
-- whether a block was read or freed that was not there.
pub record Memory : Type 0 where
  pub heap : ℕ → Option ℕ
  pub completed : List ℕ
  pub fault : Bool

-- A thread that has returned from `task_func` is `none`.
pub record Work : Type 0 where
  pub memory : Memory
  pub worker : Option Worker

abbrev read_block : Option ℕ → Worker → Memory → Work
read_block (some v) w m = record { memory = m; worker = some (record w { pc = freeing v }) }
read_block none w m = record { memory = record m { fault = true }; worker = none }

abbrev free_block : Option ℕ → ℕ → Worker → Memory → Work
free_block (some u) v w m = record {
  memory = record m { heap = update m.heap w.data_block none };
  worker = some (record w { pc = executing v });
}
free_block none v w m = record { memory = record m { fault = true }; worker = none }

unfoldable pub task_func : TaskPc → Worker → Memory → Work
task_func reading w m = read_block (m.heap w.data_block) w m
task_func (freeing v) w m = free_block (m.heap w.data_block) v w m
task_func (executing v) w m = record { memory = m; worker = some (record w { pc = sleeping v }) }
task_func (sleeping v) w m = record { memory = m; worker = some (record w { pc = completing v }) }
task_func (completing v) w m = record {
  memory = record m { completed = v ∷ m.completed };
  worker = none;
}

abbrev pub still_there : Option Worker → List Worker
still_there none = []
still_there (some w) = w ∷ []

module _ (api : PoolApi) where
  pub record System : Type 0 where
    pub pool : api.State
    pub running : List Worker
    pub memory : Memory
    pub main : MainPc

  -- `g_thread_pool_free(pool, FALSE, TRUE)` returns when nothing waits and nothing runs. Block `i + 1`
  -- is the one of the round `i`.
  unfoldable pub main_at : MainPc → System → Option System
  main_at (allocating i) s =
      if ltb i tasks
      then some (record s {
        memory = record s.memory { heap = update s.memory.heap (i + 1) (some (i + 1)) };
        main = pushing i;
      })
      else some (record s { main = waiting_for_all })
  main_at (pushing i) s =
      some (record s { pool = api.push s.pool (i + 1); main = allocating (i + 1) })
  main_at waiting_for_all s =
      if (api.unprocessed s.pool + length s.running) == 0
      then some (record s { main = telling })
      else none
  main_at telling s = some (record s { main = ended })
  main_at ended s = none

  -- After a step of a thread among the others.
  abbrev pub worked : System → List Worker → Worker → List Worker → System
  worked s before w after =
      let work = task_func w.pc w s.memory in
      record s { memory = work.memory; running = before ++ (still_there work.worker ++ after) }

  pub data Step (s : System) : System → Type 0 where
    by_main : {t : System} → main_at s.main s ≡ some t → Step s t
    starts :
        {d : ℕ} {p : api.State}
        → length s.running < max_threads
        → api.pick s.pool ≡ some (d, p)
        → Step s
            (record s { pool = p; running = record { data_block = d; pc = reading } ∷ s.running })
    by_worker :
        (before : List Worker) (w : Worker) (after : List Worker)
        → s.running ≡ before ++ (w ∷ after)
        → Step s (worked s before w after)

  -- `main` with the new pool.
  abbrev pub begun : System
  begun = record {
    pool = api.fresh;
    running = [];
    memory = record { heap = λ x. none; completed = []; fault = false };
    main = allocating 0;
  }

  -- `g_thread_pool_new`: without a pool `main` returns 1.
  abbrev pub new_pool : (created : Bool) → ℕ ⊎ System
  new_pool created = if created then inr begun else inl 1

  -- `Reach k s`: `s` after `k` steps.
  pub data Reach : ℕ → System → Type 0 where
    start : Reach 0 begun
    next : {k : ℕ} {s t : System} → Reach k s → Step s t → Reach (suc k) t
