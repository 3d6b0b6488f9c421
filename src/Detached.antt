-- ===== src/Detached.antt =====
-- thread_test/pthread_detach_test.c: a `main` that detaches a thread, sleeps and returns, by which the
-- thread ends too.
pub mod Log
pub mod Orders
mod Tests
use linux_application_layer.Common.{
  ℕ, ◌≡◌, Bool, true, false, Option, none, some, List, [], ◌∷◌, ◌++◌, if◌then◌else◌,
}

pub data Line : Type 0 where
  started finished : Line  -- by `task`
  create_failed continues ending : Line  -- by `main`

-- `task`: before it is created, before its first line, its `sleep`, its last line, its return.
pub data TaskPc : Type 0 where
  unborn starting sleeping finishing gone : TaskPc

-- `main`: before `pthread_create`, `pthread_detach`, its first line, its `sleep`, its last line, and
-- ended with a status.
pub data MainPc : Type 0 where
  creating detaching telling waiting closing : MainPc
  exited : ℕ → MainPc

pub record System : Type 0 where
  pub main : MainPc
  pub task : TaskPc
  pub joinable : Bool
  pub log : List Line

unfoldable pub task_at : TaskPc → System → Option System
task_at unborn s = none
task_at starting s = some (record s { task = sleeping; log = s.log ++ (started ∷ []) })
task_at sleeping s = some (record s { task = finishing })
task_at finishing s = some (record s { task = gone; log = s.log ++ (finished ∷ []) })
task_at gone s = none

-- `creates` says whether `pthread_create` succeeds.
unfoldable pub main_at : (creates : Bool) → MainPc → System → Option System
main_at creates creating s = some (
    if creates
    then record s { main = detaching; task = starting; joinable = true }
    else record s { main = exited 1; log = s.log ++ (create_failed ∷ []) })
main_at creates detaching s = some (record s { main = telling; joinable = false })
main_at creates telling s = some (record s { main = waiting; log = s.log ++ (continues ∷ []) })
main_at creates waiting s = some (record s { main = closing })
main_at creates closing s = some (record s { main = exited 0; log = s.log ++ (ending ∷ []) })
main_at creates (exited status) s = none

-- Whether the process is there: no thread of it runs after the return of `main`.
abbrev pub runs : MainPc → Bool
runs (exited status) = false
runs _ = true

abbrev pub begun : System
begun = record { main = creating; task = unborn; joinable = false; log = [] }

pub data Step (creates : Bool) (s : System) : System → Type 0 where
  by_main : {t : System} → main_at creates s.main s ≡ some t → Step creates s t
  by_task : {t : System} → runs s.main ≡ true → task_at s.task s ≡ some t → Step creates s t

pub data Reach (creates : Bool) : System → Type 0 where
  start : Reach creates begun
  next : {s t : System} → Reach creates s → Step creates s t → Reach creates t
