-- ===== src/Pair.antt =====
-- A father and its son that add one each to an integer in shared memory
-- (thread_test/unnamed_sem_bin_process.c, unnamed_sem_bin_process_isolate.c,
-- unnamed_sem_bin_process_condition.c and named_sem_bin.c).
pub mod Resources
pub mod Invariant
pub mod Tidy
pub mod Ends
pub mod Schedule
pub mod Race
pub mod Leftover
pub mod Private
pub mod Sleep
pub mod Illegal
mod Tests
mod IllegalTests
use mathlib.Core.Option
use linux_application_layer.Common.{ℕ, suc, ◌+◌, ◌≡◌, Option, none, some, List, [], ◌∷◌}
use linux_application_layer.Counter.Lock.{sem_wait, sem_post}
use linux_application_layer.Pair.Resources.{
  Resource, shm_sem_name, shm_value_name, sem_name, sem_map, value_map, sem_fd, value_fd, sem_ref,
  Cleanup, sem_destroy, release, unlink, clean_names, clean_held, sweep_names,
}

-- The semaphore stands in shared memory or in the system; in the memory that `fork` copies; or there
-- is none, and the two calls are left out.
pub data Guard : Type 0 where
  shared own absent : Guard

-- Before `sem_wait`, before `*value + 1` is read, before it is written back, before `sem_post`;
-- the father: closing before `waitpid` and then at it, before the print; both: cleaning up, and
-- ended when nothing is left.
pub data Pc : Type 0 where
  acquiring reading releasing printing : Pc
  writing : ℕ → Pc
  closing cleaning : List Cleanup → Pc

pub record Pair : Type 0 where
  pub value : ℕ
  pub sem : ℕ
  pub son_sem : ℕ  -- the son's copy of a semaphore in private memory
  pub father : Pc
  pub son : Pc
  pub printed : List ℕ
  pub names : List Resource
  pub father_held : List Resource
  pub son_held : List Resource

-- What a program has made before `fork`, and its calls after the addition.
pub record Program : Type 0 where
  pub names : List Resource
  pub held : List Resource
  pub before_wait : List Cleanup  -- the father's, before `waitpid`
  pub father_end : List Cleanup
  pub son_end : List Cleanup
  pub failed_end : List Cleanup  -- where `fork` failed

abbrev pub father_wait : Guard → Pair → Option Pair
father_wait shared w = Option.map (λ v. record w { sem = v; father = reading }) (sem_wait w.sem)
father_wait own w = Option.map (λ v. record w { sem = v; father = reading }) (sem_wait w.sem)
father_wait absent w = some (record w { father = reading })

abbrev pub son_wait : Guard → Pair → Option Pair
son_wait shared w = Option.map (λ v. record w { sem = v; son = reading }) (sem_wait w.sem)
son_wait own w = Option.map (λ v. record w { son_sem = v; son = reading }) (sem_wait w.son_sem)
son_wait absent w = some (record w { son = reading })

abbrev pub father_post : Guard → Pair → Pair
father_post shared w = record w { sem = sem_post w.sem }
father_post own w = record w { sem = sem_post w.sem }
father_post absent w = w

abbrev pub son_post : Guard → Pair → Pair
son_post shared w = record w { sem = sem_post w.sem }
son_post own w = record w { son_sem = sem_post w.son_sem }
son_post absent w = w

-- `waitpid` returns when the son has ended.
abbrev pub wait_son : Pc → Pair → Option Pair
wait_son (cleaning []) w = some (record w { father = printing })
wait_son _ w = none

unfoldable pub father_at : Guard → Program → Pc → Pair → Option Pair
father_at g p acquiring w = father_wait g w
father_at g p reading w = some (record w { father = writing (w.value + 1) })
father_at g p (writing tmp) w = some (record w { value = tmp; father = releasing })
father_at g p releasing w = some (record (father_post g w) { father = closing p.before_wait })
father_at g p (closing []) w = wait_son w.son w
father_at g p (closing (c ∷ cs)) w = some (record w {
  names = clean_names c w.names;
  father_held = clean_held c w.father_held;
  father = closing cs;
})
father_at g p printing w =
    some (record w { printed = w.value ∷ w.printed; father = cleaning p.father_end })
father_at g p (cleaning []) w = none
father_at g p (cleaning (c ∷ cs)) w = some (record w {
  names = clean_names c w.names;
  father_held = clean_held c w.father_held;
  father = cleaning cs;
})

unfoldable pub son_at : Guard → Program → Pc → Pair → Option Pair
son_at g p acquiring w = son_wait g w
son_at g p reading w = some (record w { son = writing (w.value + 1) })
son_at g p (writing tmp) w = some (record w { value = tmp; son = releasing })
son_at g p releasing w = some (record (son_post g w) { son = cleaning p.son_end })
son_at g p (closing cs) w = none
son_at g p printing w = none
son_at g p (cleaning []) w = none
son_at g p (cleaning (c ∷ cs)) w = some (record w {
  names = clean_names c w.names;
  son_held = clean_held c w.son_held;
  son = cleaning cs;
})

-- After a `fork` that succeeds, where the semaphore starts at `n`.
abbrev pub forked : Program → (n : ℕ) → Pair
forked p n = record {
  value = 0;
  sem = n;
  son_sem = n;
  father = acquiring;
  son = acquiring;
  printed = [];
  names = p.names;
  father_held = p.held;
  son_held = p.held;
}

pub data Step (g : Guard) (p : Program) (w : Pair) : Pair → Type 0 where
  by_father : {t : Pair} → father_at g p w.father w ≡ some t → Step g p w t
  by_son : {t : Pair} → son_at g p w.son w ≡ some t → Step g p w t

-- `Reach g p n k w`: the two are at `w` after `k` steps.
pub data Reach (g : Guard) (p : Program) (n : ℕ) : ℕ → Pair → Type 0 where
  start : Reach g p n 0 (forked p n)
  next : {k : ℕ} {w t : Pair} → Reach g p n k w → Step g p w t → Reach g p n (suc k) t

-- The names that are left where `fork` failed.
abbrev pub names_if_failed : Program → List Resource
names_if_failed p = sweep_names p.failed_end p.names

-- unnamed_sem_bin_process.c
abbrev pub unnamed_sem_bin_process : Program
unnamed_sem_bin_process =
    let unmap = release sem_map ∷ release value_map ∷ release sem_fd ∷ release value_fd ∷ [] in
    record {
      names = shm_sem_name ∷ shm_value_name ∷ [];
      held = sem_fd ∷ value_fd ∷ sem_map ∷ value_map ∷ [];
      before_wait = [];
      father_end =
          sem_destroy
          ∷ release sem_map
          ∷ release value_map
          ∷ release sem_fd
          ∷ release value_fd
          ∷ unlink shm_sem_name
          ∷ unlink shm_value_name
          ∷ [];
      son_end = unmap;
      failed_end = unmap;
    }

-- unnamed_sem_bin_process_isolate.c
abbrev pub unnamed_sem_bin_process_isolate : Program
unnamed_sem_bin_process_isolate =
    let unmap = release value_map ∷ release value_fd ∷ [] in
    record {
      names = shm_value_name ∷ [];
      held = value_fd ∷ value_map ∷ [];
      before_wait = [];
      father_end = sem_destroy ∷ release value_map ∷ release value_fd ∷ unlink shm_value_name ∷ [];
      son_end = unmap;
      failed_end = unmap;
    }

-- unnamed_sem_bin_process_condition.c
abbrev pub unnamed_sem_bin_process_condition : Program
unnamed_sem_bin_process_condition =
    let unmap = release value_map ∷ release value_fd ∷ [] in
    record {
      names = shm_value_name ∷ [];
      held = value_fd ∷ value_map ∷ [];
      before_wait = [];
      father_end = release value_map ∷ release value_fd ∷ unlink shm_value_name ∷ [];
      son_end = unmap;
      failed_end = unmap;
    }

-- named_sem_bin.c
abbrev pub named_sem_bin : Program
named_sem_bin =
    let unmap = release sem_ref ∷ release value_map ∷ release value_fd ∷ [] in
    record {
      names = sem_name ∷ shm_value_name ∷ [];
      held = sem_ref ∷ value_fd ∷ value_map ∷ [];
      before_wait = release sem_ref ∷ [];
      father_end =
          unlink sem_name ∷ release value_map ∷ release value_fd ∷ unlink shm_value_name ∷ [];
      son_end = unmap;
      failed_end = unmap;
    }
