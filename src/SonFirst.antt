-- ===== src/SonFirst.antt =====
-- A father that waits for its son on a semaphore which starts at zero
-- (thread_test/unnamed_sem_count_process.c, named_sem_count.c and named_sem_no_unlink.c).
pub mod Order
pub mod Ends
pub mod Reruns
mod Tests
use mathlib.Core.Option
use linux_application_layer.Common.{ℕ, suc, ◌≡◌, Option, none, some, List, [], ◌∷◌}
use linux_application_layer.Counter.Lock.{sem_wait, sem_post}
use linux_application_layer.Pair.Resources.{
  Resource, shm_sem_name, sem_name, sem_map, sem_fd, sem_ref, Cleanup, sem_destroy, release, unlink,
  clean_names, clean_held,
}

-- `this is father` and `this is son`.
pub data Line : Type 0 where
  father_line son_line : Line

-- The father: before `sem_wait`, before its print, at `waitpid`, and its last calls; the son: asleep
-- before its print, before `sem_post`, and its last calls. A process has ended when no call is left.
pub data Pc : Type 0 where
  waiting printing reaping : Pc
  posting : Pc
  ending : List Cleanup → Pc

pub record Pair : Type 0 where
  pub sem : ℕ
  pub father : Pc
  pub son : Pc
  pub output : List Line  -- the latest first
  pub names : List Resource
  pub father_held : List Resource
  pub son_held : List Resource

pub record Program : Type 0 where
  pub names : List Resource
  pub held : List Resource
  pub father_end : List Cleanup
  pub son_end : List Cleanup

-- `waitpid` returns when the son has ended.
abbrev pub wait_son : List Cleanup → Pc → Pair → Option Pair
wait_son cs (ending []) w = some (record w { father = ending cs })
wait_son cs _ w = none

unfoldable pub father_at : Program → Pc → Pair → Option Pair
father_at p waiting w = Option.map (λ v. record w { sem = v; father = printing }) (sem_wait w.sem)
father_at p printing w = some (record w { output = father_line ∷ w.output; father = reaping })
father_at p reaping w = wait_son p.father_end w.son w
father_at p posting w = none
father_at p (ending []) w = none
father_at p (ending (c ∷ cs)) w = some (record w {
  names = clean_names c w.names;
  father_held = clean_held c w.father_held;
  father = ending cs;
})

unfoldable pub son_at : Program → Pc → Pair → Option Pair
son_at p printing w = some (record w { output = son_line ∷ w.output; son = posting })
son_at p posting w = some (record w { sem = sem_post w.sem; son = ending p.son_end })
son_at p waiting w = none
son_at p reaping w = none
son_at p (ending []) w = none
son_at p (ending (c ∷ cs)) w = some (record w {
  names = clean_names c w.names;
  son_held = clean_held c w.son_held;
  son = ending cs;
})

-- After a `fork` that succeeds, where the semaphore has the value `v`.
abbrev pub forked : Program → (v : ℕ) → Pair
forked p v = record {
  sem = v;
  father = waiting;
  son = printing;
  output = [];
  names = p.names;
  father_held = p.held;
  son_held = p.held;
}

pub data Step (p : Program) (w : Pair) : Pair → Type 0 where
  by_father : {t : Pair} → father_at p w.father w ≡ some t → Step p w t
  by_son : {t : Pair} → son_at p w.son w ≡ some t → Step p w t

pub data Reach (p : Program) (v : ℕ) : ℕ → Pair → Type 0 where
  start : Reach p v 0 (forked p v)
  next : {k : ℕ} {w t : Pair} → Reach p v k w → Step p w t → Reach p v (suc k) t

-- unnamed_sem_count_process.c
abbrev pub unnamed_sem_count_process : Program
unnamed_sem_count_process = record {
  names = shm_sem_name ∷ [];
  held = sem_fd ∷ sem_map ∷ [];
  father_end = sem_destroy ∷ release sem_map ∷ release sem_fd ∷ unlink shm_sem_name ∷ [];
  son_end = release sem_map ∷ release sem_fd ∷ [];
}

-- named_sem_count.c
abbrev pub named_sem_count : Program
named_sem_count = record {
  names = sem_name ∷ [];
  held = sem_ref ∷ [];
  father_end = release sem_ref ∷ unlink sem_name ∷ [];
  son_end = release sem_ref ∷ [];
}

-- named_sem_no_unlink.c
abbrev pub named_sem_no_unlink : Program
named_sem_no_unlink = record {
  names = sem_name ∷ [];
  held = sem_ref ∷ [];
  father_end = release sem_ref ∷ [];
  son_end = release sem_ref ∷ [];
}
