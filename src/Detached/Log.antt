-- ===== src/Detached/Log.antt =====
-- What pthread_detach_test.c can print.
use linux_application_layer.Common.{
  ◌≡◌, refl, subst, ◌⊎◌, inl, inr, true, some, List, [], ◌∷◌, ◌++◌, arith,
}
use linux_application_layer.Detached.{
  Line, started, finished, continues, ending, TaskPc, unborn, starting, sleeping, finishing, gone,
  MainPc, creating, detaching, telling, waiting, closing, exited, System, task_at, main_at, runs,
  by_main, by_task, Reach, start, next,
}

-- What the thread has printed by itself.
abbrev pub Lines : TaskPc → List Line → Type 0
Lines unborn log = log ≡ []
Lines starting log = log ≡ []
Lines sleeping log = log ≡ started ∷ []
Lines finishing log = log ≡ started ∷ []
Lines gone log = log ≡ started ∷ finished ∷ []

-- What both have printed when `main` has printed its first line.
abbrev pub Mixed : TaskPc → List Line → Type 0
Mixed unborn log = log ≡ continues ∷ []
Mixed starting log = log ≡ continues ∷ []
Mixed sleeping log = (log ≡ continues ∷ started ∷ []) ⊎ (log ≡ started ∷ continues ∷ [])
Mixed finishing log = (log ≡ continues ∷ started ∷ []) ⊎ (log ≡ started ∷ continues ∷ [])
Mixed gone log =
    (log ≡ continues ∷ started ∷ finished ∷ [])
    ⊎ (log ≡ started ∷ continues ∷ finished ∷ [])
    ⊎ (log ≡ started ∷ finished ∷ continues ∷ [])

-- What can stand before the last line: the first line of `main` among the beginnings of what the
-- thread prints.
abbrev pub Possible : List Line → Type 0
Possible log =
    (log ≡ continues ∷ ending ∷ [])
    ⊎ (log ≡ continues ∷ started ∷ ending ∷ [])
    ⊎ (log ≡ started ∷ continues ∷ ending ∷ [])
    ⊎ (log ≡ continues ∷ started ∷ finished ∷ ending ∷ [])
    ⊎ (log ≡ started ∷ continues ∷ finished ∷ ending ∷ [])
    ⊎ (log ≡ started ∷ finished ∷ continues ∷ ending ∷ [])

abbrev pub At : MainPc → TaskPc → List Line → Type 0
At creating task log = (task ≡ unborn) × (log ≡ [])
At detaching task log = Lines task log
At telling task log = Lines task log
At waiting task log = Mixed task log
At closing task log = Mixed task log
At (exited status) task log = Possible log

closes : (task : TaskPc) (log : List Line) → Mixed task log → Possible (log ++ (ending ∷ []))
closes unborn log h = inl (rw h)
closes starting log h = inl (rw h)
closes sleeping log (inl h) = ground (arith, h)
closes sleeping log (inr h) = ground (arith, h)
closes finishing log (inl h) = ground (arith, h)
closes finishing log (inr h) = ground (arith, h)
closes gone log h = ground (arith, h)

mixes : (task : TaskPc) (log : List Line) → Lines task log → Mixed task (log ++ (continues ∷ []))
mixes unborn log h = rw h
mixes starting log h = rw h
mixes sleeping log h = ground (arith, h)
mixes finishing log h = ground (arith, h)
mixes gone log h = ground (arith, h)

main-At :
    (s t : System) (pc : MainPc)
    → s.main ≡ pc
    → At pc s.task s.log
    → main_at true pc s ≡ some t
    → At t.main t.task t.log
unfolding main_at
main-At s t creating q a e = ground (arith, a)
main-At s t detaching q a e = ground arith
main-At s t telling q a e = ground (arith, mixes s.task s.log a)
main-At s t waiting q a e = ground arith
main-At s t closing q a e = ground (arith, closes s.task s.log a)
main-At s t (exited status) q a e = ground arith

task-Lines :
    (s t : System) (pc : TaskPc)
    → Lines pc s.log
    → task_at pc s ≡ some t
    → (t.main ≡ s.main) × Lines t.task t.log
unfolding task_at
task-Lines s t unborn a e = ground arith
task-Lines s t starting a e = ground arith
task-Lines s t sleeping a e = ground arith
task-Lines s t finishing a e = ground arith
task-Lines s t gone a e = ground arith

task-Mixed :
    (s t : System) (pc : TaskPc)
    → Mixed pc s.log
    → task_at pc s ≡ some t
    → (t.main ≡ s.main) × Mixed t.task t.log
unfolding task_at
task-Mixed s t unborn a e = ground arith
task-Mixed s t starting a e = ground arith
task-Mixed s t sleeping a e = ground arith
task-Mixed s t finishing a e = ground arith
task-Mixed s t gone a e = ground arith

task-At :
    (s t : System) (m : MainPc)
    → s.main ≡ m
    → runs m ≡ true
    → At m s.task s.log
    → task_at s.task s ≡ some t
    → At t.main t.task t.log
unfolding task_at
task-At s t creating q l a e = ground (arith, a, e)
task-At s t detaching q l a e = ground (arith, task-Lines s t s.task a e)
task-At s t telling q l a e = ground (arith, task-Lines s t s.task a e)
task-At s t waiting q l a e = ground (arith, task-Mixed s t s.task a e)
task-At s t closing q l a e = ground (arith, task-Mixed s t s.task a e)
task-At s t (exited status) q l a e = ground arith

Reach-At : {s : System} → Reach true s → At s.main s.task s.log
Reach-At start = (refl, refl)
Reach-At (next {s} {t} r (by_main e)) = main-At s t s.main refl (Reach-At r) e
Reach-At (next {s} {t} r (by_task l e)) = task-At s t s.main refl l (Reach-At r) e

-- A run that ends with this log.
abbrev pub Prints : List Line → Type 0
Prints log = (s : System) × Reach true s × (s.main ≡ exited 0) × (s.log ≡ log)

pub prints-Possible : (log : List Line) → Prints log → Possible log
prints-Possible log (s, r, q, e) = subst Possible e (subst (λ m. At m s.task s.log) q (Reach-At r))
