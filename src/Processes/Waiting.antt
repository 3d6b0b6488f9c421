-- ===== src/Processes/Waiting.antt =====
-- The father of waitpid_test.c says that its child is done only when it is.
use mathlib.Core.Option.{some-injective}
use mathlib.Core.List.{append-nil}
use linux_application_layer.Common.{
  ℕ, ◌≡◌, refl, true, some, List, [], ◌∷◌, ◌++◌, arith, Bool-cases, ◌∙◌, subst, inl, inr,
}
use linux_application_layer.Processes.{
  Text, Line, Code, print, report, fork, execve, wait, exit, gone, Env, waitpid_test, contacts,
  waits, contact_done, fork_error, execve_error, usr_bin_ping, dash_c, fifty, www_atguigu_com,
}
use linux_application_layer.Processes.Family.{
  Family, nobody, process, Move, move, Step, here, below, beside, Run, still, next, all_ended,
  all_gone, alone,
}
use linux_application_layer.Processes.Still.{StartsNone, single_move, gone_still, nobody_still}

abbrev last_call : Code
last_call = print contact_done (exit 0)

abbrev after_fork : Code
after_fork = print waits (wait last_call)

abbrev ping_call : Code
ping_call =
    execve usr_bin_ping (usr_bin_ping ∷ dash_c ∷ fifty ∷ www_atguigu_com ∷ [])
      (report execve_error (exit 1))

abbrev at_fork : Code
at_fork = fork (report fork_error (exit 1)) (print contacts ping_call) after_fork

abbrev Told : List Line → Type 0
Told log = (xs : List Line) × (log ≡ xs ++ (contact_done ∷ []))

-- Where the child is: before its line, before `execve`, or in a program that starts no other.
data InPing : Family → Type 0 where
  talks : InPing (process (print contacts ping_call) [] nobody nobody)
  calls : {b : List Line} → InPing (process ping_call b nobody nobody)
  alone_now : {c : Code} {b : List Line} → StartsNone c → InPing (process c b nobody nobody)

lone :
    (m : Move)
    → StartsNone m.code
    → m.children ≡ nobody
    → InPing (process m.code m.buffer m.children nobody)
lone m h e = rw e (alone_now h)

ended_child : {cs : Family} → InPing cs → all_ended cs ≡ true → all_gone cs ≡ true
ended_child talks h = ground (arith, h)
ended_child calls h = ground (arith, h)
ended_child (alone_now {c} h) e = e

-- How far the father is: from its last line on, its children have ended.
data Stage : Family → List Line → Type 0 where
  not_begun : {log : List Line} → Stage (process waitpid_test [] nobody nobody) log
  forking : {log : List Line} → Stage (process at_fork [] nobody nobody) log
  telling :
      {log : List Line} {cs : Family} → InPing cs → Stage (process after_fork [] cs nobody) log
  waiting :
      {log : List Line} {cs : Family}
      → InPing cs
      → Stage (process (wait last_call) [] cs nobody) log
  reaped :
      {log : List Line} {cs : Family}
      → all_gone cs ≡ true
      → Stage (process last_call [] cs nobody) log
  told :
      {log : List Line} {cs : Family}
      → all_gone cs ≡ true
      → Told log
      → Stage (process (exit 0) [] cs nobody) log
  over :
      {log : List Line} {cs : Family}
      → all_gone cs ≡ true
      → Told log
      → Stage (process (gone 0) [] cs nobody) log

quiet : {log : List Line} → Told log → Told (log ++ [])
quiet {log} (xs, e) = (xs, append-nil log ∙ e)

known :
    (log : List Line) {m n : Move}
    → some n ≡ some m
    → Stage (process n.code n.buffer n.children nobody) (log ++ n.shown)
    → Stage (process m.code m.buffer m.children nobody) (log ++ m.shown)
known log e s =
    subst (λ z. Stage (process z.code z.buffer z.children nobody) (log ++ z.shown))
      (some-injective _ _ e) s

known_child :
    {m n : Move}
    → some n ≡ some m
    → InPing (process n.code n.buffer n.children nobody)
    → InPing (process m.code m.buffer m.children nobody)
known_child e s =
    subst (λ z. InPing (process z.code z.buffer z.children nobody)) (some-injective _ _ e) s

module _ (env : Env) (ping : List Text → Code) (t : env.terminal ≡ true) (f : env.forks ≡ true)
    (file : env.file usr_bin_ping ≡ some ping)
    (single : (args : List Text) → StartsNone (ping args)) where
  Step-InPing : {g h : Family} {shown : List Line} → Step env g shown h → InPing g → InPing h
  unfolding move
  Step-InPing (here e) talks = known_child (rw t at e) calls
  Step-InPing (here e) calls = known_child (rw file at e) (alone_now (single _))
  Step-InPing (here {m} e) (alone_now {c} {b} h) =
      let s = single_move env c b m e h in lone m s.0 s.1
  Step-InPing (below st) talks = absurd (nobody_still env st)
  Step-InPing (below st) calls = absurd (nobody_still env st)
  Step-InPing (below st) (alone_now h) = absurd (nobody_still env st)
  Step-InPing (beside st) talks = absurd (nobody_still env st)
  Step-InPing (beside st) calls = absurd (nobody_still env st)
  Step-InPing (beside st) (alone_now h) = absurd (nobody_still env st)

  Step-Stage :
      {g h : Family} {log shown : List Line}
      → Step env g shown h
      → Stage g log
      → Stage h (log ++ shown)
  unfolding move
  Step-Stage (here e) not_begun = known _ (rw t at e) forking
  Step-Stage (here e) forking = known _ (rw f at e) (telling talks)
  Step-Stage (here e) (telling c) = known _ (rw t at e) (waiting c)
  Step-Stage (here e) (waiting {cs} c) = elim (Bool-cases (all_ended cs)) [
    | inl a ↦ known _ (rw a at e) (reaped (ended_child c a))
    | inr a ↦ absurd (ground (arith, a, e))
  ]
  Step-Stage (here e) (reaped {log} a) = known _ (rw t at e) (told a (log, refl))
  Step-Stage (here e) (told a q) = known _ e (over a (quiet q))
  Step-Stage (here e) (over a q) = absurd (ground (arith, e))
  Step-Stage (below st) not_begun = absurd (nobody_still env st)
  Step-Stage (below st) forking = absurd (nobody_still env st)
  Step-Stage (below st) (telling c) = telling (Step-InPing st c)
  Step-Stage (below st) (waiting c) = waiting (Step-InPing st c)
  Step-Stage (below st) (reaped a) = absurd (gone_still env st a)
  Step-Stage (below st) (told a q) = absurd (gone_still env st a)
  Step-Stage (below st) (over a q) = absurd (gone_still env st a)
  Step-Stage (beside st) not_begun = absurd (nobody_still env st)
  Step-Stage (beside st) forking = absurd (nobody_still env st)
  Step-Stage (beside st) (telling c) = absurd (nobody_still env st)
  Step-Stage (beside st) (waiting c) = absurd (nobody_still env st)
  Step-Stage (beside st) (reaped a) = absurd (nobody_still env st)
  Step-Stage (beside st) (told a q) = absurd (nobody_still env st)
  Step-Stage (beside st) (over a q) = absurd (nobody_still env st)

  Run-Stage :
      {g : Family} {log : List Line} {k : ℕ} → Run env (alone waitpid_test) k log g → Stage g log
  Run-Stage still = not_begun
  Run-Stage (next r st) = Step-Stage st (Run-Stage r)

father_over : {g : Family} {log : List Line} → Stage g log → all_gone g ≡ true → Told log
father_over not_begun h = absurd (ground (arith, h))
father_over forking h = absurd (ground (arith, h))
father_over (telling c) h = absurd (ground (arith, h))
father_over (waiting c) h = absurd (ground (arith, h))
father_over (reaped a) h = absurd (ground (arith, h))
father_over (told a q) h = absurd (ground (arith, h))
father_over (over a q) h = q

-- At a terminal, where `fork` succeeds and /usr/bin/ping is a program that starts no other: once the
-- processes of waitpid_test.c have ended, the last line shown is the father's that its child is done.
pub contact_done_last :
    (env : Env) (ping : List Text → Code) {g : Family} {log : List Line} {k : ℕ}
    → env.terminal ≡ true
    → env.forks ≡ true
    → env.file usr_bin_ping ≡ some ping
    → ((args : List Text) → StartsNone (ping args))
    → Run env (alone waitpid_test) k log g
    → all_gone g ≡ true
    → (xs : List Line) × (log ≡ xs ++ (contact_done ∷ []))
contact_done_last env ping t f file single r h =
    father_over (Run-Stage env ping t f file single r) h
