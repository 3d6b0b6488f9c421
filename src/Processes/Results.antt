-- ===== src/Processes/Results.antt =====
-- What the programs that fork and run others print: fork_test.c, execve_test.c, fork_execve_test.c,
-- orphan_process_test.c, pstree_test.c and waitpid_test.c.
use linux_application_layer.Common.{
  ℕ, ◌+◌, ◌≡◌, refl, subst, suc, arith, Bool, true, false, some, List, [], ◌∷◌,
}
use linux_application_layer.Processes.{
  Text, Line, Code, Env, fork_test, execve_test, fork_execve_test, orphan_process_test, pstree_test,
  waitpid_test, erlou, erlou_block, dot_erlou, home_erlou_block, usr_bin_ping, dash_c, fifty,
  www_atguigu_com, ergou, banzhang, typed, spring_comes, join_failed, joined, goes_on,
  on_first_floor, invite_failed, stays, now_on_first_floor, on_campus, contacts, waits,
  contact_done, fork_error, went_up,
}
use linux_application_layer.Processes.Family.{Family, Run, alone}
use linux_application_layer.Processes.Lines as Lines
use linux_application_layer.Processes.Lines.{
  Prints, flushes, prints_now, prints_later, reports, forks, cannot_fork, runs, pauses,
}
use linux_application_layer.Processes.AnyOrder.{EndsWith, any_order}

pub data Program : Type 0 where
  forking executing forking_executing orphaning showing_tree waiting : Program

-- `path` is that by which fork_execve_test was started.
abbrev pub main : (path : ℕ) → Program → Code
main path forking = fork_test
main path executing = execve_test
main path forking_executing = fork_execve_test (typed path ∷ [])
main path orphaning = orphan_process_test
main path showing_tree = pstree_test
main path waiting = waitpid_test

abbrev pub ping_args : List Text
ping_args = usr_bin_ping ∷ dash_c ∷ fifty ∷ www_atguigu_com ∷ []

-- The programs are where the paths say.
pub record Installed (env : Env) (path : ℕ) (ping : List Text → Code) : Type 0 where
  pub itself : env.file (typed path) ≡ some fork_execve_test
  pub erlou_there : env.file dot_erlou ≡ some erlou
  pub erlou_block_there : env.file home_erlou_block ≡ some erlou_block
  pub ping_there : env.file usr_bin_ping ≡ some ping

-- The lines that the program and its children show: at a terminal or in a file, with `fork` or where
-- it fails, and with those of ping.
abbrev pub shown : (terminal forks : Bool) (pings : List Line) → Program → List Line
shown true true pings forking = spring_comes ∷ goes_on ∷ joined ∷ []
shown false true pings forking = spring_comes ∷ goes_on ∷ spring_comes ∷ joined ∷ []
shown _ false pings forking = spring_comes ∷ join_failed ∷ []
shown true _ pings executing = now_on_first_floor ∷ went_up banzhang ∷ []
shown false _ pings executing = went_up banzhang ∷ []
shown _ true pings forking_executing =
    on_first_floor ∷ stays ∷ on_first_floor ∷ stays ∷ went_up ergou ∷ []
shown _ true pings orphaning = on_first_floor ∷ stays ∷ went_up ergou ∷ []
shown _ true pings showing_tree = on_first_floor ∷ stays ∷ went_up ergou ∷ []
shown true true pings waiting = on_campus ∷ waits ∷ contact_done ∷ contacts ∷ pings
shown false true pings waiting = on_campus ∷ waits ∷ contact_done ∷ pings
shown true false pings waiting = on_campus ∷ fork_error ∷ []
shown false false pings waiting = fork_error ∷ on_campus ∷ []
shown _ false pings _ = on_first_floor ∷ invite_failed ∷ []

-- How many steps all of them make, where ping makes `n`.
abbrev pub steps : (forks : Bool) (n : ℕ) → Program → ℕ
steps _ n executing = 4
steps false n _ = 4
steps true n forking = 6
steps true n forking_executing = 12
steps true n orphaning = 8
steps true n showing_tree = 8
steps true n waiting = 8 + n

counted : (n : ℕ) → suc (suc (suc (suc n) + 4)) ≡ 8 + n
counted n = omega arith

module _ (env : Env) (path : ℕ) (ping : List Text → Code) (there : Installed env path ping) where
  open there use {itself, erlou_there, erlou_block_there, ping_there}

  main-Prints :
      {pings : List Line} {n : ℕ} (x : Program) (t f : Bool)
      → env.terminal ≡ t
      → env.forks ≡ f
      → Prints env (ping ping_args) [] pings n
      → Prints env (main path x) [] (shown t f pings x) (steps f n x)
  main-Prints forking true true t f p =
      prints_now t (forks f (prints_now t flushes) (prints_now t flushes))
  main-Prints forking false true t f p =
      prints_later t (forks f (prints_later t flushes) (prints_later t flushes))
  main-Prints forking true false t f p = prints_now t (cannot_fork f (prints_now t flushes))
  main-Prints forking false false t f p = prints_later t (cannot_fork f (prints_later t flushes))
  main-Prints executing true true t f p = prints_now t (runs erlou_there (prints_now t flushes))
  main-Prints executing true false t f p = prints_now t (runs erlou_there (prints_now t flushes))
  main-Prints executing false true t f p =
      prints_later t (runs erlou_there (prints_later t flushes))
  main-Prints executing false false t f p =
      prints_later t (runs erlou_there (prints_later t flushes))
  main-Prints forking_executing true true t f p =
      let last = prints_now t flushes in
      let again = prints_now t (forks f (runs erlou_there last) (prints_now t flushes)) in
      prints_now t (forks f (runs itself again) (prints_now t flushes))
  main-Prints forking_executing false true t f p =
      let last = prints_later t flushes in
      let again = prints_later t (forks f (runs erlou_there last) (prints_later t flushes)) in
      prints_later t (forks f (runs itself again) (prints_later t flushes))
  main-Prints forking_executing true false t f p =
      prints_now t (cannot_fork f (prints_now t flushes))
  main-Prints forking_executing false false t f p =
      prints_later t (cannot_fork f (prints_later t flushes))
  main-Prints orphaning true true t f p =
      prints_now t
        (forks f (runs erlou_block_there (prints_now t (pauses flushes))) (prints_now t flushes))
  main-Prints orphaning false true t f p =
      prints_later t (
        forks f (runs erlou_block_there (prints_later t (pauses flushes))) (prints_later t flushes))
  main-Prints orphaning true false t f p = prints_now t (cannot_fork f (prints_now t flushes))
  main-Prints orphaning false false t f p = prints_later t (cannot_fork f (prints_later t flushes))
  main-Prints showing_tree true true t f p =
      prints_now t
        (forks f (runs erlou_there (prints_now t flushes)) (prints_now t (pauses flushes)))
  main-Prints showing_tree false true t f p =
      prints_later t
        (forks f (runs erlou_there (prints_later t flushes)) (prints_later t (pauses flushes)))
  main-Prints showing_tree true false t f p = prints_now t (cannot_fork f (prints_now t flushes))
  main-Prints showing_tree false false t f p =
      prints_later t (cannot_fork f (prints_later t flushes))
  main-Prints {pings} {n} waiting true true t f p =
      let child = prints_now t (runs ping_there p) in
      let father = prints_now t (Lines.waits (prints_now t flushes)) in
      subst (λ m. Prints env waitpid_test [] (shown true true pings waiting) m) (counted n)
        (prints_now t (forks f child father))
  main-Prints {pings} {n} waiting false true t f p =
      let child = prints_later t (runs ping_there p) in
      let father = prints_later t (Lines.waits (prints_later t flushes)) in
      subst (λ m. Prints env waitpid_test [] (shown false true pings waiting) m) (counted n)
        (prints_later t (forks f child father))
  main-Prints waiting true false t f p = prints_now t (cannot_fork f (reports flushes))
  main-Prints waiting false false t f p = prints_later t (cannot_fork f (reports flushes))

  -- Where the programs that they run are there, whatever the order in which the processes run: six
  -- programs come to their end, with all their children, after exactly `steps` steps, one of the
  -- processes can step until then, and the lines shown are those of `shown`, each as often, in some
  -- order. With the output in a file, the line before `fork` is there twice for fork_test, and the
  -- lines before `execve` are lost for execve_test and the child of waitpid_test; the child of
  -- fork_execve_test runs fork_execve_test once more. Where `fork` fails there is one message of it.
  -- Of ping it is taken that it ends after `n` steps and shows `pings`.
  pub programs_print :
      {pings log : List Line} {n k : ℕ} {g : Family} (x : Program)
      → Prints env (ping ping_args) [] pings n
      → Run env (alone (main path x)) k log g
      → EndsWith env k log g (steps env.forks n x) (shown env.terminal env.forks pings x)
  programs_print x p r = any_order env (main-Prints x env.terminal env.forks refl refl p) r
