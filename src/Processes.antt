-- ===== src/Processes.antt =====
-- The programs of process_test that fork, run other programs and wait: fork_test.c,
-- fork_execve_test.c, execve_test.c, orphan_process_test.c, pstree_test.c, waitpid_test.c,
-- system_test.c, erlou.c and erlou_block.c.
pub mod Family
pub mod Lines
pub mod Moves
pub mod AnyOrder
pub mod Results
pub mod Still
pub mod Waiting
mod Tests
use linux_application_layer.Common.{ℕ, zero, suc, Bool, Option, List, [], ◌∷◌}

-- The strings that are paths or arguments; `typed` is a path by which a program was started.
pub data Text : Type 0 where
  dot_erlou home_erlou_block usr_bin_ping dash_c fifty www_atguigu_com ergou banzhang : Text
  typed : ℕ → Text

-- The lines that the programs print, without the numbers of the processes.
pub data Line : Type 0 where
  spring_comes join_failed joined goes_on : Line  -- fork_test.c
  on_first_floor invite_failed no_way_up stays : Line  -- fork_execve_test.c and two more
  now_on_first_floor no_chance : Line  -- execve_test.c
  on_campus contacts waits contact_done fork_error execve_error : Line  -- waitpid_test.c
  cannot_run : Line  -- system_test.c
  too_few_arguments : Line  -- erlou.c
  went_up : Text → Line

-- What a process still does: its calls up to its exit. `report` is `perror`, which has no buffer;
-- `pause` is `sleep` or `fgetc(stdin)`; `wait` is `waitpid` for the child; `gone` is an ended process.
pub data Code : Type 0 where
  print report : Line → Code → Code
  fork : (failed child father : Code) → Code
  execve : (path : Text) (args : List Text) (failed : Code) → Code
  wait pause : Code → Code
  exit gone : (status : ℕ) → Code

-- fork_test.c
abbrev pub fork_test : Code
fork_test =
    print spring_comes
      (fork (print join_failed (exit 1)) (print joined (exit 0)) (print goes_on (exit 0)))

-- fork_execve_test.c: the path that it runs is its own `argv[0]`.
abbrev pub fork_execve_test : (argv : List Text) → Code
fork_execve_test [] = exit 0
fork_execve_test (argv0 ∷ argv) = print on_first_floor (
    fork (print invite_failed (exit 0))
      (execve argv0 (dot_erlou ∷ ergou ∷ []) (print no_way_up (exit 1))) (print stays (exit 0)))

-- execve_test.c; the status -1 is 255.
abbrev pub execve_test : Code
execve_test =
    print now_on_first_floor
      (execve dot_erlou (dot_erlou ∷ banzhang ∷ []) (print no_chance (exit 255)))

-- orphan_process_test.c
abbrev pub orphan_process_test : Code
orphan_process_test = print on_first_floor (
    fork (print invite_failed (exit 0))
      (execve home_erlou_block (home_erlou_block ∷ ergou ∷ []) (print no_way_up (exit 1)))
      (print stays (exit 0)))

-- pstree_test.c
abbrev pub pstree_test : Code
pstree_test = print on_first_floor (
    fork (print invite_failed (exit 0))
      (execve dot_erlou (dot_erlou ∷ ergou ∷ []) (print no_way_up (exit 1)))
      (print stays (pause (exit 0))))

-- waitpid_test.c
abbrev pub waitpid_test : Code
waitpid_test = print on_campus (
    fork (report fork_error (exit 1))
      (print contacts (
        execve usr_bin_ping (usr_bin_ping ∷ dash_c ∷ fifty ∷ www_atguigu_com ∷ [])
          (report execve_error (exit 1))))
      (print waits (wait (print contact_done (exit 0)))))

-- system_test.c, given what `system` returns.
abbrev pub system_test : (result : ℕ) → Code
system_test zero = exit 0
system_test (suc n) = print cannot_run (exit 1)

-- erlou.c
abbrev pub erlou : (argv : List Text) → Code
erlou (argv0 ∷ argv1 ∷ argv) = print (went_up argv1) (exit 0)
erlou _ = print too_few_arguments (exit 1)

-- erlou_block.c
abbrev pub erlou_block : (argv : List Text) → Code
erlou_block (argv0 ∷ argv1 ∷ argv) = print (went_up argv1) (pause (exit 0))
erlou_block _ = print too_few_arguments (exit 1)

-- What the system decides: whether the standard output is a terminal, whether `fork` succeeds, and
-- which program a path names.
pub record Env : Type 0 where
  pub terminal : Bool
  pub forks : Bool
  pub file : Text → Option (List Text → Code)
