-- ===== src/Processes/Tests.antt =====
-- Runs of the programs that fork and run others, and the theorems there.
use linux_application_layer.Common.{refl, Bool, true, false, Option, none, some, List, [], ◌∷◌}
use linux_application_layer.Processes.{
  Text, Code, exit, gone, Env, fork_test, execve_test, fork_execve_test, waitpid_test, erlou,
  erlou_block, home_erlou_block, dot_erlou, usr_bin_ping, typed, spring_comes, joined, goes_on,
  went_up, banzhang, ergou, on_first_floor, stays, contact_done, on_campus, contacts, waits,
}
use linux_application_layer.Processes.Family.{
  process, nobody, move, here, below, Run, still, next, alone,
}
use linux_application_layer.Processes.Lines.{flushes}
use linux_application_layer.Processes.AnyOrder.{EndsWith}
use linux_application_layer.Processes.Results.{Installed, forking_executing, programs_print}

-- The directory of process_test, with a ping that ends at once.
abbrev files : Text → Option (List Text → Code)
files dot_erlou = some erlou
files home_erlou_block = some erlou_block
files usr_bin_ping = some (λ args. exit 0)
files (typed n) = some fork_execve_test
files _ = none

abbrev with_output : (terminal : Bool) → Env
with_output terminal = record { terminal = terminal; forks = true; file = files }

execve_run : Run (with_output false) (alone execve_test) 4 (went_up banzhang ∷ []) (alone (gone 0))
unfolding move
execve_run = next (next (next (next still (here refl)) (here refl)) (here refl)) (here refl)

-- The child first.
fork_run :
    Run
      (with_output false)
      (alone fork_test)
      6
      (spring_comes ∷ joined ∷ spring_comes ∷ goes_on ∷ [])
      (process (gone 0) [] (alone (gone 0)) nobody)
unfolding move
fork_run =
    let forked = next (next still (here refl)) (here refl) in
    let child = next (next forked (below (here refl))) (below (here refl)) in
    next (next child (here refl)) (here refl)

fork_execve_run :
    Run
      (with_output true)
      (alone (fork_execve_test (typed 7 ∷ [])))
      12
      (on_first_floor ∷ on_first_floor ∷ went_up ergou ∷ stays ∷ stays ∷ [])
      (process (gone 0) [] (process (gone 0) [] (alone (gone 0)) nobody) nobody)
unfolding move
fork_execve_run =
    let forked = next (next still (here refl)) (here refl) in
    let again = next (next forked (below (here refl))) (below (here refl)) in
    let twice = next (next again (below (here refl))) (below (below (here refl))) in
    let up = next (next twice (below (below (here refl)))) (below (below (here refl))) in
    let child = next (next up (below (here refl))) (below (here refl)) in
    next (next child (here refl)) (here refl)

waitpid_run :
    Run
      (with_output true)
      (alone waitpid_test)
      9
      (on_campus ∷ contacts ∷ waits ∷ contact_done ∷ [])
      (process (gone 0) [] (alone (gone 0)) nobody)
unfolding move
waitpid_run =
    let forked = next (next still (here refl)) (here refl) in
    let said = next (next forked (below (here refl))) (here refl) in
    let pinged = next (next said (below (here refl))) (below (here refl)) in
    next (next (next pinged (here refl)) (here refl)) (here refl)

abbrev installed : (terminal : Bool) → Installed (with_output terminal) 7 (λ args. exit 0)
installed terminal = record {
  itself = refl;
  erlou_there = refl;
  erlou_block_there = refl;
  ping_there = refl;
}

-- The run of fork_execve_test at a terminal is a whole one.
programs_print_example :
    EndsWith
      (with_output true)
      12
      (on_first_floor ∷ on_first_floor ∷ went_up ergou ∷ stays ∷ stays ∷ [])
      (process (gone 0) [] (process (gone 0) [] (alone (gone 0)) nobody) nobody)
      12
      (on_first_floor ∷ stays ∷ on_first_floor ∷ stays ∷ went_up ergou ∷ [])
programs_print_example =
    programs_print (with_output true) 7 (λ args. exit 0) (installed true) forking_executing flushes
      fork_execve_run
