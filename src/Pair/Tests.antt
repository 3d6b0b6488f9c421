-- ===== src/Pair/Tests.antt =====
-- Runs of the pairs of processes, and the theorems there.
use linux_application_layer.Common.{ℕ, ◌≡◌, refl, some, List, [], ◌∷◌, ◌≤◌, ◌⊎◌, ◌↔◌}
use linux_application_layer.Pair.{
  shared, father_at, son_at, names_if_failed, unnamed_sem_bin_process, named_sem_bin,
}
use linux_application_layer.Counter.Lock.{sem_wait, sem_post}
use linux_application_layer.Pair.Schedule.{Turn, father, son, schedule, Run}
use linux_application_layer.Pair.Ends.{CanStep, BothEnded, Finished, bin_process_adds_two}
use linux_application_layer.Pair.Race.{CanPrint, one_by_one}
use linux_application_layer.Pair.Leftover.{sem_open, leftover_decides}

-- The son, then the father, each as far as it goes.
abbrev son_first : List Turn
son_first =
    son ∷ son ∷ father ∷ son ∷ son ∷ son ∷ son ∷ son ∷ son ∷ father ∷ father ∷ father ∷ father
    ∷ father ∷ father ∷ father ∷ father ∷ father ∷ father ∷ father ∷ father ∷ father ∷ []

abbrev bin_run : Run shared unnamed_sem_bin_process 1
bin_run = schedule shared unnamed_sem_bin_process 1 son_first

bin_run_prints : bin_run.last.printed ≡ 2 ∷ []
unfolding schedule father_at son_at sem_wait sem_post
bin_run_prints = refl

-- Where `fork` fails the names stay.
fork_fails : names_if_failed unnamed_sem_bin_process ≡ unnamed_sem_bin_process.names
fork_fails = refl

bin_process_adds_two_example :
    (BothEnded bin_run.last ⊎ CanStep shared unnamed_sem_bin_process bin_run.last)
    × (bin_run.steps ≤ 21)
    × (BothEnded bin_run.last → Finished bin_run.last)
bin_process_adds_two_example = bin_process_adds_two bin_run.reach

abbrev one : ℕ
one = 1

leftover_decides_example :
    CanPrint shared named_sem_bin (sem_open (some 2)) one
    ↔ ((sem_open (some 2) ≡ 1) × (one ≡ 2) ⊎ (2 ≤ sem_open (some 2)) × (1 ≤ one) × (one ≤ 2))
leftover_decides_example = leftover_decides (some 2) one

abbrev named_run : Run shared named_sem_bin 1
named_run = schedule shared named_sem_bin 1 one_by_one
