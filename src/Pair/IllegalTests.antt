-- ===== src/Pair/IllegalTests.antt =====
-- A run of unnamed_sem_bin_process_illegal.c in which the son falls asleep and is woken, and the
-- theorems there.
use linux_application_layer.Common.{
  ℕ, suc, ◌≡◌, refl, ◌↔◌, Bool, true, false, Option, some, List, [], ◌∷◌,
}
use linux_application_layer.Counter.Lock.{sem_wait, sem_post}
use linux_application_layer.Pair.{shared, Pair, father_at, son_at}
use linux_application_layer.Pair.Private.{
  unnamed_sem_bin_process_illegal, Sleepers, father_moves, son_moves, son_sleeps, SleepReach, begin,
  further,
}
use linux_application_layer.Pair.Schedule.{Turn, father, son}
use linux_application_layer.Pair.Illegal.{CanHang, hangs_unless_woken}

record SleepRun : Type 0 where
  steps : ℕ
  last : Sleepers
  reach : SleepReach true steps last

by_father :
    (r : SleepRun) (b : Bool) (o : Option Pair)
    → r.last.father_asleep ≡ b
    → father_at shared unnamed_sem_bin_process_illegal r.last.pair.father r.last.pair ≡ o
    → SleepRun
by_father r false (some t) a e = record {
  steps = suc r.steps;
  last = _;
  reach = further r.reach (father_moves a e);
}
by_father r _ _ a e = r

by_son :
    (r : SleepRun) (b : Bool) (o : Option Pair)
    → r.last.son_asleep ≡ b
    → son_at shared unnamed_sem_bin_process_illegal r.last.pair.son r.last.pair ≡ o
    → SleepRun
by_son r false (some t) a e = record {
  steps = suc r.steps;
  last = _;
  reach = further r.reach (son_moves a e);
}
by_son r _ _ a e = r

turn : Turn → SleepRun → SleepRun
unfolding by_father by_son
turn father r =
    by_father r r.last.father_asleep
      (father_at shared unnamed_sem_bin_process_illegal r.last.pair.father r.last.pair) refl refl
turn son r =
    by_son r r.last.son_asleep
      (son_at shared unnamed_sem_bin_process_illegal r.last.pair.son r.last.pair) refl refl

play : SleepRun → List Turn → SleepRun
unfolding turn
play r [] = r
play r (t ∷ ts) = play (turn t r) ts

abbrev fathers_four : List Turn
fathers_four = father ∷ father ∷ father ∷ father ∷ []

-- The father takes the semaphore, the son falls asleep and the father's post wakes it.
abbrev woken : SleepRun
unfolding father_at son_at sem_wait sem_post
woken =
    let taken : SleepReach true 1 _ = further begin (father_moves refl refl) in
    play (record { steps = 2; last = _; reach = further taken (son_sleeps refl refl refl) })
      (father ∷ father ∷ father ∷ son ∷ son ∷ son ∷ son ∷ son ∷ son ∷ son ∷ son ∷ father ∷ father
        ∷ father ∷ father ∷ father ∷ father ∷ father ∷ father ∷ father ∷ [])

woken_prints : (woken.last.pair.printed ≡ 2 ∷ []) × (woken.steps ≡ 22)
unfolding play father_at son_at sem_wait sem_post
woken_prints = (refl, refl)

hangs_unless_woken_example : CanHang false ↔ (false ≡ false)
hangs_unless_woken_example = hangs_unless_woken false
