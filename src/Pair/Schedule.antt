-- ===== src/Pair/Schedule.antt =====
-- Runs of the two processes in a given order, by evaluation.
use linux_application_layer.Common.{ℕ, suc, ◌≡◌, refl, Option, none, some, List, [], ◌∷◌}
use linux_application_layer.Pair.{
  Guard, Program, Pair, father_at, son_at, forked, by_father, by_son, Reach, start, next,
}

pub data Turn : Type 0 where
  father son : Turn

module _ (g : Guard) (p : Program) (n : ℕ) where
  pub record Run : Type 0 where
    pub steps : ℕ
    pub last : Pair
    pub reach : Reach g p n steps last

  step_father : (r : Run) (o : Option Pair) → father_at g p r.last.father r.last ≡ o → Run
  step_father r none e = r
  step_father r (some t) e = record {
    steps = suc r.steps;
    last = t;
    reach = next r.reach (by_father e);
  }

  step_son : (r : Run) (o : Option Pair) → son_at g p r.last.son r.last ≡ o → Run
  step_son r none e = r
  step_son r (some t) e = record { steps = suc r.steps; last = t; reach = next r.reach (by_son e) }

  turn : Turn → Run → Run
  unfolding step_father step_son
  turn father r = step_father r (father_at g p r.last.father r.last) refl
  turn son r = step_son r (son_at g p r.last.son r.last) refl

  play : Run → List Turn → Run
  unfolding turn
  play r [] = r
  play r (t ∷ ts) = play (turn t r) ts

  -- A blocked process passes its turn.
  unfoldable pub schedule : List Turn → Run
  unfolding play
  schedule ts = play (record { steps = 0; last = forked p n; reach = start }) ts
