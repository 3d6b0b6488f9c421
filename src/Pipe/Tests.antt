-- ===== src/Pipe/Tests.antt =====
-- A run through a pipe with room for one byte, and the theorem there.
use linux_application_layer.Common.{
  ℕ, suc, ◌+◌, ◌*◌, ◌≤◌, ◌≡◌, refl, ◌⊎◌, Bool, true, false, Option, none, some, List, [], ◌∷◌, ◌++◌,
  length, arith,
}
use linux_application_layer.Pipe.{
  Pair, father_at, child_at, main, forked, by_father, by_child, Reach, start, next,
}
use linux_application_layer.Pipe.Ends.{BothEnded, CanStep, pipe_delivers}

abbrev hi : List ℕ
hi = 104 ∷ 105 ∷ []

record Run : Type 0 where
  steps : ℕ
  last : Pair
  reach : Reach 1 hi steps last

step_father : (r : Run) (o : Option Pair) → father_at 1 hi r.last.father r.last ≡ o → Run
step_father r none e = r
step_father r (some t) e = record {
  steps = suc r.steps;
  last = t;
  reach = next r.reach (by_father e);
}

step_child : (r : Run) (o : Option Pair) → child_at r.last.child r.last ≡ o → Run
step_child r none e = r
step_child r (some t) e = record {
  steps = suc r.steps;
  last = t;
  reach = next r.reach (by_child e);
}

-- The father's turn is `true`; who waits passes.
play : Run → List Bool → Run
unfolding step_father step_child
play r [] = r
play r (true ∷ ts) = play (step_father r (father_at 1 hi r.last.father r.last) refl) ts
play r (false ∷ ts) = play (step_child r (child_at r.last.child r.last) refl) ts

abbrev in_turns : List Bool
in_turns =
    true ∷ true ∷ true ∷ true ∷ false ∷ false ∷ false ∷ true ∷ true ∷ false ∷ false ∷ false ∷ false
    ∷ false ∷ false ∷ true ∷ []

abbrev both : Run
both = play (record { steps = 0; last = forked; reach = start }) in_turns

both_lem : (both.steps ≡ 15) × (both.last.shown ≡ 104 ∷ 105 ∷ 10 ∷ [])
unfolding play father_at child_at
both_lem = (refl, refl)

no_argument : main ([] ∷ []) true true ≡ none
no_argument = refl

pipe_delivers_example :
    (BothEnded both.last ⊎ CanStep 1 hi both.last)
    × (both.steps ≤ 9 + 3 * length hi)
    × (BothEnded both.last → both.last.shown ≡ hi ++ (10 ∷ []))
pipe_delivers_example = pipe_delivers 1 hi (omega arith) both.reach
