-- ===== src/ForkFd/Tests.antt =====
-- The child writes its text, the father 3 bytes of its own: both tell of success.
use linux_application_layer.Common.{
  ℕ, suc, ◌≡◌, ◌≤◌, refl, ◌⊎◌, Option, none, some, List, [], ◌∷◌, ◌++◌, true, false,
}
use linux_application_layer.ForkFd.{
  Who, child, father, text, written, released, exited, Result, failed, wrote, System, Turn,
  process_at, write, main, forked, by_child, by_father, Reach, start, next,
}
use linux_application_layer.ForkFd.Ends.{BothExited, CanStep, Appended, Told, both_append}

record Run : Type 0 where
  steps : ℕ
  last : System
  reach : Reach (111 ∷ []) steps last

step_child :
    (result : Result) (r : Run) (o : Option Turn)
    → process_at child result r.last.childs.pc r.last.childs r.last.file ≡ o
    → Run
step_child result r none e = r
step_child result r (some t) e = record {
  steps = suc r.steps;
  last = record r.last { childs = t.process; file = t.file };
  reach = next r.reach (by_child result e);
}

step_father :
    (result : Result) (r : Run) (o : Option Turn)
    → process_at father result r.last.fathers.pc r.last.fathers r.last.file ≡ o
    → Run
step_father result r none e = r
step_father result r (some t) e = record {
  steps = suc r.steps;
  last = record r.last { fathers = t.process; file = t.file };
  reach = next r.reach (by_father result e);
}

-- Who steps, and what `write` does if that is the step.
play : Run → List (Who × Result) → Run
unfolding step_child step_father
play r [] = r
play r ((child, w) ∷ ts) =
    play (step_child w r (process_at child w r.last.childs.pc r.last.childs r.last.file) refl) ts
play r ((father, w) ∷ ts) =
    play (step_father w r (process_at father w r.last.fathers.pc r.last.fathers r.last.file) refl)
      ts

abbrev turns : List (Who × Result)
turns =
    (child, failed)
    ∷ (father, failed)
    ∷ (child, wrote 32)
    ∷ (father, failed)
    ∷ (father, wrote 3)
    ∷ (child, failed)
    ∷ (child, failed)
    ∷ (child, failed)
    ∷ (father, failed)
    ∷ (father, failed)
    ∷ (father, failed)
    ∷ []

abbrev both : Run
both = play (record { steps = 0; last = forked (111 ∷ []); reach = start }) turns

both_lem :
    (both.steps ≡ 11)
    × (both.last.file ≡ 111 ∷ (text child ++ (232 ∷ 191 ∷ 153 ∷ [])))
    × (both.last.fathers.pc ≡ exited 0)
    × (both.last.fathers.printed ≡ written ∷ released father ∷ [])
unfolding play process_at write text
both_lem = (refl, refl, refl, refl)

abbrev error : Run
error =
    play (record { steps = 0; last = forked (111 ∷ []); reach = start })
      ((child, failed) ∷ (child, failed) ∷ (child, failed) ∷ (child, failed) ∷ [])

error_lem : (error.last.childs.pc ≡ exited 1) × (error.last.file ≡ 111 ∷ [])
unfolding play process_at write
error_lem = (refl, refl)

not_opened : main false true [] ≡ none
not_opened = refl

both_append_example :
    (BothExited both.last ⊎ CanStep both.last)
    × (both.steps ≤ 11)
    × Appended (111 ∷ []) both.last
    × (BothExited both.last → Told child both.last.childs × Told father both.last.fathers)
both_append_example = both_append both.reach
