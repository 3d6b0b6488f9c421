-- ===== src/Detached/Orders.antt =====
-- The orders of pthread_detach_test.c, each by a run.
use linux_application_layer.Common.{
  ◌≡◌, refl, ◌↔◌, inl, inr, Bool, true, false, Option, none, some, List, [], ◌∷◌, sym,
}
use linux_application_layer.Detached.{
  Line, System, task_at, main_at, runs, begun, by_main, by_task, Reach, start, next,
}
use linux_application_layer.Detached.Log.{Possible, Prints, prints-Possible}

record Run : Type 0 where
  last : System
  reach : Reach true last

main_turn : (r : Run) (o : Option System) → main_at true r.last.main r.last ≡ o → Run
main_turn r none e = r
main_turn r (some t) e = record { last = t; reach = next r.reach (by_main e) }

task_turn :
    (r : Run) (b : Bool) (o : Option System)
    → runs r.last.main ≡ b
    → task_at r.last.task r.last ≡ o
    → Run
task_turn r true (some t) l e = record { last = t; reach = next r.reach (by_task l e) }
task_turn r _ _ l e = r

-- The turn of `main` is `true`.
play : Run → List Bool → Run
unfolding main_turn task_turn
play r [] = r
play r (true ∷ ts) = play (main_turn r (main_at true r.last.main r.last) refl) ts
play r (false ∷ ts) =
    play (task_turn r (runs r.last.main) (task_at r.last.task r.last) refl refl) ts

abbrev run : List Bool → Run
run turns = play (record { last = begun; reach = start }) turns

Possible-prints : (log : List Line) → Possible log → Prints log
unfolding play main_at task_at
Possible-prints log (inl h) =
    let r = run (true ∷ true ∷ true ∷ true ∷ true ∷ []) in (r.last, r.reach, refl, sym h)
Possible-prints log (inr (inl h)) =
    let r = run (true ∷ true ∷ true ∷ false ∷ true ∷ true ∷ []) in (r.last, r.reach, refl, sym h)
Possible-prints log (inr (inr (inl h))) =
    let r = run (true ∷ true ∷ false ∷ true ∷ true ∷ true ∷ []) in (r.last, r.reach, refl, sym h)
Possible-prints log (inr (inr (inr (inl h)))) =
    let r = run (true ∷ true ∷ true ∷ false ∷ false ∷ false ∷ true ∷ true ∷ []) in
    (r.last, r.reach, refl, sym h)
Possible-prints log (inr (inr (inr (inr (inl h))))) =
    let r = run (true ∷ true ∷ false ∷ true ∷ false ∷ false ∷ true ∷ true ∷ []) in
    (r.last, r.reach, refl, sym h)
Possible-prints log (inr (inr (inr (inr (inr h))))) =
    let r = run (true ∷ true ∷ false ∷ false ∷ false ∷ true ∷ true ∷ true ∷ []) in
    (r.last, r.reach, refl, sym h)

-- Where the thread is created, `main` of pthread_detach_test.c ends with exactly these six logs: both
-- lines of `main`, the second at the end, and none, one or both lines of the thread before it, since
-- `main` does not wait for the thread.
pub prints_iff : (log : List Line) → Prints log ↔ Possible log
prints_iff log = (prints-Possible log, Possible-prints log)
