-- ===== src/Cancel/Tests.antt =====
-- Runs of the three cancellation programs, and the theorems there.
use linux_application_layer.Common.{◌≡◌, refl, ◌↔◌, true, false, some, [], ◌∷◌, arith}
use linux_application_layer.Cancel.{
  started, working, after_cancelled, canceled, joining, reported, Program, make, call, act, cancel,
  join, Reach, here, next, start, deferred_task, sleep, testcancel, printf,
}
use linux_application_layer.Cancel.Shield.{NeverCanceled, shield_iff}

-- The deferred thread prints, is asked to stop, and stops in `sleep`.
abbrev stopped : Program
stopped = record (start deferred_task) {
  main = reported canceled;
  rest = sleep ∷ testcancel ∷ printf after_cancelled ∷ [];
  pending = true;
  exit = some canceled;
  log = working ∷ started ∷ [];
}

abbrev asked : Program
asked = record (start deferred_task) {
  main = joining;
  rest = sleep ∷ testcancel ∷ printf after_cancelled ∷ [];
  pending = true;
  log = working ∷ started ∷ [];
}

asked_reached : Reach false (start deferred_task) asked
unfolding make
asked_reached =
    next
      (next (next here (call refl refl (λ e. ground arith))) (call refl refl (λ e. ground arith)))
      (cancel refl)

from_asked : Reach false asked stopped
from_asked = next (next here (act refl refl refl refl)) (join refl refl)

stopped_reached : Reach false (start deferred_task) stopped
stopped_reached = next (next asked_reached (act refl refl refl refl)) (join refl refl)

shield_iff_example : NeverCanceled true ↔ (true ≡ false)
shield_iff_example = shield_iff true
