-- ===== src/Interrupt/Tests.antt =====
-- SIGINT in the second round of the loop.
use linux_application_layer.Common.{ℕ, ◌<◌, ◌≡◌, refl, ◌⊎◌, false, true, some, [], ◌∷◌}
use linux_application_layer.Interrupt.{
  hello, stopped, signal_failed, exited, State, main_at, interrupt, begun, Reach, start, call,
  signal,
}
use linux_application_layer.Interrupt.Ends.{calls, GoesOn, Ended, runs_until_interrupted}

abbrev stopped_state : State
stopped_state = record { pc = exited 2; printed = hello ∷ stopped 2 ∷ [] }

stopped_run : Reach true 2 stopped_state
unfolding main_at interrupt
stopped_run =
    call
      (signal (call (signal (call (call (call (call start refl) refl) refl) refl) refl) refl) refl)
      refl

not_registered :
    main_at false begun.pc begun ≡ some (record { pc = exited 1; printed = signal_failed ∷ [] })
unfolding main_at
not_registered = refl

runs_until_interrupted_example :
    (◌≡◌ {A = ℕ} 2 0 × GoesOn stopped_state) ⊎ ((0 < 2) × Ended (calls 2 stopped_state))
runs_until_interrupted_example = runs_until_interrupted stopped_run
