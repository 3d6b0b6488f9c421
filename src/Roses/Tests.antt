-- ===== src/Roses/Tests.antt =====
-- Runs of terminate_test, and the theorems there.
use linux_application_layer.Common.{◌≡◌, refl, true, false, List, [], ◌∷◌}
use linux_application_layer.MessageQueue.{Bytes}
use linux_application_layer.Roses.{
  gone, joining_red, red_story, white_story, System, begins, rose_at, main_at, red_code, white_code,
  Step, red_step, white_step, main_step, Reach, start, next,
}
use linux_application_layer.Roses.Outcome.{Blocks, frees_all}
use linux_application_layer.Roses.Unheard.{unheard_runs_on}

abbrev typed : List Bytes
typed = (119 ∷ 10 ∷ []) ∷ (114 ∷ 10 ∷ []) ∷ []

-- The white thread has its line first, and `main` waits for the red thread.
unfoldable complete : (s : System) × Reach [] [] typed s
unfolding rose_at main_at
complete = (
  _,
  next
      (next
        (next
          (next
            (next
              (next
                (next (next (next (next start (red_step refl)) (white_step refl)) (white_step refl))
                  (white_step refl))
                (white_step refl))
              (red_step refl))
            (red_step refl))
          (red_step refl))
        (main_step refl))
      (main_step refl),
)

frees_all_example :
    (complete.0.bad_free ≡ false)
    × (begins red_code complete.0.red.buffer ≡ true)
    × (begins white_code complete.0.white.buffer ≡ true)
    × (Blocks true gone complete.0.red × Blocks true gone complete.0.white)
    × (complete.0.told ≡ white_story ∷ red_story ∷ [])
unfolding complete
frees_all_example = frees_all [] [] complete.1 refl

-- Only the white letter: the red thread takes the line, and the input is at its end.
unfoldable unheard : (s : System) × Reach [] [] ((119 ∷ 10 ∷ []) ∷ []) s
unfolding rose_at
unheard = (
  _,
  next (next (next (next start (red_step refl)) (red_step refl)) (red_step refl)) (red_step refl),
)

unheard_runs_on_example : (unheard.0.main ≡ joining_red) × ((t : System) × Step [] [] unheard.0 t)
unheard_runs_on_example = unheard_runs_on [] [] refl (refl, tt) unheard.1
