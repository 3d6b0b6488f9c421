-- ===== src/Pair/Resources.antt =====
-- How the pairs of processes give back what they hold: `munmap`, `close`, `sem_close`,
-- `sem_destroy`, and the removal of names by `shm_unlink` and `sem_unlink`.
use linux_application_layer.Common.{ℕ, List, [], ◌∷◌, ◌==◌, if◌then◌else◌}

-- Names in the system, and what a process has mapped or open.
pub data Resource : Type 0 where
  shm_sem_name shm_value_name sem_name : Resource
  sem_map value_map sem_fd value_fd sem_ref : Resource

abbrev pub code : Resource → ℕ
code shm_sem_name = 0
code shm_value_name = 1
code sem_name = 2
code sem_map = 3
code value_map = 4
code sem_fd = 5
code value_fd = 6
code sem_ref = 7

pub data Cleanup : Type 0 where
  sem_destroy : Cleanup
  release : Resource → Cleanup  -- `munmap`, `close` or `sem_close`
  unlink : Resource → Cleanup  -- `shm_unlink` or `sem_unlink`

abbrev pub remove : Resource → List Resource → List Resource
remove r [] = []
remove r (x ∷ xs) = let rest = remove r xs in if code r == code x then rest else x ∷ rest

-- The names after a call.
abbrev pub clean_names : Cleanup → List Resource → List Resource
clean_names (unlink r) names = remove r names
clean_names (release r) names = names
clean_names sem_destroy names = names

-- What the process holds after a call.
abbrev pub clean_held : Cleanup → List Resource → List Resource
clean_held (release r) held = remove r held
clean_held (unlink r) held = held
clean_held sem_destroy held = held

abbrev pub sweep_names : List Cleanup → List Resource → List Resource
sweep_names [] names = names
sweep_names (c ∷ cs) names = sweep_names cs (clean_names c names)

abbrev pub sweep_held : List Cleanup → List Resource → List Resource
sweep_held [] held = held
sweep_held (c ∷ cs) held = sweep_held cs (clean_held c held)

-- No call removes a name.
abbrev pub KeepsNames : List Cleanup → Type 0
KeepsNames [] = Unit
KeepsNames (unlink _ ∷ cs) = ⊥
KeepsNames (release _ ∷ cs) = KeepsNames cs
KeepsNames (sem_destroy ∷ cs) = KeepsNames cs
