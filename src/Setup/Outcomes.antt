-- ===== src/Setup/Outcomes.antt =====
-- When the two processes come to run, and what else can be.
use linux_application_layer.Common.{
  ◌≡◌, refl, ◌≢◌, ◌⊎◌, inl, inr, Bool, true, false, List, [], ◌∷◌, ◌++◌, ◌&&◌, ◌||◌, ◌↔◌,
  if◌then◌else◌, arith,
}
use linux_application_layer.Pair.Resources.{
  Resource, shm_sem_name, shm_value_name, sem_name, sem_map, sem_fd, Cleanup, release, sweep_names,
}
use linux_application_layer.Pair as Pair
use linux_application_layer.Pair.Private as Private
use linux_application_layer.SonFirst as SonFirst
use linux_application_layer.Setup as Setup
use linux_application_layer.Setup.{Results, begun}
use linux_application_layer.Setup.Monad.{World, Action, Result, ok, err, hangs}

pub data Which : Type 0 where
  bin_process illegal isolate condition named_bin count_process named_count no_unlink : Which

abbrev pub main : Which → Results → Action Bool
main bin_process = Setup.unnamed_sem_bin_process
main illegal = Setup.unnamed_sem_bin_process_illegal
main isolate = Setup.unnamed_sem_bin_process_isolate
main condition = Setup.unnamed_sem_bin_process_condition
main named_bin = Setup.named_sem_bin
main count_process = Setup.unnamed_sem_count_process
main named_count = Setup.named_sem_count
main no_unlink = Setup.named_sem_no_unlink

-- The names and the resources with which the two processes are taken to begin.
abbrev pub begins_with : Which → World
begins_with bin_process = record {
  names = Pair.unnamed_sem_bin_process.names;
  held = Pair.unnamed_sem_bin_process.held;
}
begins_with illegal = record {
  names = Private.unnamed_sem_bin_process_illegal.names;
  held = Private.unnamed_sem_bin_process_illegal.held;
}
begins_with isolate = record {
  names = Pair.unnamed_sem_bin_process_isolate.names;
  held = Pair.unnamed_sem_bin_process_isolate.held;
}
begins_with condition = record {
  names = Pair.unnamed_sem_bin_process_condition.names;
  held = Pair.unnamed_sem_bin_process_condition.held;
}
begins_with named_bin = record { names = Pair.named_sem_bin.names; held = Pair.named_sem_bin.held }
begins_with count_process = record {
  names = SonFirst.unnamed_sem_count_process.names;
  held = SonFirst.unnamed_sem_count_process.held;
}
begins_with named_count = record {
  names = SonFirst.named_sem_count.names;
  held = SonFirst.named_sem_count.held;
}
begins_with no_unlink = record {
  names = SonFirst.named_sem_no_unlink.names;
  held = SonFirst.named_sem_no_unlink.held;
}

-- An object with a semaphore, or one with the integer, is there with its size and mapped.
abbrev sem_object : Results → Bool
sem_object r = r.sem_object_opens && ((r.sem_object_grows || r.sem_object_had_size) && r.sem_maps)

abbrev value_object : Results → Bool
value_object r =
    r.value_object_opens && ((r.value_object_grows || r.value_object_had_size) && r.value_maps)

-- All that the program needs for its two processes is there, and `fork` succeeds.
abbrev pub all_succeed : Which → Results → Bool
all_succeed bin_process r = sem_object r && (value_object r && r.forks)
all_succeed illegal r = sem_object r && (value_object r && r.forks)
all_succeed isolate r = value_object r && r.forks
all_succeed condition r = value_object r && r.forks
all_succeed named_bin r = r.sem_opens && (value_object r && r.forks)
all_succeed count_process r = sem_object r && r.forks
all_succeed named_count r = r.sem_opens && r.forks
all_succeed no_unlink r = r.sem_opens && r.forks

abbrev if_made : Bool → Resource → List Resource
if_made true r = r ∷ []
if_made false r = []

-- The names that the successful calls have made.
abbrev pub made : Which → Results → List Resource
made bin_process r =
    if_made r.sem_object_opens shm_sem_name ++ if_made r.value_object_opens shm_value_name
made illegal r =
    if_made r.sem_object_opens shm_sem_name ++ if_made r.value_object_opens shm_value_name
made isolate r = if_made r.value_object_opens shm_value_name
made condition r = if_made r.value_object_opens shm_value_name
made named_bin r =
    if r.sem_opens then sem_name ∷ if_made r.value_object_opens shm_value_name else []
made count_process r = if_made r.sem_object_opens shm_sem_name
made named_count r = if_made r.sem_opens sem_name
made no_unlink r = if_made r.sem_opens sem_name

-- The calls of a program whose `fork` failed.
abbrev pub failed_end : Which → List Cleanup
failed_end bin_process = Pair.unnamed_sem_bin_process.failed_end
failed_end illegal = Private.unnamed_sem_bin_process_illegal.failed_end
failed_end isolate = Pair.unnamed_sem_bin_process_isolate.failed_end
failed_end condition = Pair.unnamed_sem_bin_process_condition.failed_end
failed_end named_bin = Pair.named_sem_bin.failed_end
failed_end count_process = release sem_map ∷ release sem_fd ∷ []
failed_end named_count = []
failed_end no_unlink = []

-- The names that are left when a program has ended that did not get to run two processes.
abbrev pub names_left : Which → Result Bool → World → List Resource
names_left x (ok forked) w = sweep_names (failed_end x) w.names
names_left x (err stop) w = w.names

-- What stops a program before or after a failed `fork`: never a wait, but for named_sem_bin.c, and there
-- where `fork` failed and the semaphore stands at zero.
abbrev pub Waits : Which → Results → Type 0
Waits named_bin r =
    (r.sem_opens ≡ true) × (value_object r ≡ true) × (r.forks ≡ false) × (r.sem_value ≡ 0)
Waits _ r = ⊥

-- There are two processes, with what their models begin with; or there are none, every name that was
-- made is left, and the program waits for ever exactly where `Waits`.
abbrev pub Outcome : Which → Results → Type 0
Outcome x r =
    ((all_succeed x r ≡ true) × (main x r begun ≡ (ok true, begins_with x)))
    ⊎ ((all_succeed x r ≡ false)
        × (((main x r begun).0 ≢ ok true)
            × (names_left x (main x r begun).0 (main x r begun).1 ≡ made x r)
            × ((main x r begun).0 ≡ err hangs ↔ Waits x r)))

-- A split on a test that hands each side its equation.
by_success :
    {A B : Type 0} (b : Bool)
    → (b ≡ true → A)
    → (b ≡ false → B)
    → ((b ≡ true) × A) ⊎ ((b ≡ false) × B)
by_success true f g = inl (refl, f refl)
by_success false f g = inr (refl, g refl)

-- Whichever calls of the system fail: each of the eight programs comes to run its two processes exactly
-- if every object that it uses opens, has its size, from `ftruncate` or from before, and is mapped, its
-- `sem_open` succeeds and its `fork` does, and then with the names and the resources from which their
-- models start. Otherwise it is stopped by an access to memory that is not there, or returns, and every
-- name that it has made is left in the system; only named_sem_bin may instead wait for ever, and does
-- so exactly where nothing but its `fork` failed and the semaphore, left by an earlier run, is at zero.
pub starts_or_leaves : (x : Which) (r : Results) → Outcome x r
unfolding Setup.unnamed_sem_bin_process Setup.unnamed_sem_bin_process_illegal
    Setup.unnamed_sem_bin_process_isolate Setup.unnamed_sem_bin_process_condition
    Setup.named_sem_bin Setup.unnamed_sem_count_process Setup.named_sem_count
    Setup.named_sem_no_unlink
starts_or_leaves bin_process r =
    by_success (all_succeed bin_process r) (λ h. ground arith)
      (λ h. (ground arith, ground arith, ground arith))
starts_or_leaves illegal r =
    by_success (all_succeed illegal r) (λ h. ground arith)
      (λ h. (ground arith, ground arith, ground arith))
starts_or_leaves isolate r =
    by_success (all_succeed isolate r) (λ h. ground arith)
      (λ h. (ground arith, ground arith, ground arith))
starts_or_leaves condition r =
    by_success (all_succeed condition r) (λ h. ground arith)
      (λ h. (ground arith, ground arith, ground arith))
starts_or_leaves named_bin r =
    by_success (all_succeed named_bin r) (λ h. ground arith)
      (λ h. (ground arith, ground arith, ground arith))
starts_or_leaves count_process r =
    by_success (all_succeed count_process r) (λ h. ground arith)
      (λ h. (ground arith, ground arith, ground arith))
starts_or_leaves named_count r =
    by_success (all_succeed named_count r) (λ h. ground arith)
      (λ h. (ground arith, ground arith, ground arith))
starts_or_leaves no_unlink r =
    by_success (all_succeed no_unlink r) (λ h. ground arith)
      (λ h. (ground arith, ground arith, ground arith))
