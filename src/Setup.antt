-- ===== src/Setup.antt =====
-- What the programs with a father and a son do up to `fork`, and after one that failed up to where they
-- wait, whatever the calls of the system return
-- (thread_test/unnamed_sem_bin_process.c, unnamed_sem_bin_process_illegal.c,
-- unnamed_sem_bin_process_isolate.c, unnamed_sem_bin_process_condition.c, named_sem_bin.c,
-- unnamed_sem_count_process.c, named_sem_count.c and named_sem_no_unlink.c).
pub mod Monad
pub mod Outcomes
mod Tests
use linux_application_layer.Common.{
  ℕ, zero, suc, ◌||◌, Bool, true, false, List, [], ◌∷◌, ◌++◌, if◌then◌else◌, ◌&&◌,
}
use linux_application_layer.Pair.Resources.{
  Resource, shm_sem_name, shm_value_name, sem_name, sem_map, value_map, sem_fd, value_fd, sem_ref,
}
use linux_application_layer.Setup.Monad.{
  Action, World, ok, err, crashed, hangs, returned, pure, ◌>>=◌, ◌>>◌,
}

-- Which calls succeed; a program reads those that it makes.
pub record Results : Type 0 where
  pub sem_opens : Bool
  pub sem_object_opens : Bool
  pub value_object_opens : Bool
  pub sem_object_grows : Bool
  pub value_object_grows : Bool
  pub sem_object_had_size : Bool  -- the object was there, with its size
  pub value_object_had_size : Bool
  pub sem_maps : Bool
  pub value_maps : Bool
  pub forks : Bool
  pub sem_value : ℕ  -- of the semaphore that `sem_open` finds or makes

-- `shm_open` with O_CREAT; the result is whether there is a descriptor.
abbrev pub shm_open : (opens : Bool) (name fd : Resource) → Action Bool
shm_open true name fd w =
    (ok true, record w { names = w.names ++ (name ∷ []); held = w.held ++ (fd ∷ []) })
shm_open false name fd w = (ok false, w)

-- `sem_open("/named_sem", O_CREAT, …)`
abbrev pub sem_open : (opens : Bool) → Action Bool
sem_open true w =
    (ok true, record w { names = w.names ++ (sem_name ∷ []); held = w.held ++ (sem_ref ∷ []) })
sem_open false w = (ok false, w)

-- `ftruncate`, whose result no program looks at: whether the object has its size, which one that was
-- there has already.
abbrev pub ftruncate : (grows had_size fd : Bool) → Action Bool
ftruncate grows had_size fd = pure ((grows || had_size) && fd)

-- `mmap` of a descriptor.
abbrev pub mmap : (maps fd : Bool) → Resource → Action Bool
mmap true true map w = (ok true, record w { held = w.held ++ (map ∷ []) })
mmap _ _ map w = (ok false, w)

-- An access through a pointer that `mmap` or `sem_open` gave.
abbrev pub access : (valid sized : Bool) → Action (Unit {0})
access true true w = (ok tt, w)
access _ _ w = (err crashed, w)

-- `sem == SEM_FAILED`: `perror` and `return -1`.
abbrev pub check : Bool → Action (Unit {0})
check true w = (ok tt, w)
check false w = (err (returned 255), w)

-- `fork`: whether there are two processes.
abbrev pub fork : Bool → Action Bool
fork forks = pure forks

-- unnamed_sem_bin_process.c
unfoldable pub unnamed_sem_bin_process : Results → Action Bool
unnamed_sem_bin_process r = do
  opened ← shm_open r.sem_object_opens shm_sem_name sem_fd
  value_opened ← shm_open r.value_object_opens shm_value_name value_fd
  sized ← ftruncate r.sem_object_grows r.sem_object_had_size opened
  value_sized ← ftruncate r.value_object_grows r.value_object_had_size value_opened
  sem ← mmap r.sem_maps opened sem_map
  value ← mmap r.value_maps value_opened value_map
  access sem sized
  access value value_sized
  fork r.forks

-- unnamed_sem_bin_process_illegal.c
unfoldable pub unnamed_sem_bin_process_illegal : Results → Action Bool
unnamed_sem_bin_process_illegal r = do
  opened ← shm_open r.sem_object_opens shm_sem_name sem_fd
  value_opened ← shm_open r.value_object_opens shm_value_name value_fd
  sized ← ftruncate r.sem_object_grows r.sem_object_had_size opened
  value_sized ← ftruncate r.value_object_grows r.value_object_had_size value_opened
  sem ← mmap r.sem_maps opened sem_map
  value ← mmap r.value_maps value_opened value_map
  access sem sized
  access value value_sized
  fork r.forks

-- unnamed_sem_bin_process_isolate.c; its semaphore is a variable of `main`.
unfoldable pub unnamed_sem_bin_process_isolate : Results → Action Bool
unnamed_sem_bin_process_isolate r = do
  opened ← shm_open r.value_object_opens shm_value_name value_fd
  sized ← ftruncate r.value_object_grows r.value_object_had_size opened
  value ← mmap r.value_maps opened value_map
  access value sized
  fork r.forks

-- unnamed_sem_bin_process_condition.c
unfoldable pub unnamed_sem_bin_process_condition : Results → Action Bool
unnamed_sem_bin_process_condition r = do
  opened ← shm_open r.value_object_opens shm_value_name value_fd
  sized ← ftruncate r.value_object_grows r.value_object_had_size opened
  value ← mmap r.value_maps opened value_map
  access value sized
  fork r.forks

-- `sem_wait` of a process that is alone with the semaphore: at zero it waits for ever.
abbrev pub sem_wait : ℕ → Action (Unit {0})
sem_wait zero w = (err hangs, w)
sem_wait (suc n) w = (ok tt, w)

-- named_sem_bin.c after `fork`: where that failed, the process prints so and goes on as the father,
-- with `sem_wait`, the addition and `sem_post`.
abbrev pub go_on : (forked : Bool) (sem_value : ℕ) → Action Bool
go_on true sem_value = pure true
go_on false sem_value = sem_wait sem_value >> pure false

-- named_sem_bin.c
unfoldable pub named_sem_bin : Results → Action Bool
named_sem_bin r = do
  sem ← sem_open r.sem_opens
  check sem
  opened ← shm_open r.value_object_opens shm_value_name value_fd
  sized ← ftruncate r.value_object_grows r.value_object_had_size opened
  value ← mmap r.value_maps opened value_map
  access value sized
  forked ← fork r.forks
  go_on forked r.sem_value

-- unnamed_sem_count_process.c
unfoldable pub unnamed_sem_count_process : Results → Action Bool
unnamed_sem_count_process r = do
  opened ← shm_open r.sem_object_opens shm_sem_name sem_fd
  sized ← ftruncate r.sem_object_grows r.sem_object_had_size opened
  sem ← mmap r.sem_maps opened sem_map
  access sem sized
  fork r.forks

-- What is not done where `fork` failed.
abbrev pub if_forked : Bool → Action (Unit {0}) → Action Bool
if_forked true m = m >> pure true
if_forked false m = pure false

-- named_sem_count.c: both processes use what `sem_open` gave, and nothing looks at it before.
unfoldable pub named_sem_count : Results → Action Bool
named_sem_count r = do
  sem ← sem_open r.sem_opens
  forked ← fork r.forks
  if_forked forked (access sem true)

-- named_sem_no_unlink.c
unfoldable pub named_sem_no_unlink : Results → Action Bool
named_sem_no_unlink r = do sem ← sem_open r.sem_opens; check sem; fork r.forks

-- At the start of `main`.
abbrev pub begun : World
begun = record { names = []; held = [] }
