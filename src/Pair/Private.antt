-- ===== src/Pair/Private.antt =====
-- thread_test/unnamed_sem_bin_process_illegal.c: the semaphore lies in shared memory but `sem_init`
-- is told that one process alone uses it. Its value is shared; whether `sem_post` of one process
-- wakes the other from `sem_wait` is up to the system, and a parameter here.
use linux_application_layer.Common.{ℕ, suc, ◌≡◌, Bool, true, false, some, [], ◌∷◌, if◌then◌else◌}
use linux_application_layer.Pair.Resources.{
  shm_sem_name, shm_value_name, sem_map, value_map, sem_fd, value_fd, sem_destroy, release, unlink,
}
use linux_application_layer.Pair.{
  shared, Pc, acquiring, releasing, Pair, Program, father_at, son_at, forked,
}

-- `munmap(sem, sizeof(sem))` names eight bytes and takes away the page of the mapping all the same.
abbrev pub unnamed_sem_bin_process_illegal : Program
unnamed_sem_bin_process_illegal =
    let unmap = release sem_map ∷ release value_map ∷ release sem_fd ∷ release value_fd ∷ [] in
    record {
      names = shm_sem_name ∷ shm_value_name ∷ [];
      held = sem_fd ∷ value_fd ∷ sem_map ∷ value_map ∷ [];
      before_wait = [];
      father_end =
          sem_destroy
          ∷ release sem_map
          ∷ release value_map
          ∷ release sem_fd
          ∷ release value_fd
          ∷ unlink shm_sem_name
          ∷ unlink shm_value_name
          ∷ [];
      son_end = unmap;
      failed_end = unmap;
    }

-- The two processes, and which of them sleeps in `sem_wait`.
pub record Sleepers : Type 0 where
  pub pair : Pair
  pub father_asleep : Bool
  pub son_asleep : Bool

-- What is left of the other process's sleep after a step from `p`: `sem_post` may end it.
abbrev pub still_asleep : (wakes : Bool) → Pc → Bool → Bool
still_asleep wakes releasing asleep = if wakes then false else asleep
still_asleep wakes p asleep = asleep

pub data SleepStep (wakes : Bool) (w : Sleepers) : Sleepers → Type 0 where
  father_moves :
      {t : Pair}
      → w.father_asleep ≡ false
      → father_at shared unnamed_sem_bin_process_illegal w.pair.father w.pair ≡ some t
      → SleepStep wakes w (record {
        pair = t;
        father_asleep = false;
        son_asleep = still_asleep wakes w.pair.father w.son_asleep;
      })
  son_moves :
      {t : Pair}
      → w.son_asleep ≡ false
      → son_at shared unnamed_sem_bin_process_illegal w.pair.son w.pair ≡ some t
      → SleepStep wakes w (record {
        pair = t;
        father_asleep = still_asleep wakes w.pair.son w.father_asleep;
        son_asleep = false;
      })
  father_sleeps :
      w.father_asleep ≡ false
      → w.pair.father ≡ acquiring
      → w.pair.sem ≡ 0
      → SleepStep wakes w (record w { father_asleep = true })
  son_sleeps :
      w.son_asleep ≡ false
      → w.pair.son ≡ acquiring
      → w.pair.sem ≡ 0
      → SleepStep wakes w (record w { son_asleep = true })

abbrev pub both_awake : Sleepers
both_awake = record {
  pair = forked unnamed_sem_bin_process_illegal 1;
  father_asleep = false;
  son_asleep = false;
}

-- `SleepReach wakes k w`: the two are at `w` after `k` steps.
pub data SleepReach (wakes : Bool) : ℕ → Sleepers → Type 0 where
  begin : SleepReach wakes 0 both_awake
  further :
      {k : ℕ} {w t : Sleepers}
      → SleepReach wakes k w
      → SleepStep wakes w t
      → SleepReach wakes (suc k) t
