-- ===== src/Counter/Lock.antt =====
-- What the counting threads need of a lock, and the two locks of POSIX that they use: a mutex, and a
-- semaphore that starts at 1.
use linux_application_layer.Common.{
  ℕ, zero, suc, ◌+◌, ◌≡◌, refl, Bool, true, false, Option, none, some, arith,
}

pub record Lock : Type 1 where
  pub State : Type 0
  pub unlocked : State
  pub acquire : State → Option State  -- `none`: the caller blocks
  pub release : State → State
  pub free : State → ℕ  -- how many callers could still acquire
  pub free-unlocked : free unlocked ≡ 1
  pub acquire_takes : (s s' : State) → acquire s ≡ some s' → free s ≡ free s' + 1
  pub acquire_blocks : (s : State) → acquire s ≡ none → free s ≡ 0
  pub release_gives : (s : State) → free s ≡ 0 → free (release s) ≡ 1

-- `pthread_mutex_lock` and `pthread_mutex_unlock` on the flag "is locked".
unfoldable pub mutex_lock : Bool → Option Bool
mutex_lock true = none
mutex_lock false = some true

unfoldable pub mutex_unlock : Bool → Bool
mutex_unlock locked = false

abbrev pub mutex_free : Bool → ℕ
mutex_free true = 0
mutex_free false = 1

pub mutex_takes : (s s' : Bool) → mutex_lock s ≡ some s' → mutex_free s ≡ mutex_free s' + 1
unfolding mutex_lock
mutex_takes s s' e = ground arith

pub mutex_blocks : (s : Bool) → mutex_lock s ≡ none → mutex_free s ≡ 0
unfolding mutex_lock
mutex_blocks s e = ground arith

pub mutex_gives : (s : Bool) → mutex_free s ≡ 0 → mutex_free (mutex_unlock s) ≡ 1
unfolding mutex_unlock
mutex_gives s e = refl

abbrev pub mutex : Lock
mutex = record {
  State = Bool;
  unlocked = false;
  acquire = mutex_lock;
  release = mutex_unlock;
  free = mutex_free;
  free-unlocked = refl;
  acquire_takes = mutex_takes;
  acquire_blocks = mutex_blocks;
  release_gives = mutex_gives;
}

-- `sem_wait` and `sem_post` on the value of the semaphore.
unfoldable pub sem_wait : ℕ → Option ℕ
sem_wait zero = none
sem_wait (suc v) = some v

unfoldable pub sem_post : ℕ → ℕ
sem_post v = v + 1

pub sem_takes : (s s' : ℕ) → sem_wait s ≡ some s' → s ≡ s' + 1
unfolding sem_wait
sem_takes zero s' e = ground arith
sem_takes (suc v) s' e = ground arith

pub sem_blocks : (s : ℕ) → sem_wait s ≡ none → s ≡ 0
unfolding sem_wait
sem_blocks zero e = refl
sem_blocks (suc v) e = ground arith

pub sem_gives : (s : ℕ) → s ≡ 0 → sem_post s ≡ 1
unfolding sem_post
sem_gives s e = omega arith

abbrev pub binary_semaphore : Lock
binary_semaphore = record {
  State = ℕ;
  unlocked = 1;
  acquire = sem_wait;
  release = sem_post;
  free = λ v. v;
  free-unlocked = refl;
  acquire_takes = sem_takes;
  acquire_blocks = sem_blocks;
  release_gives = sem_gives;
}
