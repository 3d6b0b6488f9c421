-- ===== src/Counter/Racy.antt =====
-- A thread that adds one to a shared `int` with no lock: a read, then a write.
pub mod Bounds
pub mod Attained
use linux_application_layer.Common.{ℕ, ◌≡◌, refl, ◌≢◌, Option, none, some, arith, int_suc}
use linux_application_layer.Threads.{Program}

-- Where a thread stands: not yet created, before the read, before the write (with the number to be
-- written), returned.
pub data Pc : Type 0 where
  unborn start : Pc
  loaded : ℕ → Pc
  done : Pc

-- One atomic step of the thread function: `(*p)++` is a load and increment, and a store.
unfoldable pub add_one : ℕ → Pc → Option (ℕ × Pc)
add_one num start = some (num, loaded (int_suc num))
add_one num (loaded tmp) = some (tmp, done)
add_one num unborn = none
add_one num done = none

pub stays_born : (m m' : ℕ) (p p' : Pc) → add_one m p ≡ some (m', p') → p' ≢ unborn
unfolding add_one
stays_born m m' start p' e = ground arith
stays_born m m' unborn p' e = ground arith
stays_born m m' (loaded t) p' e = ground arith
stays_born m m' done p' e = ground arith

pub done_stuck : (m : ℕ) → add_one m done ≡ none
unfolding add_one
done_stuck m = refl

pub unborn_stuck : (m : ℕ) → add_one m unborn ≡ none
unfolding add_one
unborn_stuck m = refl

pub start_born : start ≢ unborn
start_born e = ground arith

abbrev pub program : Program ℕ Pc
program = record {
  unborn = unborn;
  start = λ _. start;
  done = done;
  body = add_one;
  output = λ num. num;
  done_stuck = done_stuck;
  unborn_stuck = unborn_stuck;
  stays_born = stays_born;
  start_born = λ _. start_born;
}
