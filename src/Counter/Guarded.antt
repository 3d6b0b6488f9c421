-- ===== src/Counter/Guarded.antt =====
-- A thread that adds one to a shared `int` between the acquisition and the release of a lock.
pub mod Invariant
pub mod Exact
use mathlib.Core.Option
use linux_application_layer.Common.{
  ℕ, ◌≡◌, refl, ◌≢◌, Option, none, some, arith, int_suc, Option-cases,
}
use linux_application_layer.Threads.{Program}
use linux_application_layer.Counter.Lock.{Lock}

-- Where a thread stands: not yet created, before the lock, before the read, before the write (with
-- the number to be written), before the release, returned.
pub data Pc : Type 0 where
  unborn start entered : Pc
  loaded : ℕ → Pc
  stored done : Pc

pub record Mem (S : Type 0) : Type 0 where
  pub lock : S
  pub num : ℕ

module _ (L : Lock) where
  open L use {State, unlocked, acquire, release}

  -- One atomic step of the thread function.
  unfoldable pub add_one : Mem State → Pc → Option (Mem State × Pc)
  add_one m start = Option.map (λ l. (record m { lock = l }, entered)) (acquire m.lock)
  add_one m entered = some (m, loaded (int_suc m.num))
  add_one m (loaded tmp) = some (record m { num = tmp }, stored)
  add_one m stored = some (record m { lock = release m.lock }, done)
  add_one m unborn = none
  add_one m done = none

  pub stays_born : (m m' : Mem State) (p p' : Pc) → add_one m p ≡ some (m', p') → p' ≢ unborn
  unfolding add_one
  stays_born m m' start p' e = ground (arith, Option-cases (acquire m.lock))
  stays_born m m' unborn p' e = ground arith
  stays_born m m' entered p' e = ground arith
  stays_born m m' (loaded t) p' e = ground arith
  stays_born m m' stored p' e = ground arith
  stays_born m m' done p' e = ground arith

  pub done_stuck : (m : Mem State) → add_one m done ≡ none
  unfolding add_one
  done_stuck m = refl

  pub unborn_stuck : (m : Mem State) → add_one m unborn ≡ none
  unfolding add_one
  unborn_stuck m = refl

  pub start_born : start ≢ unborn
  start_born e = ground arith

  abbrev pub program : Program (Mem State) Pc
  program = record {
    unborn = unborn;
    start = λ _. start;
    done = done;
    body = add_one;
    output = λ m. m.num;
    done_stuck = done_stuck;
    unborn_stuck = unborn_stuck;
    stays_born = stays_born;
    start_born = λ _. start_born;
  }

  abbrev pub initial : Mem State
  initial = record { lock = unlocked; num = 0 }
