-- ===== src/Handoff.antt =====
-- thread_test/unnamed_sem_count_thread.c: a producer hands five numbers to a consumer through one
-- integer, with a semaphore for a free cell and one for a full cell.
pub mod Invariant
pub mod Delivery
mod Tests
use mathlib.Core.Option
use linux_application_layer.Common.{
  ℕ, zero, suc, ◌+◌, ◌≡◌, Option, none, some, List, [], ◌∷◌, ltb, if◌then◌else◌,
}
use linux_application_layer.Counter.Lock.{sem_wait, sem_post}

abbrev pub rounds : ℕ
rounds = 5

-- A thread in round `i` of its loop: before `sem_wait`, before the access to `shard_num`, before
-- `sem_post`; or returned.
pub data Pc : Type 0 where
  waiting inside posting : ℕ → Pc
  returned : Pc

pub record Cell : Type 0 where
  pub full : ℕ
  pub empty : ℕ
  pub shard_num : ℕ
  pub producer : Pc
  pub consumer : Pc
  pub sent : List ℕ  -- printed by the producer, the latest first
  pub received : List ℕ  -- printed by the consumer, the latest first

-- `i++` and the test of the loop.
abbrev pub after : ℕ → Pc
after i = if ltb (i + 1) rounds then waiting (i + 1) else returned

-- `srand(time(NULL)); return rand();` where `rand seed` is the first number after `srand(seed)`.
abbrev pub rand_num : (rand : ℕ → ℕ) (time : ℕ) → ℕ
rand_num rand time = rand time

module _ (rand : ℕ → ℕ) (time : ℕ → ℕ) where
  -- What the producer draws in a round, at the time of that round.
  abbrev pub drawn : ℕ → ℕ
  drawn i = rand_num rand (time i)

  unfoldable pub producer_at : Pc → Cell → Option Cell
  producer_at (waiting i) s =
      Option.map (λ v. record s { empty = v; producer = inside i }) (sem_wait s.empty)
  producer_at (inside i) s =
      some (record s { shard_num = drawn i; sent = drawn i ∷ s.sent; producer = posting i })
  producer_at (posting i) s = some (record s { full = sem_post s.full; producer = after i })
  producer_at returned s = none

  unfoldable pub consumer_at : Pc → Cell → Option Cell
  consumer_at (waiting i) s =
      Option.map (λ v. record s { full = v; consumer = inside i }) (sem_wait s.full)
  consumer_at (inside i) s =
      some (record s { received = s.shard_num ∷ s.received; consumer = posting i })
  consumer_at (posting i) s = some (record s { empty = sem_post s.empty; consumer = after i })
  consumer_at returned s = none

  -- `main` after `sem_init` and the two `pthread_create`; both joins return when both threads have.
  abbrev pub main : Cell
  main = record {
    full = 0;
    empty = 1;
    shard_num = 0;
    producer = waiting 0;
    consumer = waiting 0;
    sent = [];
    received = [];
  }

  pub data Step (s : Cell) : Cell → Type 0 where
    produce : {t : Cell} → producer_at s.producer s ≡ some t → Step s t
    consume : {t : Cell} → consumer_at s.consumer s ≡ some t → Step s t

  pub data Reach : ℕ → Cell → Type 0 where
    start : Reach 0 main
    next : {k : ℕ} {s t : Cell} → Reach k s → Step s t → Reach (k + 1) t
