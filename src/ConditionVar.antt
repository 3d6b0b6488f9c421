-- ===== src/ConditionVar.antt =====
-- thread_test/condition_var.c: a producer and a consumer over a stack of five integers, with one
-- mutex and one condition variable for both directions. The arguments `buffer[--count]` and `count` of
-- the consumer's `printf` are not sequenced in C; they are taken in the order written.
pub mod Invariant
pub mod Safety
pub mod Conservation
pub mod Refinement
mod Tests
use linux_application_layer.Common.{
  ℕ, ◌+◌, ◌-◌, ◌≡◌, Bool, true, false, Option, none, some, List, [], ◌∷◌, ◌==◌, if◌then◌else◌,
  get_or, set, int_suc,
}

abbrev pub buffer_size : ℕ
buffer_size = 5

-- Where either thread stands in its loop: before `pthread_mutex_lock`, at the test of the inner
-- `while`, asleep in `pthread_cond_wait`, woken but without the mutex, before the access to the
-- buffer, before `pthread_cond_signal`, before `pthread_mutex_unlock`.
pub data Pc : Type 0 where
  locking testing waiting woken ready signalling unlocking : Pc

-- The globals, the two threads, the producer's `item`, and the integers printed as sent and as
-- received, the latest first.
pub record Shop : Type 0 where
  pub locked : Bool
  pub count : ℕ
  pub buffer : List ℕ
  pub item : ℕ
  pub producer : Pc
  pub consumer : Pc
  pub sent : List ℕ
  pub received : List ℕ

-- `pthread_cond_signal` wakes one thread that waits; only the other thread can.
abbrev pub wake : Pc → Pc
wake waiting = woken
wake p = p

-- The producer's next step; `none` where it blocks. The accesses to the buffer between two calls of
-- pthread functions are one step, since the mutex is held.
unfoldable pub producer_at : Pc → Shop → Option Shop
producer_at locking s =
    if s.locked then none else some (record s { locked = true; producer = testing })
producer_at testing s =
    if s.count == buffer_size
    then some (record s { locked = false; producer = waiting })
    else some (record s { producer = ready })
producer_at waiting s = none
producer_at woken s =
    if s.locked then none else some (record s { locked = true; producer = testing })
producer_at ready s =
    let buffer = set s.buffer s.count s.item in
    let count = s.count + 1 in
    some (record s {
      buffer = buffer;
      count = count;
      item = int_suc s.item;
      sent = get_or buffer (count - 1) 0 ∷ s.sent;
      producer = signalling;
    })
producer_at signalling s = some (record s { consumer = wake s.consumer; producer = unlocking })
producer_at unlocking s = some (record s { locked = false; producer = locking })

unfoldable pub consumer_at : Pc → Shop → Option Shop
consumer_at locking s =
    if s.locked then none else some (record s { locked = true; consumer = testing })
consumer_at testing s =
    if s.count == 0
    then some (record s { locked = false; consumer = waiting })
    else some (record s { consumer = ready })
consumer_at waiting s = none
consumer_at woken s =
    if s.locked then none else some (record s { locked = true; consumer = testing })
consumer_at ready s =
    let count = s.count - 1 in
    some (record s {
      count = count;
      received = get_or s.buffer count 0 ∷ s.received;
      consumer = signalling;
    })
consumer_at signalling s = some (record s { producer = wake s.producer; consumer = unlocking })
consumer_at unlocking s = some (record s { locked = false; consumer = locking })

-- `main` starts both threads on the zeroed globals.
abbrev pub main : Shop
main = record {
  locked = false;
  count = 0;
  buffer = 0 ∷ 0 ∷ 0 ∷ 0 ∷ 0 ∷ [];
  item = 1;
  producer = locking;
  consumer = locking;
  sent = [];
  received = [];
}

-- A thread steps, or is woken with no signal.
pub data Step (s : Shop) : Shop → Type 0 where
  produce : {t : Shop} → producer_at s.producer s ≡ some t → Step s t
  consume : {t : Shop} → consumer_at s.consumer s ≡ some t → Step s t
  spurious_producer : s.producer ≡ waiting → Step s (record s { producer = woken })
  spurious_consumer : s.consumer ≡ waiting → Step s (record s { consumer = woken })

pub data Reach : Shop → Type 0 where
  start : Reach main
  next : {s t : Shop} → Reach s → Step s t → Reach t
