-- ===== src/ConditionVar/Invariant.antt =====
-- Who holds the mutex, how full the buffer is where it is used, and that no wakeup is lost.
use linux_application_layer.Common.{
  ℕ, ◌+◌, ◌≤◌, ◌<◌, ◌≡◌, refl, ◌⊎◌, Bool, true, false, some, arith, length, length-set,
}
use linux_application_layer.ConditionVar.{
  Pc, locking, testing, waiting, woken, ready, signalling, unlocking, Shop, buffer_size,
  producer_at, consumer_at, main, Step, produce, consume, spurious_producer, spurious_consumer,
  Reach, start, next,
}

-- A thread that holds the mutex.
abbrev pub holds : Pc → ℕ
holds testing = 1
holds ready = 1
holds signalling = 1
holds unlocking = 1
holds _ = 0

abbrev pub taken : Bool → ℕ
taken true = 1
taken false = 0

pub record Inv (s : Shop) : Type 0 where
  pub owned : holds s.producer + holds s.consumer ≡ taken s.locked
  pub sized : length s.buffer ≡ buffer_size
  pub at_most : s.count ≤ buffer_size
  pub room : s.producer ≡ ready → s.count < buffer_size
  pub stock : s.consumer ≡ ready → 0 < s.count
  pub full_wait : s.producer ≡ waiting → (s.count ≡ buffer_size) ⊎ (s.consumer ≡ signalling)
  pub empty_wait : s.consumer ≡ waiting → (s.count ≡ 0) ⊎ (s.producer ≡ signalling)

main-Inv : Inv main
main-Inv = ground arith

producer-Inv : {s t : Shop} (p : Pc) → s.producer ≡ p → producer_at p s ≡ some t → Inv s → Inv t
unfolding producer_at
producer-Inv locking q e inv = ground arith
producer-Inv testing q e inv = ground arith
producer-Inv waiting q e inv = ground arith
producer-Inv woken q e inv = ground arith
producer-Inv {s} ready q e inv = ground (arith, length-set s.buffer s.count s.item)
producer-Inv signalling q e inv = ground arith
producer-Inv unlocking q e inv = ground arith

consumer-Inv : {s t : Shop} (p : Pc) → s.consumer ≡ p → consumer_at p s ≡ some t → Inv s → Inv t
unfolding consumer_at
consumer-Inv locking q e inv = ground arith
consumer-Inv testing q e inv = ground arith
consumer-Inv waiting q e inv = ground arith
consumer-Inv woken q e inv = ground arith
consumer-Inv ready q e inv = ground arith
consumer-Inv signalling q e inv = ground arith
consumer-Inv unlocking q e inv = ground arith

pub Step-Inv : {s t : Shop} → Step s t → Inv s → Inv t
Step-Inv {s} (produce e) inv = producer-Inv s.producer refl e inv
Step-Inv {s} (consume e) inv = consumer-Inv s.consumer refl e inv
Step-Inv (spurious_producer e) inv = ground arith
Step-Inv (spurious_consumer e) inv = ground arith

pub Reach-Inv : {s : Shop} → Reach s → Inv s
Reach-Inv start = main-Inv
Reach-Inv (next r st) = Step-Inv st (Reach-Inv r)
