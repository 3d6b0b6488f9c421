-- ===== src/Handoff/Invariant.antt =====
-- One token goes round: a free cell, the producer, a full cell, the consumer.
use linux_application_layer.Common.{ℕ, zero, suc, ◌+◌, ◌<◌, ◌≡◌, refl, some, List, [], ◌∷◌, arith}
use linux_application_layer.Counter.Lock.{sem_wait, sem_post}
use linux_application_layer.Handoff.{
  rounds, Pc, waiting, inside, posting, returned, Cell, drawn, producer_at, consumer_at, main,
  produce, consume, Reach, start, next,
}

abbrev pub busy : Pc → ℕ
busy (inside _) = 1
busy (posting _) = 1
busy _ = 0

-- The accesses to `shard_num` that the thread has made.
abbrev pub made : Pc → ℕ
made (waiting i) = i
made (inside i) = i
made (posting i) = i + 1
made returned = rounds

abbrev pub left : Pc → ℕ
left (posting _) = 1
left _ = 0

abbrev pub reading : Pc → ℕ
reading (inside _) = 1
reading _ = 0

-- A number drawn and not yet read.
abbrev pub flying : Cell → ℕ
flying s = s.full + left s.producer + reading s.consumer

abbrev pub InLoop : Pc → Type 0
InLoop (waiting i) = i < rounds
InLoop (inside i) = i < rounds
InLoop (posting i) = i < rounds
InLoop returned = Unit

module _ (rand : ℕ → ℕ) (time : ℕ → ℕ) where
  -- The numbers of the first rounds, the latest first.
  abbrev pub draws : ℕ → List ℕ
  draws zero = []
  draws (suc k) = drawn rand time k ∷ draws k

  pub record Inv (s : Cell) : Type 0 where
    pub token : s.empty + s.full + busy s.producer + busy s.consumer ≡ 1
    pub sent_all : s.sent ≡ draws (made s.producer)
    pub received_all : s.received ≡ draws (made s.consumer)
    pub balance : made s.producer ≡ made s.consumer + flying s
    pub cell : flying s ≡ 1 → s.shard_num ≡ drawn rand time (made s.consumer)
    pub producing : InLoop s.producer
    pub consuming : InLoop s.consumer

  Inv-start : Inv (main rand time)
  Inv-start = ground arith

  producer-Inv :
      {s t : Cell} (p : Pc) → s.producer ≡ p → producer_at rand time p s ≡ some t → Inv s → Inv t
  unfolding producer_at sem_wait sem_post
  producer-Inv {s} (waiting i) q e inv = ground arith
  producer-Inv {s} (inside i) q e inv = ground arith
  producer-Inv {s} (posting i) q e inv = ground arith
  producer-Inv {s} returned q e inv = ground arith

  consumer-Inv :
      {s t : Cell} (p : Pc) → s.consumer ≡ p → consumer_at rand time p s ≡ some t → Inv s → Inv t
  unfolding consumer_at sem_wait sem_post
  consumer-Inv {s} (waiting i) q e inv = ground arith
  consumer-Inv {s} (inside i) q e inv = ground arith
  consumer-Inv {s} (posting i) q e inv = ground arith
  consumer-Inv {s} returned q e inv = ground arith

  pub Reach-Inv : {k : ℕ} {s : Cell} → Reach rand time k s → Inv s
  Reach-Inv start = Inv-start
  Reach-Inv (next {s = s} r (produce e)) = producer-Inv s.producer refl e (Reach-Inv r)
  Reach-Inv (next {s = s} r (consume e)) = consumer-Inv s.consumer refl e (Reach-Inv r)
