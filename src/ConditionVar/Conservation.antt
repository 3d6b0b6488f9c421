-- ===== src/ConditionVar/Conservation.antt =====
-- No integer is lost or received twice.
use mathlib.Core.List.{Perm, perm_middle}
use mathlib.Core.List.Perm
use linux_application_layer.Common.{
  ℕ, zero, suc, ◌+◌, ◌-◌, ◌≤◌, ◌<◌, ◌≡◌, refl, ◌≢◌, some, List, [], ◌∷◌, ◌++◌, arith, length,
  get_or, set, get_or-set_self, get_or-set_ne,
}
use linux_application_layer.ConditionVar.{
  Pc, locking, testing, waiting, woken, ready, signalling, unlocking, Shop, producer_at,
  consumer_at, produce, consume, spurious_producer, spurious_consumer, Reach, start, next,
}
use linux_application_layer.ConditionVar.Invariant.{Inv, Reach-Inv}

-- The integers in the first cells of the buffer, the last cell first.
abbrev pub stock : List ℕ → ℕ → List ℕ
stock buffer zero = []
stock buffer (suc c) = get_or buffer c 0 ∷ stock buffer c

stock-set : (b : List ℕ) (v i c : ℕ) → c ≤ i → stock (set b i v) c ≡ stock b c
stock-set b v i zero h = refl
stock-set b v i (suc c) h =
    cc (get_or-set_ne b i c v 0 (omega arith), stock-set b v i c (omega arith))

stock-push : (b : List ℕ) (v c : ℕ) → c < length b → stock (set b c v) (c + 1) ≡ v ∷ stock b c
stock-push b v c h =
    let e : c + 1 ≡ suc c = omega arith in
    rw e (cc (get_or-set_self b c v 0 h, stock-set b v c c (omega arith)))

stock-pop : (b : List ℕ) (c : ℕ) → 0 < c → stock b c ≡ get_or b (c - 1) 0 ∷ stock b (c - 1)
stock-pop b zero h = absurd (omega arith)
stock-pop b (suc c) h = let e : suc c - 1 ≡ c = omega arith in rw e refl

-- What was received, with what is in the buffer, is what was sent, in some order.
abbrev pub Conserved : Shop → Type 0
Conserved s = Perm (s.received ++ stock s.buffer s.count) s.sent

pub record SameGoods (s t : Shop) : Type 0 where
  pub received : t.received ≡ s.received
  pub stocked : stock t.buffer t.count ≡ stock s.buffer s.count
  pub sent : t.sent ≡ s.sent

keep : {s t : Shop} → SameGoods s t → Conserved s → Conserved t
keep g h = rw (g.received, g.stocked, g.sent) h

pub producer_goods : {s t : Shop} (p : Pc) → p ≢ ready → producer_at p s ≡ some t → SameGoods s t
unfolding producer_at
producer_goods locking n e = ground arith
producer_goods testing n e = ground arith
producer_goods waiting n e = ground arith
producer_goods woken n e = ground arith
producer_goods ready n e = absurd (n refl)
producer_goods signalling n e = ground arith
producer_goods unlocking n e = ground arith

pub consumer_goods : {s t : Shop} (p : Pc) → p ≢ ready → consumer_at p s ≡ some t → SameGoods s t
unfolding consumer_at
consumer_goods locking n e = ground arith
consumer_goods testing n e = ground arith
consumer_goods waiting n e = ground arith
consumer_goods woken n e = ground arith
consumer_goods ready n e = absurd (n refl)
consumer_goods signalling n e = ground arith
consumer_goods unlocking n e = ground arith

-- The producer prints the integer that it puts on top of the stock.
pub record Pushed (s t : Shop) : Type 0 where
  pub received : t.received ≡ s.received
  pub stocked : stock t.buffer t.count ≡ s.item ∷ stock s.buffer s.count
  pub sent : t.sent ≡ s.item ∷ s.sent

pub producer_pushes :
    {s t : Shop} → Inv s → s.producer ≡ ready → producer_at ready s ≡ some t → Pushed s t
unfolding producer_at
producer_pushes {s} inv q e = ground (
  arith,
  inv.room q,
  inv.sized,
  stock-push s.buffer s.item s.count,
  get_or-set_self s.buffer s.count s.item 0,
)

push-Conserved : {s t : Shop} → Pushed s t → Conserved s → Conserved t
push-Conserved {s} g h =
    rw (g.received, g.stocked, g.sent)
      (Perm.trans (perm_middle s.received (stock s.buffer s.count)) (Perm.cons s.item h))

-- The consumer prints the top of the stock, and takes it away.
pub record Popped (s t : Shop) (x : ℕ) : Type 0 where
  pub received : t.received ≡ x ∷ s.received
  pub stocked : stock s.buffer s.count ≡ x ∷ stock t.buffer t.count
  pub sent : t.sent ≡ s.sent

pub consumer_pops :
    {s t : Shop}
    → Inv s
    → s.consumer ≡ ready
    → consumer_at ready s ≡ some t
    → Popped s t (get_or s.buffer (s.count - 1) 0)
unfolding consumer_at
consumer_pops {s} inv q e = ground (arith, inv.stock q, stock-pop s.buffer s.count)

pop-Conserved : {s t : Shop} {x : ℕ} → Popped s t x → Conserved s → Conserved t
pop-Conserved {s} {t} {x} g h =
    rw (g.received, g.sent)
      (Perm.trans (Perm.symm (perm_middle s.received (stock t.buffer t.count))) (rw g.stocked at h))

produce-Conserved :
    {s t : Shop} (p : Pc)
    → Inv s
    → s.producer ≡ p
    → producer_at p s ≡ some t
    → Conserved s
    → Conserved t
produce-Conserved ready inv q e h = push-Conserved (producer_pushes inv q e) h
produce-Conserved locking inv q e h = keep (producer_goods locking (λ x. ground arith) e) h
produce-Conserved testing inv q e h = keep (producer_goods testing (λ x. ground arith) e) h
produce-Conserved waiting inv q e h = keep (producer_goods waiting (λ x. ground arith) e) h
produce-Conserved woken inv q e h = keep (producer_goods woken (λ x. ground arith) e) h
produce-Conserved signalling inv q e h = keep (producer_goods signalling (λ x. ground arith) e) h
produce-Conserved unlocking inv q e h = keep (producer_goods unlocking (λ x. ground arith) e) h

consume-Conserved :
    {s t : Shop} (p : Pc)
    → Inv s
    → s.consumer ≡ p
    → consumer_at p s ≡ some t
    → Conserved s
    → Conserved t
consume-Conserved ready inv q e h = pop-Conserved (consumer_pops inv q e) h
consume-Conserved locking inv q e h = keep (consumer_goods locking (λ x. ground arith) e) h
consume-Conserved testing inv q e h = keep (consumer_goods testing (λ x. ground arith) e) h
consume-Conserved waiting inv q e h = keep (consumer_goods waiting (λ x. ground arith) e) h
consume-Conserved woken inv q e h = keep (consumer_goods woken (λ x. ground arith) e) h
consume-Conserved signalling inv q e h = keep (consumer_goods signalling (λ x. ground arith) e) h
consume-Conserved unlocking inv q e h = keep (consumer_goods unlocking (λ x. ground arith) e) h

-- In every run the integers received and those still in the buffer are together the integers sent,
-- each as often as it was sent.
pub Reach-Conserved : {s : Shop} → Reach s → Conserved s
Reach-Conserved start = Perm.refl []
Reach-Conserved (next {s = s} r (produce e)) =
    produce-Conserved s.producer (Reach-Inv r) refl e (Reach-Conserved r)
Reach-Conserved (next {s = s} r (consume e)) =
    consume-Conserved s.consumer (Reach-Inv r) refl e (Reach-Conserved r)
Reach-Conserved (next r (spurious_producer e)) = Reach-Conserved r
Reach-Conserved (next r (spurious_consumer e)) = Reach-Conserved r
