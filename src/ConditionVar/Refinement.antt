-- ===== src/ConditionVar/Refinement.antt =====
-- What condition_var.c promises: its two threads behave as one stack of at most five integers.
use linux_application_layer.Common.{
  ℕ, ◌<◌, ◌≡◌, refl, sym, subst, ◌≢◌, zero, suc, ◌⊎◌, inl, inr, some, List, [], ◌∷◌, arith, length,
  int_suc,
}
use linux_application_layer.ConditionVar.{
  Pc, locking, testing, waiting, woken, ready, signalling, unlocking, Shop, buffer_size,
  producer_at, consumer_at, Step, produce, consume, spurious_producer, spurious_consumer, Reach,
  start, next,
}
use linux_application_layer.ConditionVar.Invariant.{Inv, Reach-Inv}
use linux_application_layer.ConditionVar.Conservation.{
  stock, SameGoods, producer_goods, consumer_goods, producer_pushes, consumer_pops,
}

-- A bounded stack with the integer that is pushed next, and what went in and came out, the latest
-- first. It has no threads, no mutex and no array.
pub record Stack : Type 0 where
  pub items : List ℕ
  pub coming : ℕ
  pub pushed : List ℕ
  pub popped : List ℕ

pub data StackStep (a : Stack) : Stack → Type 0 where
  push :
      length a.items < buffer_size
      → StackStep a (record a {
        items = a.coming ∷ a.items;
        coming = int_suc a.coming;
        pushed = a.coming ∷ a.pushed;
      })
  pop :
      {x : ℕ} {rest : List ℕ}
      → a.items ≡ x ∷ rest
      → StackStep a (record a { items = rest; popped = x ∷ a.popped })

abbrev pub fresh : Stack
fresh = record { items = []; coming = 1; pushed = []; popped = [] }

pub data StackReach : Stack → Type 0 where
  empty : StackReach fresh
  further : {a b : Stack} → StackReach a → StackStep a b → StackReach b

-- The stack that a state of the program stands for: the cells of the buffer below `count`.
abbrev pub view : Shop → Stack
view s = record {
  items = stock s.buffer s.count;
  coming = s.item;
  pushed = s.sent;
  popped = s.received;
}

-- A step of the program is no step or one step of the stack.
abbrev pub Simulates : Shop → Shop → Type 0
Simulates s t = (view t ≡ view s) ⊎ StackStep (view s) (view t)

same_view : {s t : Shop} → SameGoods s t → t.item ≡ s.item → view t ≡ view s
same_view g e = cc (g.stocked, g.sent, g.received, e)

producer_item : (s t : Shop) (p : Pc) → p ≢ ready → producer_at p s ≡ some t → t.item ≡ s.item
unfolding producer_at
producer_item s t locking n e = ground arith
producer_item s t testing n e = ground arith
producer_item s t waiting n e = ground arith
producer_item s t woken n e = ground arith
producer_item s t ready n e = absurd (n refl)
producer_item s t signalling n e = ground arith
producer_item s t unlocking n e = ground arith

consumer_item : (s t : Shop) (p : Pc) → consumer_at p s ≡ some t → t.item ≡ s.item
unfolding consumer_at
consumer_item s t locking e = ground arith
consumer_item s t testing e = ground arith
consumer_item s t waiting e = ground arith
consumer_item s t woken e = ground arith
consumer_item s t ready e = ground arith
consumer_item s t signalling e = ground arith
consumer_item s t unlocking e = ground arith

length-stock : (b : List ℕ) (c : ℕ) → length (stock b c) ≡ c
length-stock b zero = refl
length-stock b (suc c) = ground (arith, length-stock b c)

pushes_next :
    {s t : Shop}
    → Inv s
    → s.producer ≡ ready
    → producer_at ready s ≡ some t
    → StackStep (view s) (view t)
unfolding producer_at
pushes_next {s} {t} inv q e =
    let g = producer_pushes inv q e in
    let item : t.item ≡ int_suc s.item = ground arith in
    rw (g.stocked, g.sent, g.received, item)
      (push (ground (arith, length-stock s.buffer s.count, inv.room q)))

pops_top :
    {s t : Shop}
    → Inv s
    → s.consumer ≡ ready
    → consumer_at ready s ≡ some t
    → StackStep (view s) (view t)
pops_top {s} {t} inv q e =
    let g = consumer_pops inv q e in
    rw (g.sent, g.received, consumer_item _ _ ready e) (pop g.stocked)

produce-Simulates :
    {s t : Shop} (p : Pc) → Inv s → s.producer ≡ p → producer_at p s ≡ some t → Simulates s t
produce-Simulates ready inv q e = inr (pushes_next inv q e)
produce-Simulates locking inv q e =
    let n : locking ≢ ready = λ x. ground arith in
    inl (same_view (producer_goods locking n e) (producer_item _ _ locking n e))
produce-Simulates testing inv q e =
    let n : testing ≢ ready = λ x. ground arith in
    inl (same_view (producer_goods testing n e) (producer_item _ _ testing n e))
produce-Simulates waiting inv q e =
    let n : waiting ≢ ready = λ x. ground arith in
    inl (same_view (producer_goods waiting n e) (producer_item _ _ waiting n e))
produce-Simulates woken inv q e =
    let n : woken ≢ ready = λ x. ground arith in
    inl (same_view (producer_goods woken n e) (producer_item _ _ woken n e))
produce-Simulates signalling inv q e =
    let n : signalling ≢ ready = λ x. ground arith in
    inl (same_view (producer_goods signalling n e) (producer_item _ _ signalling n e))
produce-Simulates unlocking inv q e =
    let n : unlocking ≢ ready = λ x. ground arith in
    inl (same_view (producer_goods unlocking n e) (producer_item _ _ unlocking n e))

consume-Simulates :
    {s t : Shop} (p : Pc) → Inv s → s.consumer ≡ p → consumer_at p s ≡ some t → Simulates s t
consume-Simulates ready inv q e = inr (pops_top inv q e)
consume-Simulates locking inv q e =
    let n : locking ≢ ready = λ x. ground arith in
    inl (same_view (consumer_goods locking n e) (consumer_item _ _ locking e))
consume-Simulates testing inv q e =
    let n : testing ≢ ready = λ x. ground arith in
    inl (same_view (consumer_goods testing n e) (consumer_item _ _ testing e))
consume-Simulates waiting inv q e =
    let n : waiting ≢ ready = λ x. ground arith in
    inl (same_view (consumer_goods waiting n e) (consumer_item _ _ waiting e))
consume-Simulates woken inv q e =
    let n : woken ≢ ready = λ x. ground arith in
    inl (same_view (consumer_goods woken n e) (consumer_item _ _ woken e))
consume-Simulates signalling inv q e =
    let n : signalling ≢ ready = λ x. ground arith in
    inl (same_view (consumer_goods signalling n e) (consumer_item _ _ signalling e))
consume-Simulates unlocking inv q e =
    let n : unlocking ≢ ready = λ x. ground arith in
    inl (same_view (consumer_goods unlocking n e) (consumer_item _ _ unlocking e))

Step-Simulates : {s t : Shop} → Inv s → Step s t → Simulates s t
Step-Simulates {s} inv (produce e) = produce-Simulates s.producer inv refl e
Step-Simulates {s} inv (consume e) = consume-Simulates s.consumer inv refl e
Step-Simulates inv (spurious_producer e) = inl refl
Step-Simulates inv (spurious_consumer e) = inl refl

-- The program refines the bounded stack: in every run of the two threads, with wakeups that no
-- signal causes, the filled cells, the next integer and both prints are those of a run of the stack,
-- which pushes below five integers only and pops the latest.
pub refines_stack : {s : Shop} → Reach s → StackReach (view s)
refines_stack start = empty
refines_stack (next {s} {t} r st) = elim (Step-Simulates (Reach-Inv r) st) [
  | inl e ↦ subst StackReach (sym e) (refines_stack r)
  | inr a ↦ further (refines_stack r) a
]
