-- ===== src/Handoff/Delivery.antt =====
-- What the two semaphores guarantee.
use linux_application_layer.Common.{
  ℕ, zero, suc, ◌+◌, ◌-◌, ◌*◌, ◌≤◌, ◌<◌, ◌≡◌, refl, ◌≢◌, ◌⊎◌, inl, inr, some, ◌∷◌, arith, ap,
  dec_lt,
}
use linux_application_layer.Counter.Lock.{sem_wait, sem_post}
use linux_application_layer.Handoff.{
  rounds, Pc, waiting, inside, posting, returned, Cell, drawn, producer_at, consumer_at, Step,
  produce, consume, Reach, start, next, after,
}
use linux_application_layer.Handoff.Invariant.{busy, made, flying, InLoop, draws, Inv, Reach-Inv}

module _ (rand : ℕ → ℕ) (time : ℕ → ℕ) where
  -- The consumer has printed each number that the producer has printed, once and in order, but at
  -- most the last, which then stands in the shared integer; and the two are never inside together.
  pub handed_over :
      {k : ℕ} {s : Cell}
      → Reach rand time k s
      → ((s.sent ≡ s.received) ⊎ (s.sent ≡ s.shard_num ∷ s.received))
        × (busy s.producer + busy s.consumer ≤ 1)
  handed_over {s = s} r = (cases (flying s) refl, omega (arith, inv.token))
    where
      inv : Inv rand time s
      inv = Reach-Inv rand time r

      cases : (f : ℕ) → flying s ≡ f → (s.sent ≡ s.received) ⊎ (s.sent ≡ s.shard_num ∷ s.received)
      cases zero e =
          let same : made s.producer ≡ made s.consumer = omega (arith, inv.balance) in
          inl (cc (inv.sent_all, inv.received_all, ap (draws rand time) same))
      cases (suc zero) e =
          let more : made s.producer ≡ suc (made s.consumer) = omega (arith, inv.balance) in
          inr (cc (inv.sent_all, inv.received_all, ap (draws rand time) more, inv.cell e))
      cases (suc (suc f)) e = absurd (at_most s.producer s.consumer refl refl)
        where
          at_most : (p c : Pc) → s.producer ≡ p → s.consumer ≡ c → ⊥
          at_most p c ep ec = ground (arith, inv.token)

  abbrev pub CanStep : Cell → Type 0
  CanStep s = (t : Cell) × Step rand time s t

  producer_runs :
      (s : Cell) (p : Pc)
      → s.producer ≡ p
      → (busy p ≡ 1) ⊎ ((0 < s.empty) × (p ≢ returned))
      → CanStep s
  unfolding producer_at sem_wait
  producer_runs s (waiting i) e h =
      (record s { empty = s.empty - 1; producer = inside i }, produce (ground arith))
  producer_runs s (inside i) e h = (
    record s {
      shard_num = drawn rand time i;
      sent = drawn rand time i ∷ s.sent;
      producer = posting i;
    },
    produce (ground arith),
  )
  producer_runs s (posting i) e h =
      (record s { full = sem_post s.full; producer = after i }, produce (ground arith))
  producer_runs s returned e h = ground arith

  consumer_runs :
      (s : Cell) (p : Pc)
      → s.consumer ≡ p
      → (busy p ≡ 1) ⊎ ((0 < s.full) × (p ≢ returned))
      → CanStep s
  unfolding consumer_at sem_wait
  consumer_runs s (waiting i) e h =
      (record s { full = s.full - 1; consumer = inside i }, consume (ground arith))
  consumer_runs s (inside i) e h = (
    record s { received = s.shard_num ∷ s.received; consumer = posting i },
    consume (ground arith),
  )
  consumer_runs s (posting i) e h =
      (record s { empty = sem_post s.empty; consumer = after i }, consume (ground arith))
  consumer_runs s returned e h = ground arith

  mover :
      {s : Cell} (p c : Pc)
      → s.producer ≡ p
      → s.consumer ≡ c
      → Inv rand time s
      → ((p ≡ returned) × (c ≡ returned)) ⊎ CanStep s
  mover {s} (inside i) c e f inv = inr (producer_runs s (inside i) e (inl refl))
  mover {s} (posting i) c e f inv = inr (producer_runs s (posting i) e (inl refl))
  mover {s} p (inside i) e f inv = inr (consumer_runs s (inside i) f (inl refl))
  mover {s} p (posting i) e f inv = inr (consumer_runs s (posting i) f (inl refl))
  mover {s} returned returned e f inv = inl (refl, refl)
  mover {s} (waiting i) returned e f inv = absurd (ground (arith, inv.balance, inv.producing))
  mover {s} (waiting i) (waiting j) e f inv = elim (dec_lt 0 s.empty) [
    | yes h ↦ inr (producer_runs s (waiting i) e (inr (h, λ x. ground arith)))
    | no h ↦
        inr (consumer_runs s (waiting j) f (inr (ground (arith, inv.token), λ x. ground arith)))
  ]
  mover {s} returned (waiting j) e f inv = inr (
      consumer_runs s (waiting j) f
        (inr (ground (arith, inv.balance, inv.consuming), λ x. ground arith)))

  abbrev cost : Pc → ℕ
  cost (waiting i) = 3 * (rounds - i)
  cost (inside i) = 3 * (rounds - i) - 1
  cost (posting i) = 3 * (rounds - i) - 2
  cost returned = 0

  producer_cost :
      (s : Cell) {t : Cell} (p : Pc)
      → s.producer ≡ p
      → InLoop p
      → producer_at rand time p s ≡ some t
      → cost t.producer + cost t.consumer < cost s.producer + cost s.consumer
  unfolding producer_at sem_wait
  producer_cost s (waiting i) e h q = ground arith
  producer_cost s (inside i) e h q = ground arith
  producer_cost s (posting i) e h q = ground arith
  producer_cost s returned e h q = ground arith

  consumer_cost :
      (s : Cell) {t : Cell} (p : Pc)
      → s.consumer ≡ p
      → InLoop p
      → consumer_at rand time p s ≡ some t
      → cost t.producer + cost t.consumer < cost s.producer + cost s.consumer
  unfolding consumer_at sem_wait
  consumer_cost s (waiting i) e h q = ground arith
  consumer_cost s (inside i) e h q = ground arith
  consumer_cost s (posting i) e h q = ground arith
  consumer_cost s returned e h q = ground arith

  Reach-cost : {k : ℕ} {s : Cell} → Reach rand time k s → k + cost s.producer + cost s.consumer ≤ 30
  Reach-cost start = omega arith
  Reach-cost (next {s = s} r (produce e)) =
      omega
        (arith, Reach-cost r, producer_cost s s.producer refl (Reach-Inv rand time r).producing e)
  Reach-cost (next {s = s} r (consume e)) =
      omega
        (arith, Reach-cost r, consumer_cost s s.consumer refl (Reach-Inv rand time r).consuming e)

  -- Every run ends, after at most 30 steps of the threads, with both threads returned, and then both
  -- have printed the five numbers that were drawn.
  pub all_delivered :
      {k : ℕ} {s : Cell}
      → Reach rand time k s
      → ((s.producer ≡ returned) × (s.consumer ≡ returned) ⊎ CanStep s)
        × (k ≤ 30)
        × ((s.producer ≡ returned)
            → (s.consumer ≡ returned)
            → (s.sent ≡ draws rand time rounds) × (s.received ≡ draws rand time rounds))
  all_delivered {s = s} r = (
    mover s.producer s.consumer refl refl (Reach-Inv rand time r),
    omega (arith, Reach-cost r),
    λ e f. ground (arith, (Reach-Inv rand time r).sent_all, (Reach-Inv rand time r).received_all),
  )
