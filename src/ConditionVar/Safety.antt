-- ===== src/ConditionVar/Safety.antt =====
-- What the mutex, the inner `while` loops and the signals of condition_var.c guarantee.
use linux_application_layer.Common.{
  ◌-◌, ◌<◌, ◌≡◌, refl, ◌≢◌, ◌⊎◌, inl, inr, Bool, true, false, some, arith, ◌==◌, length, Bool-cases,
}
use linux_application_layer.ConditionVar.{
  Pc, locking, testing, waiting, woken, ready, signalling, unlocking, Shop, buffer_size,
  producer_at, consumer_at, Reach,
}
use linux_application_layer.ConditionVar.Invariant.{holds, Inv, Reach-Inv}

-- The producer writes, and the consumer reads, inside the five cells, and never together.
pub accesses_in_bounds :
    {s : Shop}
    → Reach s
    → (s.producer ≡ ready → s.count < length s.buffer)
      × (s.consumer ≡ ready → (0 < s.count) × (s.count - 1 < length s.buffer))
      × ¬ ((holds s.producer ≡ 1) × (holds s.consumer ≡ 1))
accesses_in_bounds {s} r =
    let inv = Reach-Inv r in
    (
      λ e. ground (arith, inv.room e, inv.sized),
      λ e. ground (arith, inv.stock e, inv.at_most, inv.sized),
      λ h. both inv s.locked refl h,
    )
  where
    both : Inv s → (b : Bool) → s.locked ≡ b → ¬ ((holds s.producer ≡ 1) × (holds s.consumer ≡ 1))
    both inv true e h = ground (arith, inv.owned)
    both inv false e h = ground (arith, inv.owned)

abbrev pub CanStep : Shop → Type 0
CanStep s =
    ((t : Shop) × (producer_at s.producer s ≡ some t))
    ⊎ ((t : Shop) × (consumer_at s.consumer s ≡ some t))

producer_runs :
    (s : Shop) (p : Pc)
    → p ≢ waiting
    → (s.locked ≡ false) ⊎ (holds p ≡ 1)
    → (t : Shop) × (producer_at p s ≡ some t)
unfolding producer_at
producer_runs s locking a b = (record s { locked = true; producer = testing }, ground arith)
producer_runs s testing a b = elim (Bool-cases (s.count == buffer_size)) [
  | inl e ↦ (record s { locked = false; producer = waiting }, ground arith)
  | inr e ↦ (record s { producer = ready }, ground arith)
]
producer_runs s waiting a b = absurd (a refl)
producer_runs s woken a b = (record s { locked = true; producer = testing }, ground arith)
producer_runs s ready a b = (_, refl)
producer_runs s signalling a b = (_, refl)
producer_runs s unlocking a b = (_, refl)

consumer_runs :
    (s : Shop) (p : Pc)
    → p ≢ waiting
    → (s.locked ≡ false) ⊎ (holds p ≡ 1)
    → (t : Shop) × (consumer_at p s ≡ some t)
unfolding consumer_at
consumer_runs s locking a b = (record s { locked = true; consumer = testing }, ground arith)
consumer_runs s testing a b = elim (Bool-cases (s.count == 0)) [
  | inl e ↦ (record s { locked = false; consumer = waiting }, ground arith)
  | inr e ↦ (record s { consumer = ready }, ground arith)
]
consumer_runs s waiting a b = absurd (a refl)
consumer_runs s woken a b = (record s { locked = true; consumer = testing }, ground arith)
consumer_runs s ready a b = (_, refl)
consumer_runs s signalling a b = (_, refl)
consumer_runs s unlocking a b = (_, refl)

abbrev Mover : Shop → Type 0
Mover s =
    ((s.producer ≢ waiting) × ((s.locked ≡ false) ⊎ (holds s.producer ≡ 1)))
    ⊎ ((s.consumer ≢ waiting) × ((s.locked ≡ false) ⊎ (holds s.consumer ≡ 1)))

-- Which thread can move: the owner of the mutex, or one that is not asleep.
mover : {s : Shop} (b : Bool) → s.locked ≡ b → Inv s → Mover s
mover {s} true e inv = by_producer s.producer refl
  where
    by_producer : (p : Pc) → s.producer ≡ p → Mover s
    by_producer locking q = inr (λ w. ground (arith, inv.owned), inr (ground (arith, inv.owned)))
    by_producer waiting q = inr (λ w. ground (arith, inv.owned), inr (ground (arith, inv.owned)))
    by_producer woken q = inr (λ w. ground (arith, inv.owned), inr (ground (arith, inv.owned)))
    by_producer testing q = inl (λ w. ground arith, inr (ground arith))
    by_producer ready q = inl (λ w. ground arith, inr (ground arith))
    by_producer signalling q = inl (λ w. ground arith, inr (ground arith))
    by_producer unlocking q = inl (λ w. ground arith, inr (ground arith))
mover {s} false e inv = by_producer s.producer refl
  where
    by_producer : (p : Pc) → s.producer ≡ p → Mover s
    by_producer waiting q =
        inr (λ w. ground (arith, inv.owned, inv.full_wait q, inv.empty_wait w), inl e)
    by_producer locking q = inl (λ w. ground arith, inl e)
    by_producer woken q = inl (λ w. ground arith, inl e)
    by_producer testing q = inl (λ w. ground arith, inl e)
    by_producer ready q = inl (λ w. ground arith, inl e)
    by_producer signalling q = inl (λ w. ground arith, inl e)
    by_producer unlocking q = inl (λ w. ground arith, inl e)

-- One condition variable for both directions loses no wakeup: the threads never sleep both, and one
-- of them can take a step without a spurious wakeup.
pub no_lost_wakeup :
    {s : Shop} → Reach s → ¬ ((s.producer ≡ waiting) × (s.consumer ≡ waiting)) × CanStep s
no_lost_wakeup {s} r = (
  λ h. asleep h,
  elim (mover s.locked refl (Reach-Inv r)) [
    | inl (a, b) ↦ inl (producer_runs s s.producer a b)
    | inr (a, b) ↦ inr (consumer_runs s s.consumer a b)
  ],
)
  where
    asleep : ¬ ((s.producer ≡ waiting) × (s.consumer ≡ waiting))
    asleep h = ground (arith, (Reach-Inv r).full_wait h.0, (Reach-Inv r).empty_wait h.1)
