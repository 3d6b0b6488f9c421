-- ===== src/ConditionVar/Tests.antt =====
-- A run of condition_var.c, and its theorems there.
use linux_application_layer.Common.{
  ◌-◌, ◌<◌, ◌≡◌, refl, Bool, true, false, Option, none, some, List, [], ◌∷◌, length,
}
use linux_application_layer.ConditionVar.{
  Shop, main, waiting, ready, signalling, producer_at, consumer_at, Reach, start, next, produce,
  consume,
}
use linux_application_layer.ConditionVar.Invariant.{holds}
use linux_application_layer.ConditionVar.Safety.{CanStep, accesses_in_bounds, no_lost_wakeup}
use linux_application_layer.ConditionVar.Conservation.{Conserved, Reach-Conserved}
use linux_application_layer.ConditionVar.Refinement.{StackReach, view, refines_stack}

record Run : Type 0 where
  last : Shop
  reach : Reach last

by_producer : (r : Run) (o : Option Shop) → producer_at r.last.producer r.last ≡ o → Run
by_producer r none e = r
by_producer r (some t) e = record { last = t; reach = next r.reach (produce e) }

by_consumer : (r : Run) (o : Option Shop) → consumer_at r.last.consumer r.last ≡ o → Run
by_consumer r none e = r
by_consumer r (some t) e = record { last = t; reach = next r.reach (consume e) }

-- The producer's turn is `true`.
play : Run → List Bool → Run
unfolding by_producer by_consumer producer_at consumer_at
play r [] = r
play r (true ∷ ts) = play (by_producer r (producer_at r.last.producer r.last) refl) ts
play r (false ∷ ts) = play (by_consumer r (consumer_at r.last.consumer r.last) refl) ts

-- The consumer finds nothing and sleeps; the producer sends 1 and 2; the consumer takes 2.
abbrev exchange : Run
exchange =
    play (record { last = main; reach = start })
      (false ∷ false ∷ false ∷ true ∷ true ∷ true ∷ true ∷ true ∷ true ∷ true ∷ true ∷ true ∷ true
        ∷ false ∷ false ∷ false ∷ [])

exchange_lem :
    (exchange.last.sent ≡ 2 ∷ 1 ∷ [])
    × (exchange.last.received ≡ 2 ∷ [])
    × (exchange.last.consumer ≡ signalling)
unfolding play
exchange_lem = (refl, refl, refl)

accesses_in_bounds_example :
    (exchange.last.producer ≡ ready → exchange.last.count < length exchange.last.buffer)
    × (exchange.last.consumer ≡ ready
        → (0 < exchange.last.count) × (exchange.last.count - 1 < length exchange.last.buffer))
    × ¬ ((holds exchange.last.producer ≡ 1) × (holds exchange.last.consumer ≡ 1))
accesses_in_bounds_example = accesses_in_bounds exchange.reach

no_lost_wakeup_example :
    ¬ ((exchange.last.producer ≡ waiting) × (exchange.last.consumer ≡ waiting))
    × CanStep exchange.last
no_lost_wakeup_example = no_lost_wakeup exchange.reach

Reach-Conserved_example : Conserved exchange.last
Reach-Conserved_example = Reach-Conserved exchange.reach

refines_stack_example : StackReach (view exchange.last)
refines_stack_example = refines_stack exchange.reach
