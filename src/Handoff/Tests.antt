-- ===== src/Handoff/Tests.antt =====
-- A run of unnamed_sem_count_thread.c, and its theorems there.
use linux_application_layer.Common.{ℕ, ◌+◌, ◌*◌, ◌%◌, ◌≤◌, ◌≡◌, refl, ◌⊎◌, Option, none, some}
use linux_application_layer.Counter.Lock.{sem_wait, sem_post}
use linux_application_layer.Handoff.{
  rounds, Cell, returned, main, producer_at, consumer_at, produce, consume, Reach, start, next,
}
use linux_application_layer.Handoff.Invariant.{draws}
use linux_application_layer.Handoff.Delivery.{CanStep, all_delivered}

-- A generator and a clock that moves once in two rounds.
rand : ℕ → ℕ
rand seed = (seed * 1103 + 12345) % 32768

time : ℕ → ℕ
time i = 1000 + i

record Run : Type 0 where
  steps : ℕ
  last : Cell
  reach : Reach rand time steps last

by_producer : (r : Run) (o : Option Cell) → producer_at rand time r.last.producer r.last ≡ o → Run
by_producer r none e = r
by_producer r (some t) e = record { steps = _; last = t; reach = next r.reach (produce e) }

by_consumer : (r : Run) (o : Option Cell) → consumer_at rand time r.last.consumer r.last ≡ o → Run
by_consumer r none e = r
by_consumer r (some t) e = record { steps = _; last = t; reach = next r.reach (consume e) }

-- Both threads try to step, again and again.
play : ℕ → Run → Run
unfolding by_producer by_consumer producer_at consumer_at sem_wait sem_post rand time
play ℕ.zero r = r
play (ℕ.suc n) r =
    let p = by_producer r (producer_at rand time r.last.producer r.last) refl in
    play n (by_consumer p (consumer_at rand time p.last.consumer p.last) refl)

abbrev early : Run
early = play 5 (record { steps = 0; last = main rand time; reach = start })

abbrev finished : Run
finished = play 30 (record { steps = 0; last = main rand time; reach = start })

finished_lem : (finished.last.producer ≡ returned) × (finished.last.consumer ≡ returned)
unfolding play
finished_lem = (refl, refl)

all_delivered_example :
    ((finished.last.producer ≡ returned) × (finished.last.consumer ≡ returned)
      ⊎ CanStep rand time finished.last)
    × (finished.steps ≤ 30)
    × ((finished.last.producer ≡ returned)
        → (finished.last.consumer ≡ returned)
        → (finished.last.sent ≡ draws rand time rounds)
          × (finished.last.received ≡ draws rand time rounds))
all_delivered_example = all_delivered rand time finished.reach
