-- ===== src/MessageQueue/Dropped.antt =====
-- Every line and the end mark is taken, dropped or still to be sent, and nothing is dropped before ten
-- were taken.
use linux_application_layer.Common.{
  ℕ, ◌+◌, ◌≤◌, ◌≡◌, refl, ◌⊎◌, inl, inr, some, List, [], ◌∷◌, ◌++◌, arith, length, length-append,
}
use linux_application_layer.MessageQueue.{
  Bytes, Read, failed, gave, eof_message, Producer, reading, sending, overrunning, sending_eof,
  closing, ended, Consumer, receiving, testing, stopping, unlinking, gone, System, maxmsg,
  producer_at, times_out, receive, consumer_at, produce, time_out, consume, Reach, start, next,
}
use linux_application_layer.MessageQueue.Fifo.{Reach-Inv, Inv, flight, length-push}
use linux_application_layer.MessageQueue.Delivery.{all_sent, rest, rest-on_read}

abbrev pub Counted : ℕ → System → Type 0
Counted n s = length s.accepted + (length (rest s.producer) + s.dropped) ≡ n

producer-Counted :
    (n : ℕ) (s : System) {t : System} (p : Producer)
    → s.producer ≡ p
    → producer_at p s ≡ some t
    → Counted n s
    → Counted n t
unfolding producer_at
producer-Counted n s (reading []) q e h = ground arith
producer-Counted n s (reading (failed ∷ rs)) q e h = ground arith
producer-Counted n s (reading (gave bytes ∷ rs)) q e h = ground (arith, rest-on_read bytes rs)
producer-Counted n s (sending line rs) q e h = ground (arith, length-push s.accepted line)
producer-Counted n s sending_eof q e h = ground (arith, length-push s.accepted eof_message)
producer-Counted n s closing q e h = ground arith
producer-Counted n s (overrunning line rs) q e h = ground arith
producer-Counted n s ended q e h = ground arith

times_out-Counted :
    (n : ℕ) (s : System) {t : System} (p : Producer)
    → s.producer ≡ p
    → times_out p s ≡ some t
    → Counted n s
    → Counted n t
unfolding times_out
times_out-Counted n s (sending line rs) q e h = ground arith
times_out-Counted n s sending_eof q e h = ground arith
times_out-Counted n s (reading rs) q e h = ground arith
times_out-Counted n s (overrunning line rs) q e h = ground arith
times_out-Counted n s closing q e h = ground arith
times_out-Counted n s ended q e h = ground arith

receive_keeps :
    (s t : System) (q : List Bytes)
    → receive q s ≡ some t
    → (t.accepted ≡ s.accepted) × (t.producer ≡ s.producer) × (t.dropped ≡ s.dropped)
receive_keeps s t [] e = ground arith
receive_keeps s t (m ∷ q) e = ground arith

-- The consumer sends nothing.
consumer_keeps :
    (s t : System) (c : Consumer)
    → consumer_at c s ≡ some t
    → (t.accepted ≡ s.accepted) × (t.producer ≡ s.producer) × (t.dropped ≡ s.dropped)
unfolding consumer_at
consumer_keeps s t receiving e = receive_keeps s t s.queue e
consumer_keeps s t (testing m) e = ground arith
consumer_keeps s t (stopping m) e = ground arith
consumer_keeps s t (unlinking m) e = ground arith
consumer_keeps s t (gone m) e = ground arith

pub Reach-Counted :
    {rs : List Read} {k : ℕ} {s : System} → Reach rs k s → Counted (length (all_sent rs)) s
Reach-Counted start = ground arith
Reach-Counted {rs} (next {s} r (produce e)) =
    producer-Counted (length (all_sent rs)) s s.producer refl e (Reach-Counted r)
Reach-Counted {rs} (next {s} r (time_out e)) =
    times_out-Counted (length (all_sent rs)) s s.producer refl e (Reach-Counted r)
Reach-Counted (next {s} {t} r (consume e)) =
    ground (arith, Reach-Counted r, consumer_keeps s t s.consumer e)

abbrev pub DropsLate : System → Type 0
DropsLate s = (s.dropped ≡ 0) ⊎ (maxmsg ≤ length s.accepted)

queue-le-accepted : {s : System} → Inv s → length s.queue ≤ length s.accepted
queue-le-accepted {s} inv = ground (
  arith,
  inv.flow,
  length-append s.printed (flight s.consumer ++ s.queue),
  length-append (flight s.consumer) s.queue,
)

producer-DropsLate :
    (s t : System) (p : Producer) → producer_at p s ≡ some t → DropsLate s → DropsLate t
unfolding producer_at
producer-DropsLate s t (reading []) e h = ground arith
producer-DropsLate s t (reading (failed ∷ rs)) e h = ground arith
producer-DropsLate s t (reading (gave bytes ∷ rs)) e h = ground arith
producer-DropsLate s t (sending line rs) e h = ground (arith, length-push s.accepted line)
producer-DropsLate s t sending_eof e h = ground (arith, length-push s.accepted eof_message)
producer-DropsLate s t closing e h = ground arith
producer-DropsLate s t (overrunning line rs) e h = ground arith
producer-DropsLate s t ended e h = ground arith

times_out-DropsLate :
    {s t : System} (p : Producer) → times_out p s ≡ some t → Inv s → maxmsg ≤ length t.accepted
unfolding times_out
times_out-DropsLate (sending line rs) e inv = ground (arith, queue-le-accepted inv)
times_out-DropsLate sending_eof e inv = ground (arith, queue-le-accepted inv)
times_out-DropsLate (reading rs) e inv = ground arith
times_out-DropsLate (overrunning line rs) e inv = ground arith
times_out-DropsLate closing e inv = ground arith
times_out-DropsLate ended e inv = ground arith

pub Reach-DropsLate : {rs : List Read} {k : ℕ} {s : System} → Reach rs k s → DropsLate s
Reach-DropsLate start = inl refl
Reach-DropsLate (next {s} {t} r (produce e)) =
    producer-DropsLate s t s.producer e (Reach-DropsLate r)
Reach-DropsLate (next {s} r (time_out e)) = inr (times_out-DropsLate s.producer e (Reach-Inv r))
Reach-DropsLate (next {s} {t} r (consume e)) =
    ground (arith, Reach-DropsLate r, consumer_keeps s t s.consumer e)
