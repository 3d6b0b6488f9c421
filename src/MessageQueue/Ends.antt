-- ===== src/MessageQueue/Ends.antt =====
-- Neither process waits for ever for the other.
use mathlib.Core.List.{append-nil}
use linux_application_layer.Common.{
  ℕ, ◌+◌, ◌*◌, ◌≤◌, ◌<◌, ◌≡◌, refl, ◌≢◌, ◌⊎◌, inl, inr, sym, ap, ◌∙◌, Bool, true, false, Option,
  none, some, List, [], ◌∷◌, ◌++◌, arith, length,
}
use linux_application_layer.MessageQueue.{
  Bytes, Read, failed, gave, eof_message, Producer, reading, sending, overrunning, sending_eof,
  closing, ended, Consumer, receiving, testing, stopping, unlinking, gone, System, has_room,
  on_read, producer_at, times_out, receive, consumer_at, Step, produce, time_out, consume, Reach,
  start, next,
}
use linux_application_layer.MessageQueue.Fifo.{Inv, Reach-Inv, NoEof, length-push}
use linux_application_layer.MessageQueue.Delivery.{lines, rest, Reach-Supplied}

abbrev pub CanStep : System → Type 0
CanStep s = (t : System) × Step s t

-- Both have ended, or the producer's buffer is full without a NUL and `strlen` runs past it.
pub data Over (s : System) : Type 0 where
  both : (m : Bytes) → s.producer ≡ ended → s.consumer ≡ gone m → Over s
  overran : (line : Bytes) (rs : List Read) → s.producer ≡ overrunning line rs → Over s

producer_steps :
    {s : System} (o : Option System) → producer_at s.producer s ≡ o → o ≢ none → CanStep s
producer_steps (some t) e h = (t, produce e)
producer_steps none e h = absurd (h refl)

consumer_steps :
    {s : System} (o : Option System) → consumer_at s.consumer s ≡ o → o ≢ none → CanStep s
consumer_steps (some t) e h = (t, consume e)
consumer_steps none e h = absurd (h refl)

timer_steps : {s : System} (o : Option System) → times_out s.producer s ≡ o → o ≢ none → CanStep s
timer_steps (some t) e h = (t, time_out e)
timer_steps none e h = absurd (h refl)

abbrev producer_runs : (s : System) → producer_at s.producer s ≢ none → CanStep s
producer_runs s h = producer_steps (producer_at s.producer s) refl h

abbrev consumer_runs : (s : System) → consumer_at s.consumer s ≢ none → CanStep s
consumer_runs s h = consumer_steps (consumer_at s.consumer s) refl h

abbrev timer_runs : (s : System) → times_out s.producer s ≢ none → CanStep s
timer_runs s h = timer_steps (times_out s.producer s) refl h

only_last_is_mark : (ls ps : List Bytes) → NoEof ps → ps ++ [] ≢ ls ++ (eof_message ∷ [])
only_last_is_mark [] [] h e = ground arith
only_last_is_mark [] (p ∷ []) h e = ground arith
only_last_is_mark [] (p ∷ (p' ∷ ps)) h e = ground arith
only_last_is_mark (l ∷ ls) [] h e = ground arith
only_last_is_mark (l ∷ ls) (p ∷ ps) h e = ground (arith, only_last_is_mark ls ps h.1)

-- A producer that has closed has sent the end mark: the consumer does not wait at an empty queue.
mark_comes :
    (ls : List Bytes) (s : System) (q : List Bytes)
    → s.consumer ≡ receiving
    → s.queue ≡ q
    → Inv s
    → s.accepted ≡ ls ++ (eof_message ∷ [])
    → consumer_at receiving s ≢ none
unfolding consumer_at
mark_comes ls s [] c e inv h =
    absurd (only_last_is_mark ls s.printed inv.lines_printed (ground (arith, inv.flow)))
mark_comes ls s (m ∷ q) c e inv h = ground arith

mover :
    (ls : List Bytes) (s : System) (p : Producer) (c : Consumer)
    → s.producer ≡ p
    → s.consumer ≡ c
    → Inv s
    → (rest p ≡ [] → s.accepted ≡ ls ++ (eof_message ∷ []))
    → Over s ⊎ CanStep s
unfolding producer_at times_out consumer_at
mover ls s (reading []) c d e inv h = inr (producer_runs s (ground arith))
mover ls s (reading (failed ∷ rs)) c d e inv h = inr (producer_runs s (ground arith))
mover ls s (reading (gave bs ∷ rs)) c d e inv h = inr (producer_runs s (ground arith))
mover ls s closing c d e inv h = inr (producer_runs s (ground arith))
mover ls s (overrunning line rs) c d e inv h = inl (overran line rs d)
mover ls s (sending line rs) c d e inv h = elim (room (has_room s.queue) refl) [
  | inl yes_room ↦ inr (producer_runs s (ground arith))
  | inr full ↦ inr (timer_runs s (ground arith))
]
  where
    room :
        (b : Bool) → has_room s.queue ≡ b → (has_room s.queue ≡ true) ⊎ (has_room s.queue ≡ false)
    room true x = inl x
    room false x = inr x
mover ls s sending_eof c d e inv h = elim (room (has_room s.queue) refl) [
  | inl yes_room ↦ inr (producer_runs s (ground arith))
  | inr full ↦ inr (timer_runs s (ground arith))
]
  where
    room :
        (b : Bool) → has_room s.queue ≡ b → (has_room s.queue ≡ true) ⊎ (has_room s.queue ≡ false)
    room true x = inl x
    room false x = inr x
mover ls s ended (testing m) d e inv h = inr (consumer_runs s (ground arith))
mover ls s ended (stopping m) d e inv h = inr (consumer_runs s (ground arith))
mover ls s ended (unlinking m) d e inv h = inr (consumer_runs s (ground arith))
mover ls s ended (gone m) d e inv h = inl (both m d e)
mover ls s ended receiving d e inv h =
    inr (consumer_runs s (ground (arith, mark_comes ls s s.queue e refl inv (h refl))))

abbrev producer_cost : Producer → ℕ
producer_cost (reading rs) = 4 * length rs + 6
producer_cost (sending line rs) = 4 * length rs + 9
producer_cost (overrunning line rs) = 0
producer_cost sending_eof = 5
producer_cost closing = 1
producer_cost ended = 0

abbrev consumer_cost : Consumer → ℕ
consumer_cost receiving = 3
consumer_cost (testing m) = 4
consumer_cost (stopping m) = 2
consumer_cost (unlinking m) = 1
consumer_cost (gone m) = 0

abbrev cost : System → ℕ
cost s = producer_cost s.producer + 2 * length s.queue + consumer_cost s.consumer

on_read_cost : (bs : Bytes) (rs : List Read) → producer_cost (on_read bs rs) ≤ 4 * length rs + 9
on_read_cost [] rs = omega arith
on_read_cost (b ∷ bs) rs = ground arith

producer-cost :
    (s : System) {t : System} (p : Producer)
    → s.producer ≡ p
    → producer_at p s ≡ some t
    → cost t < cost s
unfolding producer_at
producer-cost s (reading []) q e = ground arith
producer-cost s (reading (failed ∷ rs)) q e = ground arith
producer-cost s (reading (gave bs ∷ rs)) q e = ground (arith, on_read_cost bs rs)
producer-cost s (sending line rs) q e = ground (arith, length-push s.queue line)
producer-cost s sending_eof q e = ground (arith, length-push s.queue eof_message)
producer-cost s closing q e = ground arith
producer-cost s (overrunning line rs) q e = ground arith
producer-cost s ended q e = ground arith

times_out-cost :
    (s : System) {t : System} (p : Producer)
    → s.producer ≡ p
    → times_out p s ≡ some t
    → cost t < cost s
unfolding times_out
times_out-cost s (sending line rs) q e = ground arith
times_out-cost s sending_eof q e = ground arith
times_out-cost s (reading rs) q e = ground arith
times_out-cost s (overrunning line rs) q e = ground arith
times_out-cost s closing q e = ground arith
times_out-cost s ended q e = ground arith

receive-cost :
    (s : System) {t : System} (q : List Bytes)
    → s.queue ≡ q
    → s.consumer ≡ receiving
    → receive q s ≡ some t
    → cost t < cost s
receive-cost s [] f h e = ground arith
receive-cost s (m ∷ q) f h e = ground arith

consumer-cost :
    (s : System) {t : System} (c : Consumer)
    → s.consumer ≡ c
    → consumer_at c s ≡ some t
    → cost t < cost s
unfolding consumer_at
consumer-cost s receiving q e = receive-cost s s.queue refl q e
consumer-cost s (testing m) q e = ground arith
consumer-cost s (stopping m) q e = ground arith
consumer-cost s (unlinking m) q e = ground arith
consumer-cost s (gone m) q e = ground arith

Reach-cost : {rs : List Read} {k : ℕ} {s : System} → Reach rs k s → k + cost s ≤ 4 * length rs + 9
Reach-cost start = omega arith
Reach-cost (next {s = s} r (produce e)) =
    omega (arith, Reach-cost r, producer-cost s s.producer refl e)
Reach-cost (next {s = s} r (time_out e)) =
    omega (arith, Reach-cost r, times_out-cost s s.producer refl e)
Reach-cost (next {s = s} r (consume e)) =
    omega (arith, Reach-cost r, consumer-cost s s.consumer refl e)

-- While no send has timed out: one of the two processes can step until both have ended, unless a line
-- fills the producer's buffer and `strlen` runs past it; and the run has at most 4 n + 9 steps for n
-- calls of `read`. (A consumer that tries again after a day takes no step.)
pub both_end :
    {rs : List Read} {k : ℕ} {s : System}
    → Reach rs k s
    → s.dropped ≡ 0
    → (Over s ⊎ CanStep s) × (k ≤ 4 * length rs + 9)
both_end {rs} {k} {s} r z = (
  mover (lines rs) s s.producer s.consumer refl refl (Reach-Inv r) (λ h.
      sym (append-nil s.accepted) ∙ ap (λ v. s.accepted ++ v) (sym h) ∙ Reach-Supplied rs r z),
  omega (arith, Reach-cost r),
)
