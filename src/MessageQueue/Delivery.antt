-- ===== src/MessageQueue/Delivery.antt =====
-- Where no send times out, the consumer prints all lines.
use mathlib.Core.List.{append_assoc}
use linux_application_layer.Common.{
  ℕ, ◌≡◌, refl, sym, ap, ◌∙◌, true, some, List, [], ◌∷◌, ◌++◌, arith,
}
use linux_application_layer.MessageQueue.{
  Bytes, Read, failed, gave, c_string, eof_message, is_eof, Producer, reading, sending, overrunning,
  sending_eof, closing, ended, Consumer, receiving, testing, stopping, unlinking, gone, System,
  on_read, producer_at, times_out, receive, consumer_at, produce, time_out, consume, Reach, start,
  next,
}
use linux_application_layer.MessageQueue.Fifo.{Reach-Inv, NoEof}

-- The lines that are typed, up to the end of the input.
abbrev pub lines : List Read → List Bytes
lines [] = []
lines (failed ∷ rs) = lines rs
lines (gave [] ∷ rs) = []
lines (gave (b ∷ bs) ∷ rs) = c_string (b ∷ bs) ∷ lines rs

abbrev pub all_sent : List Read → List Bytes
all_sent rs = lines rs ++ (eof_message ∷ [])

-- What the producer is still to send.
abbrev pub rest : Producer → List Bytes
rest (reading rs) = all_sent rs
rest (sending line rs) = line ∷ all_sent rs
rest (overrunning line rs) = line ∷ all_sent rs
rest sending_eof = eof_message ∷ []
rest closing = []
rest ended = []

pub rest-on_read : (bs : Bytes) (rs : List Read) → rest (on_read bs rs) ≡ all_sent (gave bs ∷ rs)
rest-on_read [] rs = refl
rest-on_read (b ∷ bs) rs = ground arith

-- What is sent and what is to be sent are all the lines, where nothing was dropped.
abbrev pub Supplied : List Read → System → Type 0
Supplied rs s = s.dropped ≡ 0 → s.accepted ++ rest s.producer ≡ all_sent rs

producer-Supplied :
    (all : List Read) (s : System) {t : System} (p : Producer)
    → s.producer ≡ p
    → producer_at p s ≡ some t
    → Supplied all s
    → Supplied all t
unfolding producer_at
producer-Supplied all s (reading []) q e h z = ground (arith, h)
producer-Supplied all s (reading (failed ∷ rs)) q e h z = ground (arith, h)
producer-Supplied all s (reading (gave bytes ∷ rs)) q e h z =
    ground (arith, h, rest-on_read bytes rs)
producer-Supplied all s (sending line rs) q e h z =
    ground (arith, h, append_assoc s.accepted (line ∷ []) (all_sent rs))
producer-Supplied all s sending_eof q e h z =
    ground (arith, h, append_assoc s.accepted (eof_message ∷ []) [])
producer-Supplied all s closing q e h z = ground (arith, h)
producer-Supplied all s (overrunning line rs) q e h z = ground arith
producer-Supplied all s ended q e h z = ground arith

times_out-Supplied :
    (all : List Read) (s : System) {t : System} (p : Producer)
    → s.producer ≡ p
    → times_out p s ≡ some t
    → Supplied all t
unfolding times_out
times_out-Supplied all s (sending line rs) q e z = absurd (ground arith)
times_out-Supplied all s sending_eof q e z = absurd (ground arith)
times_out-Supplied all s (reading rs) q e z = ground arith
times_out-Supplied all s (overrunning line rs) q e z = ground arith
times_out-Supplied all s closing q e z = ground arith
times_out-Supplied all s ended q e z = ground arith

receive-Supplied :
    (all : List Read) (s : System) {t : System} (q : List Bytes)
    → receive q s ≡ some t
    → Supplied all s
    → Supplied all t
receive-Supplied all s [] e h z = ground arith
receive-Supplied all s (m ∷ q) e h z = ground (arith, h)

consumer-Supplied :
    (all : List Read) (s : System) {t : System} (c : Consumer)
    → consumer_at c s ≡ some t
    → Supplied all s
    → Supplied all t
unfolding consumer_at
consumer-Supplied all s receiving e h z = receive-Supplied all s s.queue e h z
consumer-Supplied all s (testing m) e h z = ground (arith, h)
consumer-Supplied all s (stopping m) e h z = ground (arith, h)
consumer-Supplied all s (unlinking m) e h z = ground (arith, h)
consumer-Supplied all s (gone m) e h z = ground arith

pub Reach-Supplied : (all : List Read) {k : ℕ} {s : System} → Reach all k s → Supplied all s
Reach-Supplied all start z = refl
Reach-Supplied all (next {s = s} r (produce e)) z =
    producer-Supplied all s s.producer refl e (Reach-Supplied all r) z
Reach-Supplied all (next {s = s} r (time_out e)) z = times_out-Supplied all s s.producer refl e z
Reach-Supplied all (next {s = s} r (consume e)) z =
    consumer-Supplied all s s.consumer e (Reach-Supplied all r) z

-- Before the first end mark come exactly the lines.
up_to_eof :
    (printed ls q : List Bytes) (m : Bytes)
    → is_eof m ≡ true
    → NoEof ls
    → printed ++ (m ∷ q) ≡ ls ++ (eof_message ∷ [])
    → printed ≡ ls
up_to_eof [] [] q m h n e = refl
up_to_eof [] (l ∷ ls) q m h n e = ground arith
up_to_eof (p ∷ []) [] q m h n e = ground arith
up_to_eof (p ∷ (p' ∷ ps)) [] q m h n e = ground arith
up_to_eof (p ∷ ps) (l ∷ ls) q m h n e = ground (arith, up_to_eof ps ls q m h n.1)

-- If no send has timed out and no line begins with the byte 255, then the consumer, when it has
-- ended, has printed exactly the lines typed before the end of the input, in order (each up to its
-- first NUL).
pub delivers_lines :
    {rs : List Read} {k : ℕ} {s : System} (m : Bytes)
    → Reach rs k s
    → s.dropped ≡ 0
    → NoEof (lines rs)
    → s.consumer ≡ gone m
    → s.printed ≡ lines rs
delivers_lines {rs} {k} {s} m r z n e =
    let inv = Reach-Inv r in
    let supplied = Reach-Supplied rs r z in
    up_to_eof s.printed (lines rs) (s.queue ++ rest s.producer) m (ground (arith, inv.held)) n (
      sym (append_assoc s.printed (m ∷ s.queue) (rest s.producer))
      ∙ ap (λ v. v ++ rest s.producer) (ground (arith, inv.flow))
      ∙ supplied)
