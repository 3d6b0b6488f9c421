-- ===== src/MessageQueue/Fifo.antt =====
-- What the queue takes is printed in order, none lost, none twice.
use mathlib.Core.List.{append_assoc}
use linux_application_layer.Common.{
  ℕ, ◌+◌, ◌≤◌, ◌≡◌, refl, sym, ap, ◌∙◌, true, false, some, List, [], ◌∷◌, ◌++◌, arith, length,
}
use linux_application_layer.MessageQueue.{
  Bytes, Read, failed, gave, c_string, eof_message, is_eof, Producer, reading, sending, overrunning,
  sending_eof, closing, ended, Consumer, receiving, testing, stopping, unlinking, gone, System,
  maxmsg, on_read, producer_at, times_out, receive, consumer_at, produce, time_out, consume, Reach,
  start, next,
}

-- The message that the consumer holds.
abbrev pub flight : Consumer → List Bytes
flight receiving = []
flight (testing m) = m ∷ []
flight (stopping m) = m ∷ []
flight (unlinking m) = m ∷ []
flight (gone m) = m ∷ []

-- Sent as it was counted, and printed as it was sent.
abbrev pub IsText : Bytes → Type 0
IsText m = c_string m ≡ m

abbrev pub AllText : List Bytes → Type 0
AllText [] = Unit
AllText (m ∷ q) = IsText m × AllText q

abbrev pub Held : Consumer → Type 0
Held receiving = Unit
Held (testing m) = IsText m
Held (stopping m) = is_eof m ≡ true
Held (unlinking m) = is_eof m ≡ true
Held (gone m) = is_eof m ≡ true

abbrev pub ToSend : Producer → Type 0
ToSend (sending line rs) = IsText line
ToSend _ = Unit

c_string-IsText : (bs : Bytes) → IsText (c_string bs)
c_string-IsText [] = refl
c_string-IsText (b ∷ bs) = ground (arith, c_string-IsText bs)

AllText-push : (q : List Bytes) (m : Bytes) → AllText q → IsText m → AllText (q ++ (m ∷ []))
AllText-push [] m h t = (t, tt)
AllText-push (x ∷ q) m h t = (h.0, AllText-push q m h.1 t)

pub length-push : (q : List Bytes) (m : Bytes) → length (q ++ (m ∷ [])) ≡ length q + 1
length-push [] m = refl
length-push (x ∷ q) m = omega (arith, length-push q m)

-- No message that starts with the end mark.
abbrev pub NoEof : List Bytes → Type 0
NoEof [] = Unit
NoEof (m ∷ q) = (is_eof m ≡ false) × NoEof q

pub NoEof-push : (q : List Bytes) (m : Bytes) → NoEof q → is_eof m ≡ false → NoEof (q ++ (m ∷ []))
NoEof-push [] m h e = (e, tt)
NoEof-push (x ∷ q) m h e = (h.0, NoEof-push q m h.1 e)

pub record Inv (s : System) : Type 0 where
  pub flow : s.printed ++ (flight s.consumer ++ s.queue) ≡ s.accepted
  pub short : length s.queue ≤ maxmsg
  pub texts : AllText s.queue
  pub held : Held s.consumer
  pub lines_printed : NoEof s.printed
  pub to_send : ToSend s.producer

push_flow :
    (xs ys q zs : List Bytes) (m : Bytes)
    → xs ++ (ys ++ q) ≡ zs
    → xs ++ (ys ++ (q ++ (m ∷ []))) ≡ zs ++ (m ∷ [])
push_flow xs ys q zs m e =
    ap (λ v. xs ++ v) (sym (append_assoc ys q (m ∷ [])))
    ∙ sym (append_assoc xs (ys ++ q) (m ∷ []))
    ∙ ap (λ v. v ++ (m ∷ [])) e

on_read-ToSend : (bs : Bytes) (rs : List Read) → ToSend (on_read bs rs)
on_read-ToSend [] rs = tt
on_read-ToSend (b ∷ bs) rs = ground (arith, c_string-IsText (b ∷ bs))

producer-Inv :
    {s t : System} (p : Producer) → s.producer ≡ p → producer_at p s ≡ some t → Inv s → Inv t
unfolding producer_at
producer-Inv {s} (reading []) q e inv = ground arith
producer-Inv {s} (reading (failed ∷ rs)) q e inv = ground arith
producer-Inv {s} (reading (gave bytes ∷ rs)) q e inv = ground (arith, on_read-ToSend bytes rs)
producer-Inv {s} (sending line rs) q e inv = ground (
  arith,
  push_flow s.printed (flight s.consumer) s.queue s.accepted line inv.flow,
  AllText-push s.queue line inv.texts,
  length-push s.queue line,
)
producer-Inv {s} sending_eof q e inv = ground (
  arith,
  push_flow s.printed (flight s.consumer) s.queue s.accepted eof_message inv.flow,
  AllText-push s.queue eof_message inv.texts refl,
  length-push s.queue eof_message,
)
producer-Inv {s} closing q e inv = ground arith
producer-Inv {s} (overrunning line rs) q e inv = ground arith
producer-Inv {s} ended q e inv = ground arith

times_out-Inv :
    {s t : System} (p : Producer) → s.producer ≡ p → times_out p s ≡ some t → Inv s → Inv t
unfolding times_out
times_out-Inv {s} (sending line rs) q e inv = ground arith
times_out-Inv {s} sending_eof q e inv = ground arith
times_out-Inv {s} (reading rs) q e inv = ground arith
times_out-Inv {s} (overrunning line rs) q e inv = ground arith
times_out-Inv {s} closing q e inv = ground arith
times_out-Inv {s} ended q e inv = ground arith

receive-Inv :
    {s t : System} (q : List Bytes)
    → s.queue ≡ q
    → s.consumer ≡ receiving
    → receive q s ≡ some t
    → Inv s
    → Inv t
receive-Inv [] f h e inv = ground arith
receive-Inv (m ∷ q) f h e inv = ground arith

consumer-Inv :
    {s t : System} (c : Consumer) → s.consumer ≡ c → consumer_at c s ≡ some t → Inv s → Inv t
unfolding consumer_at
consumer-Inv {s} receiving q e inv = receive-Inv s.queue refl q e inv
consumer-Inv {s} (testing m) q e inv =
    ground
      (arith, append_assoc s.printed (m ∷ []) s.queue, NoEof-push s.printed m inv.lines_printed)
consumer-Inv {s} (stopping m) q e inv = ground arith
consumer-Inv {s} (unlinking m) q e inv = ground arith
consumer-Inv {s} (gone m) q e inv = ground arith

pub Reach-Inv : {rs : List Read} {k : ℕ} {s : System} → Reach rs k s → Inv s
Reach-Inv start = ground arith
Reach-Inv (next {s = s} r (produce e)) = producer-Inv s.producer refl e (Reach-Inv r)
Reach-Inv (next {s = s} r (time_out e)) = times_out-Inv s.producer refl e (Reach-Inv r)
Reach-Inv (next {s = s} r (consume e)) = consumer-Inv s.consumer refl e (Reach-Inv r)

-- At every moment the lines that the consumer has printed, then the message that it holds, then the
-- messages in the queue are what the queue has taken, in that order; and at most ten wait.
pub printed_in_order :
    {rs : List Read} {k : ℕ} {s : System}
    → Reach rs k s
    → (s.printed ++ (flight s.consumer ++ s.queue) ≡ s.accepted) × (length s.queue ≤ maxmsg)
printed_in_order r = let inv = Reach-Inv r in (inv.flow, inv.short)
