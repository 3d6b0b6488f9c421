-- ===== src/MessageQueue.antt =====
-- A producer that sends typed lines through a message queue to a consumer that prints them
-- (process_test/producer.c and process_test/consumer.c).
pub mod Fifo
pub mod Delivery
pub mod Ends
pub mod Dropped
pub mod Late
pub mod Untouched
pub mod Stranded
mod Tests
use linux_application_layer.Common.{
  ℕ, suc, ◌+◌, ◌≡◌, Bool, true, false, Option, none, some, List, [], ◌∷◌, ◌++◌, ◌==◌, ltb, length,
  if◌then◌else◌,
}

-- A message or a line, as bytes.
abbrev pub Bytes : Type 0
Bytes = List ℕ

-- The results of the producer's calls of `read`; where the list ends, so does the input.
pub data Read : Type 0 where
  failed : Read
  gave : Bytes → Read

-- The bytes before the first NUL: what `strlen` counts and `%s` prints. A buffer is zeroed before
-- each call, so that a NUL follows the bytes of a read if there is room for one.
abbrev pub c_string : Bytes → Bytes
c_string [] = []
c_string (b ∷ bs) = let rest = c_string bs in if b == 0 then [] else b ∷ rest

-- `char eof = EOF;`
abbrev pub eof_message : Bytes
eof_message = 255 ∷ []

-- `readBuf[0] == EOF`
abbrev pub is_eof : Bytes → Bool
is_eof [] = false
is_eof (b ∷ bs) = b == 255

-- The producer: before `read`, before `mq_timedsend` of a line, before that of the end, with a line
-- that fills its buffer without a NUL, where `strlen` runs past it; before `close`; ended.
pub data Producer : Type 0 where
  reading : List Read → Producer
  sending overrunning : Bytes → List Read → Producer
  sending_eof closing ended : Producer

-- The consumer: before `mq_timedreceive`, before its test of the message, and then with the message
-- that stopped it before `close`, before `mq_unlink`, and ended.
pub data Consumer : Type 0 where
  receiving : Consumer
  testing stopping unlinking gone : Bytes → Consumer

pub record System : Type 0 where
  pub queue : List Bytes  -- the oldest first
  pub linked : Bool
  pub producer : Producer
  pub consumer : Consumer
  pub accepted : List Bytes  -- what the queue has taken, in order
  pub dropped : ℕ  -- how often `mq_timedsend` failed
  pub sent_notices : ℕ  -- how often the producer said that it has sent a line
  pub printed : List Bytes  -- by the consumer, in order

-- `attr.mq_maxmsg`
abbrev pub maxmsg : ℕ
maxmsg = 10

abbrev pub has_room : List Bytes → Bool
has_room q = ltb (length q) maxmsg

-- What the producer does with the result of a `read`.
abbrev pub on_read : Bytes → List Read → Producer
on_read [] rs = sending_eof
on_read (b ∷ bs) rs =
    let line = c_string (b ∷ bs) in
    if ltb (length line) 100 then sending line rs else overrunning line rs

-- The producer's next step; `none` where it waits for room.
unfoldable pub producer_at : Producer → System → Option System
producer_at (reading []) s = some (record s { producer = sending_eof })
producer_at (reading (failed ∷ rs)) s = some (record s { producer = reading rs })
producer_at (reading (gave bytes ∷ rs)) s = some (record s { producer = on_read bytes rs })
producer_at (sending line rs) s =
    if has_room s.queue
    then some (record s {
      queue = s.queue ++ (line ∷ []);
      accepted = s.accepted ++ (line ∷ []);
      sent_notices = s.sent_notices + 1;
      producer = reading rs;
    })
    else none
producer_at sending_eof s =
    if has_room s.queue
    then some (record s {
      queue = s.queue ++ (eof_message ∷ []);
      accepted = s.accepted ++ (eof_message ∷ []);
      producer = closing;
    })
    else none
producer_at closing s = some (record s { producer = ended })
producer_at (overrunning line rs) s = none
producer_at ended s = none

-- After five seconds without room the send fails, and the producer goes on as after a success.
unfoldable pub times_out : Producer → System → Option System
times_out (sending line rs) s =
    if has_room s.queue
    then none
    else some (record s {
      dropped = s.dropped + 1;
      sent_notices = s.sent_notices + 1;
      producer = reading rs;
    })
times_out sending_eof s =
    if has_room s.queue
    then none
    else some (record s { dropped = s.dropped + 1; producer = closing })
times_out (reading rs) s = none
times_out (overrunning line rs) s = none
times_out closing s = none
times_out ended s = none

-- `mq_timedreceive`; on an empty queue it waits, and after a day it is called again.
abbrev pub receive : List Bytes → System → Option System
receive [] s = none
receive (m ∷ q) s = some (record s { queue = q; consumer = testing m })

unfoldable pub consumer_at : Consumer → System → Option System
consumer_at receiving s = receive s.queue s
consumer_at (testing m) s =
    if is_eof m
    then some (record s { consumer = stopping m })
    else some (record s { printed = s.printed ++ (c_string m ∷ []); consumer = receiving })
consumer_at (stopping m) s = some (record s { consumer = unlinking m })
consumer_at (unlinking m) s = some (record s { linked = false; consumer = gone m })
consumer_at (gone m) s = none

-- Both have opened the queue, which was new.
abbrev pub start_of : List Read → System
start_of rs = record {
  queue = [];
  linked = true;
  producer = reading rs;
  consumer = receiving;
  accepted = [];
  dropped = 0;
  sent_notices = 0;
  printed = [];
}

pub data Step (s : System) : System → Type 0 where
  produce : {t : System} → producer_at s.producer s ≡ some t → Step s t
  time_out : {t : System} → times_out s.producer s ≡ some t → Step s t
  consume : {t : System} → consumer_at s.consumer s ≡ some t → Step s t

pub data Reach (rs : List Read) : ℕ → System → Type 0 where
  start : Reach rs 0 (start_of rs)
  next : {k : ℕ} {s t : System} → Reach rs k s → Step s t → Reach rs (suc k) t
