-- ===== src/FatherSonMq.antt =====
-- process_test/father_son_mq_test.c: a father sends ten messages through a queue to its son, which
-- receives ten times.
pub mod Order
mod Tests
use linux_application_layer.Common.{
  ℕ, zero, suc, ◌+◌, ◌≡◌, Bool, true, false, Option, none, some, List, [], ◌∷◌, ◌++◌, ltb, length,
  if◌then◌else◌,
}
use linux_application_layer.MessageQueue.{maxmsg}

-- The rounds of either loop.
abbrev pub rounds : ℕ
rounds = 10

-- A process in round `i` of its loop (counted from 0), before `close`, before `mq_unlink`, ended.
pub data Pc : Type 0 where
  round : ℕ → Pc
  closing unlinking ended : Pc

pub record System : Type 0 where
  pub queue : List ℕ  -- the numbers of the messages, the oldest first
  pub linked : Bool
  pub father : Pc
  pub son : Pc
  pub printed : List (Option ℕ)  -- by the son, in order; `none` after a receive that timed out
  pub failed_sends : ℕ

-- `i++` and the test of the loop.
abbrev pub after : ℕ → Pc
after i = if ltb (i + 1) rounds then round (i + 1) else closing

-- `attr.mq_maxmsg` is 10.
abbrev pub room : List ℕ → Bool
room q = ltb (length q) maxmsg

-- The father's next step; `none` where it waits for room.
unfoldable pub father_at : Pc → System → Option System
father_at (round i) s =
    if room s.queue
    then some (record s { queue = s.queue ++ ((i + 1) ∷ []); father = after i })
    else none
father_at closing s = some (record s { father = unlinking })
father_at unlinking s = some (record s { linked = false; father = ended })
father_at ended s = none

-- After five seconds without room.
unfoldable pub father_times_out : Pc → System → Option System
father_times_out (round i) s =
    if room s.queue
    then none
    else some (record s { failed_sends = s.failed_sends + 1; father = after i })
father_times_out closing s = none
father_times_out unlinking s = none
father_times_out ended s = none

abbrev pub receive : ℕ → List ℕ → System → Option System
receive i [] s = none
receive i (m ∷ q) s =
    some (record s { queue = q; printed = s.printed ++ (some m ∷ []); son = after i })

unfoldable pub son_at : Pc → System → Option System
son_at (round i) s = receive i s.queue s
son_at closing s = some (record s { son = ended })
son_at unlinking s = none
son_at ended s = none

-- After fifteen seconds without a message the son prints its empty buffer.
abbrev pub give_up : ℕ → List ℕ → System → Option System
give_up i [] s = some (record s { printed = s.printed ++ (none ∷ []); son = after i })
give_up i (m ∷ q) s = none

unfoldable pub son_times_out : Pc → System → Option System
son_times_out (round i) s = give_up i s.queue s
son_times_out closing s = none
son_times_out unlinking s = none
son_times_out ended s = none

-- After a `fork` that succeeds, on a new queue.
abbrev pub forked : System
forked = record {
  queue = [];
  linked = true;
  father = round 0;
  son = round 0;
  printed = [];
  failed_sends = 0;
}

pub data Step (s : System) : System → Type 0 where
  send : {t : System} → father_at s.father s ≡ some t → Step s t
  send_fails : {t : System} → father_times_out s.father s ≡ some t → Step s t
  take : {t : System} → son_at s.son s ≡ some t → Step s t
  take_fails : {t : System} → son_times_out s.son s ≡ some t → Step s t

pub data Reach : ℕ → System → Type 0 where
  start : Reach 0 forked
  next : {k : ℕ} {s t : System} → Reach k s → Step s t → Reach (suc k) t
