-- ===== src/MessageQueue/Stranded.antt =====
-- Ten lines that the consumer leaves in the queue for too long cost it the end mark.
use linux_application_layer.Common.{◌≤◌, refl, ◌↔◌, List, [], arith, length}
use linux_application_layer.MessageQueue.{Bytes, reading, start}
use linux_application_layer.MessageQueue.Late.{typed, AllSendable, CanStrand, strands_late}
use linux_application_layer.MessageQueue.Untouched.{Untouched, fills, drains}

-- For lines that are not empty, fit into the producer's buffer with a NUL and do not begin with the
-- end mark, the two programs have a run in which the producer ends, its end mark lost, and the
-- consumer waits for ever, exactly if at least ten lines are typed.
pub strands_iff : (ls : List Bytes) → AllSendable ls → CanStrand (typed ls) ↔ (10 ≤ length ls)
strands_iff ls h = (
  strands_late ls h,
  λ le.
      let (q, n, u) = fills ls [] h tt (omega arith) begins in
      drains q u.state u.reach u.at u.idle u.queued n,
)
  where
    begins : Untouched (typed ls) (reading (typed ls)) []
    begins = record { steps = 0; state = _; reach = start; at = refl; queued = refl; idle = refl }
