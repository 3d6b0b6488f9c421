-- ===== src/MessageQueue/Untouched.antt =====
-- Runs in which the producer fills the queue before the consumer receives, and loses its end mark.
use linux_application_layer.Common.{
  ℕ, suc, ◌+◌, ◌≤◌, ◌≡◌, refl, subst, sym, inl, inr, some, List, [], ◌∷◌, ◌++◌, arith, length,
  Bool-cases, ◌∙◌, if◌then◌else◌,
}
use linux_application_layer.MessageQueue.{
  Bytes, Read, gave, c_string, Producer, reading, sending, sending_eof, closing, ended, receiving,
  testing, System, maxmsg, has_room, producer_at, times_out, consumer_at, produce, time_out,
  consume, Reach, next,
}
use linux_application_layer.MessageQueue.Fifo.{NoEof, NoEof-push, length-push}
use linux_application_layer.MessageQueue.Ends.{CanStep}
use linux_application_layer.MessageQueue.Late.{typed, Sendable, AllSendable, CanStrand}

-- A state of a run on `rs` whose consumer has not received yet.
pub record Untouched (rs : List Read) (p : Producer) (q : List Bytes) : Type 0 where
  pub steps : ℕ
  pub state : System
  pub reach : Reach rs steps state
  pub at : state.producer ≡ p
  pub queued : state.queue ≡ q
  pub idle : state.consumer ≡ receiving

-- The queue after a send, which fails where it is full.
abbrev after : List Bytes → Bytes → List Bytes
after q m = if has_room q then q ++ (m ∷ []) else q

after-NoEof : (q : List Bytes) (l : Bytes) → NoEof q → Sendable l → NoEof (after q (c_string l))
after-NoEof q [] n h = absurd h
after-NoEof q (b ∷ bs) n h = ground (arith, NoEof-push q (c_string (b ∷ bs)) n)

after_length :
    (q : List Bytes) (m : Bytes) (n : ℕ) → 10 ≤ length q + suc n → 10 ≤ length (after q m) + n
after_length q m n h = ground (arith, length-push q m)

stays : (s : System) → s.producer ≡ ended → s.consumer ≡ receiving → s.queue ≡ [] → ¬ CanStep s
unfolding producer_at times_out consumer_at
stays s p c e (t, produce q) = ground arith
stays s p c e (t, time_out q) = ground arith
stays s p c e (t, consume q) = ground arith

module _ {rs : List Read} where
  -- The producer steps, and the consumer does not.
  produces :
      {p p' : Producer} {q q' : List Bytes} (u : Untouched rs p q) (t : System)
      → producer_at p u.state ≡ some t
      → t.producer ≡ p'
      → t.queue ≡ q'
      → t.consumer ≡ u.state.consumer
      → Untouched rs p' q'
  produces u t e at queued idle = record {
    steps = _;
    state = t;
    reach = next u.reach (produce (subst (λ p. producer_at p u.state ≡ some t) (sym u.at) e));
    at = at;
    queued = queued;
    idle = idle ∙ u.idle;
  }

  gives_up :
      {p p' : Producer} {q q' : List Bytes} (u : Untouched rs p q) (t : System)
      → times_out p u.state ≡ some t
      → t.producer ≡ p'
      → t.queue ≡ q'
      → t.consumer ≡ u.state.consumer
      → Untouched rs p' q'
  gives_up u t e at queued idle = record {
    steps = _;
    state = t;
    reach = next u.reach (time_out (subst (λ p. times_out p u.state ≡ some t) (sym u.at) e));
    at = at;
    queued = queued;
    idle = idle ∙ u.idle;
  }

  reads :
      (l : Bytes) {more : List Read} {q : List Bytes}
      → Sendable l
      → Untouched rs (reading (gave l ∷ more)) q
      → Untouched rs (sending (c_string l) more) q
  unfolding producer_at
  reads [] h u = absurd h
  reads (b ∷ bs) {more} h u =
      let t : System = record u.state { producer = sending (c_string (b ∷ bs)) more } in
      produces u t (ground (arith, h)) refl u.queued refl

  sends :
      {m : Bytes} {more : List Read} {q : List Bytes}
      → Untouched rs (sending m more) q
      → Untouched rs (reading more) (after q m)
  unfolding producer_at times_out
  sends {m} {more} {q} u = elim (Bool-cases (has_room q)) [
    | inl room ↦
        let t : System = record u.state {
          queue = u.state.queue ++ (m ∷ []);
          accepted = u.state.accepted ++ (m ∷ []);
          sent_notices = u.state.sent_notices + 1;
          producer = reading more;
        } in
        produces u t (ground (arith, room, u.queued)) refl (ground (arith, room, u.queued)) refl
    | inr full ↦
        let t : System = record u.state {
          dropped = u.state.dropped + 1;
          sent_notices = u.state.sent_notices + 1;
          producer = reading more;
        } in
        gives_up u t (ground (arith, full, u.queued)) refl (ground (arith, full, u.queued)) refl
  ]

  -- On a full queue the end mark is lost.
  loses_mark :
      {q : List Bytes} → maxmsg ≤ length q → Untouched rs (reading []) q → Untouched rs ended q
  unfolding producer_at times_out
  loses_mark full u =
      let at_eof = produces u (record u.state { producer = sending_eof }) refl refl u.queued refl in
      let at_close : Untouched rs closing _ =
        gives_up at_eof
          (record at_eof.state { dropped = at_eof.state.dropped + 1; producer = closing })
          (ground (arith, full, at_eof.queued)) refl at_eof.queued refl in
      produces at_close (record at_close.state { producer = ended }) refl refl at_close.queued refl

  pub fills :
      (ls q : List Bytes)
      → AllSendable ls
      → NoEof q
      → 10 ≤ length q + length ls
      → Untouched rs (reading (typed ls)) q
      → (q' : List Bytes) × NoEof q' × Untouched rs ended q'
  fills [] q h n le u = (q, n, loses_mark (omega (arith, le)) u)
  fills (l ∷ ls) q h n le u =
      fills ls (after q (c_string l)) h.1 (after-NoEof q l n h.0)
        (after_length q (c_string l) (length ls) le) (sends (reads l h.0 u))

  -- The consumer prints what is left in the queue, and waits.
  pub drains :
      (q : List Bytes) {k : ℕ} (s : System)
      → Reach rs k s
      → s.producer ≡ ended
      → s.consumer ≡ receiving
      → s.queue ≡ q
      → NoEof q
      → CanStrand rs
  unfolding producer_at times_out consumer_at
  drains [] {k} s r p c e n = (k, s, r, (p, c, stays s p c e))
  drains (m ∷ q) s r p c e n =
      let held : System = record s { queue = q; consumer = testing m } in
      let t : System = record held {
        printed = s.printed ++ (c_string m ∷ []);
        consumer = receiving;
      } in
      drains q t
        (next {t = t} (next {t = held} r (consume (ground arith))) (consume (ground (arith, n)))) p
        refl refl n.1
