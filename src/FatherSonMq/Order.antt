-- ===== src/FatherSonMq/Order.antt =====
-- The father never waits, and what the son prints is in order.
use mathlib.Core.List.{append_assoc}
use linux_application_layer.Common.{
  ℕ, zero, suc, ◌+◌, ◌≤◌, ◌<◌, ◌≡◌, refl, ◌≢◌, ap, Option, none, some, List, [], ◌∷◌, ◌++◌, arith,
  length, length-append,
}
use linux_application_layer.FatherSonMq.{
  rounds, Pc, round, closing, unlinking, ended, System, after, father_at, father_times_out, receive,
  son_at, give_up, son_times_out, send, send_fails, take, take_fails, Reach, start, next,
}

-- The messages 1 to n.
abbrev pub up_to : ℕ → List ℕ
up_to zero = []
up_to (suc n) = up_to n ++ (suc n ∷ [])

-- The messages among the prints.
abbrev pub shown : List (Option ℕ) → List ℕ
shown [] = []
shown (none ∷ ps) = shown ps
shown (some m ∷ ps) = m ∷ shown ps

-- The rounds that a process has behind it.
abbrev pub behind : Pc → ℕ
behind (round i) = i
behind _ = rounds

abbrev pub InLoop : Pc → Type 0
InLoop (round i) = i < rounds
InLoop _ = Unit

shown-push : (ps : List (Option ℕ)) (m : ℕ) → shown (ps ++ (some m ∷ [])) ≡ shown ps ++ (m ∷ [])
shown-push [] m = refl
shown-push (none ∷ ps) m = shown-push ps m
shown-push (some x ∷ ps) m = ap (λ v. x ∷ v) (shown-push ps m)

shown-blank : (ps : List (Option ℕ)) → shown (ps ++ (none ∷ [])) ≡ shown ps
shown-blank [] = refl
shown-blank (none ∷ ps) = shown-blank ps
shown-blank (some x ∷ ps) = ap (λ v. x ∷ v) (shown-blank ps)

length-shown : (ps : List (Option ℕ)) → length (shown ps) ≤ length ps
length-shown [] = omega arith
length-shown (none ∷ ps) = omega (arith, length-shown ps)
length-shown (some x ∷ ps) = omega (arith, length-shown ps)

length-up_to : (n : ℕ) → length (up_to n) ≡ n
length-up_to zero = refl
length-up_to (suc n) = omega (arith, length-append (up_to n) (suc n ∷ []), length-up_to n)

pub record Inv (s : System) : Type 0 where
  pub flow : shown s.printed ++ s.queue ≡ up_to (behind s.father)
  pub sends : s.failed_sends ≡ 0
  pub prints : length s.printed ≡ behind s.son
  pub father_in : InLoop s.father
  pub son_in : InLoop s.son

queue_short : (s : System) → Inv s → length s.queue ≤ behind s.father
queue_short s inv = omega (
  arith,
  length-append (shown s.printed) s.queue,
  ap length inv.flow,
  length-up_to (behind s.father),
)

up_to-after : (i : ℕ) → i < rounds → up_to (behind (after i)) ≡ up_to i ++ ((i + 1) ∷ [])
up_to-after i h = let next_one : i + 1 ≡ suc i = omega arith in ground (arith, next_one)

father-Inv :
    (s : System) {t : System} (p : Pc) → s.father ≡ p → father_at p s ≡ some t → Inv s → Inv t
unfolding father_at
father-Inv s (round i) q e inv =
    let more = append_assoc (shown s.printed) s.queue ((i + 1) ∷ []) in
    let now = up_to-after i (ground (arith, inv.father_in)) in
    ground (arith, inv.flow, inv.father_in)
father-Inv s closing q e inv = ground arith
father-Inv s unlinking q e inv = ground arith
father-Inv s ended q e inv = ground arith

never_fails :
    (s : System) {t : System} (p : Pc) → s.father ≡ p → Inv s → father_times_out p s ≢ some t
unfolding father_times_out
never_fails s (round i) q inv e = ground (arith, queue_short s inv, inv.father_in)
never_fails s closing q inv e = ground arith
never_fails s unlinking q inv e = ground arith
never_fails s ended q inv e = ground arith

length-push : (ps : List (Option ℕ)) (x : Option ℕ) → length (ps ++ (x ∷ [])) ≡ length ps + 1
length-push ps x = omega (arith, length-append ps (x ∷ []))

receive-Inv :
    (s : System) {t : System} (i : ℕ) (q : List ℕ)
    → s.queue ≡ q
    → s.son ≡ round i
    → receive i q s ≡ some t
    → Inv s
    → Inv t
receive-Inv s i [] f h e inv = ground arith
receive-Inv s i (m ∷ q) f h e inv =
    let push = shown-push s.printed m in
    let more = append_assoc (shown s.printed) (m ∷ []) q in
    let one_more = length-push s.printed (some m) in
    ground (arith, inv.flow, inv.prints, inv.son_in)

give_up-Inv :
    (s : System) {t : System} (i : ℕ) (q : List ℕ)
    → s.queue ≡ q
    → s.son ≡ round i
    → give_up i q s ≡ some t
    → Inv s
    → Inv t
give_up-Inv s i [] f h e inv =
    let blank = shown-blank s.printed in
    let one_more = length-push s.printed none in ground (arith, inv.flow, inv.prints, inv.son_in)
give_up-Inv s i (m ∷ q) f h e inv = ground arith

son-Inv : (s : System) {t : System} (p : Pc) → s.son ≡ p → son_at p s ≡ some t → Inv s → Inv t
unfolding son_at
son-Inv s (round i) q e inv = receive-Inv s i s.queue refl q e inv
son-Inv s closing q e inv = ground arith
son-Inv s unlinking q e inv = ground arith
son-Inv s ended q e inv = ground arith

son_times_out-Inv :
    (s : System) {t : System} (p : Pc) → s.son ≡ p → son_times_out p s ≡ some t → Inv s → Inv t
unfolding son_times_out
son_times_out-Inv s (round i) q e inv = give_up-Inv s i s.queue refl q e inv
son_times_out-Inv s closing q e inv = ground arith
son_times_out-Inv s unlinking q e inv = ground arith
son_times_out-Inv s ended q e inv = ground arith

Reach-Inv : {k : ℕ} {s : System} → Reach k s → Inv s
Reach-Inv start = record {
  flow = refl;
  sends = refl;
  prints = refl;
  father_in = omega arith;
  son_in = omega arith;
}
Reach-Inv (next {s = s} r (send e)) = father-Inv s s.father refl e (Reach-Inv r)
Reach-Inv (next {s = s} r (send_fails e)) = absurd (never_fails s s.father refl (Reach-Inv r) e)
Reach-Inv (next {s = s} r (take e)) = son-Inv s s.son refl e (Reach-Inv r)
Reach-Inv (next {s = s} r (take_fails e)) = son_times_out-Inv s s.son refl e (Reach-Inv r)

father_goes_on : (s : System) (p : Pc) → s.father ≡ p → Inv s → father_at p s ≡ none → p ≡ ended
unfolding father_at
father_goes_on s (round i) q inv e = ground (arith, queue_short s inv, inv.father_in)
father_goes_on s closing q inv e = ground arith
father_goes_on s unlinking q inv e = ground arith
father_goes_on s ended q inv e = refl

-- In every state of the two processes: no send has failed, and the father never waits for room, so
-- that he stops only when he has ended; the son has printed once for each round behind it, the
-- messages among its prints in order without a gap, and these followed by the messages in the queue
-- are all that were sent. So when both have ended, what the son has not printed of the ten messages
-- is left in the queue.
pub ten_in_order :
    {k : ℕ} {s : System}
    → Reach k s
    → (s.failed_sends ≡ 0)
      × (father_at s.father s ≡ none → s.father ≡ ended)
      × (length s.printed ≡ behind s.son)
      × (shown s.printed ++ s.queue ≡ up_to (behind s.father))
ten_in_order {s = s} r =
    let inv = Reach-Inv r in (inv.sends, father_goes_on s s.father refl inv, inv.prints, inv.flow)
