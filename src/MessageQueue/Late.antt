-- ===== src/MessageQueue/Late.antt =====
-- A consumer that waits for ever does so only after ten lines.
use linux_application_layer.Common.{
  ℕ, ◌≤◌, ◌<◌, ◌≡◌, refl, inl, inr, false, List, [], ◌∷◌, arith, length, ℕ_discrete,
}
use linux_application_layer.MessageQueue.{
  Bytes, Read, gave, c_string, eof_message, is_eof, ended, receiving, System, Reach,
}
use linux_application_layer.MessageQueue.Fifo.{length-push}
use linux_application_layer.MessageQueue.Delivery.{lines}
use linux_application_layer.MessageQueue.Ends.{CanStep, Over, both, overran, both_end}
use linux_application_layer.MessageQueue.Dropped.{Reach-Counted, Reach-DropsLate}

-- Lines typed one by one, and then the end of the input.
abbrev pub typed : List Bytes → List Read
typed [] = []
typed (l ∷ ls) = gave l ∷ typed ls

-- A line that is not the end, fits into the buffer with a NUL, and is not taken for the end mark.
abbrev pub Sendable : Bytes → Type 0
Sendable [] = ⊥
Sendable (b ∷ bs) = (length (c_string (b ∷ bs)) < 100) × (is_eof (c_string (b ∷ bs)) ≡ false)

abbrev pub AllSendable : List Bytes → Type 0
AllSendable [] = Unit
AllSendable (l ∷ ls) = Sendable l × AllSendable ls

-- The producer has ended, and the consumer waits with nothing to come.
abbrev pub Stranded : System → Type 0
Stranded s = (s.producer ≡ ended) × (s.consumer ≡ receiving) × ¬ CanStep s

-- Some run on this input strands the consumer.
abbrev pub CanStrand : List Read → Type 0
CanStrand rs = (k : ℕ) × (s : System) × Reach rs k s × Stranded s

length-lines : (ls : List Bytes) → AllSendable ls → length (lines (typed ls)) ≡ length ls
length-lines [] h = refl
length-lines ([] ∷ ls) h = absurd (h.0)
length-lines ((b ∷ bs) ∷ ls) h = omega (arith, length-lines ls h.1)

not_over : {s : System} → s.producer ≡ ended → s.consumer ≡ receiving → ¬ Over s
not_over p c (both m q d) = ground arith
not_over p c (overran line rs q) = ground arith

pub strands_late : (ls : List Bytes) → AllSendable ls → CanStrand (typed ls) → 10 ≤ length ls
strands_late ls h (k, s, r, (p, c, n)) = elim (ℕ_discrete s.dropped 0) [
  | yes z ↦ elim (both_end r z).0 [ inl o ↦ absurd (not_over p c o) | inr st ↦ absurd (n st) ]
  | no nz ↦ ground (
    arith,
    Reach-Counted r,
    Reach-DropsLate r,
    length-lines ls h,
    length-push (lines (typed ls)) eof_message,
  )
]
