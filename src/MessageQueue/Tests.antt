-- ===== src/MessageQueue/Tests.antt =====
-- A run of the producer and the consumer, and the theorems there.
use linux_application_layer.Common.{
  arith, zero, suc, ℕ, ◌↔◌, ◌+◌, ◌*◌, ◌≤◌, ◌≡◌, refl, ◌⊎◌, false, List, [], ◌∷◌, length,
}
use linux_application_layer.MessageQueue.{
  Read, failed, gave, System, gone, ended, producer_at, consumer_at, produce, consume, Reach, start,
  next,
}
use linux_application_layer.MessageQueue.Delivery.{delivers_lines}
use linux_application_layer.MessageQueue.Late.{typed, AllSendable, CanStrand}
use linux_application_layer.MessageQueue.Stranded.{strands_iff}
use linux_application_layer.MessageQueue.Ends.{Over, CanStep, both_end}

-- A read that fails, one line, and the end.
abbrev typed_hi : List Read
typed_hi = failed ∷ gave (104 ∷ 105 ∷ 10 ∷ []) ∷ []

abbrev last : System
last = record {
  queue = [];
  linked = false;
  producer = ended;
  consumer = gone (255 ∷ []);
  accepted = (104 ∷ 105 ∷ 10 ∷ []) ∷ (255 ∷ []) ∷ [];
  dropped = 0;
  sent_notices = 1;
  printed = (104 ∷ 105 ∷ 10 ∷ []) ∷ [];
}

complete : Reach typed_hi 12 last
unfolding producer_at consumer_at
complete =
    next
      (next
        (next
          (next
            (next
              (next
                (next
                  (next
                    (next (next (next (next start (produce refl)) (produce refl)) (produce refl))
                      (consume refl))
                    (consume refl))
                  (produce refl))
                (produce refl))
              (produce refl))
            (consume refl))
          (consume refl))
        (consume refl))
      (consume refl)

delivers_lines_example : last.printed ≡ (104 ∷ 105 ∷ 10 ∷ []) ∷ []
delivers_lines_example = delivers_lines (255 ∷ []) complete refl (refl, tt) refl

both_end_example : (Over last ⊎ CanStep last) × (12 ≤ 4 * length typed_hi + 9)
both_end_example = both_end complete refl

abbrev hi_line : List ℕ
hi_line = 104 ∷ 105 ∷ 10 ∷ []

abbrev many : ℕ → List (List ℕ)
many zero = []
many (suc n) = hi_line ∷ many n

many-AllSendable : (n : ℕ) → AllSendable (many n)
many-AllSendable zero = tt
many-AllSendable (suc n) = ((omega arith, refl), many-AllSendable n)

strands_iff_example : CanStrand (typed (many 10)) ↔ (10 ≤ length (many 10))
strands_iff_example = strands_iff (many 10) (many-AllSendable 10)
