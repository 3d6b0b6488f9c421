-- ===== src/CreateTest/Bounds.antt =====
-- Both threads stay inside the buffer, however they are scheduled.
use linux_application_layer.Common.{
  ℕ, zero, suc, ◌+◌, ◌≤◌, ◌<◌, ◌≡◌, refl, List, [], ◌∷◌, ◌⊎◌, inl, inr, some, true, arith, length,
  length-set, get_or, set, ℕ_discrete,
}
use linux_application_layer.CreateTest.{
  buf_len, Ring, OutPc, checking, putting, clearing, input_thread, output_at, output_thread,
  zero_loop, main, running, Reach, begin, next, input, output, next_char,
}

pub record InBounds (r : Ring) : Type 0 where
  pub sized : length r.buf ≡ buf_len
  pub in_range : r.in_i < buf_len
  pub out_range : r.out_i < buf_len

pub input-InBounds : (stdin : List ℕ) (r : Ring) → InBounds r → InBounds (input_thread stdin r)
unfolding input_thread
input-InBounds stdin r h = ground (arith, length-set r.buf r.in_i (next_char stdin r.reads))

output_at-InBounds : (p : OutPc) (r : Ring) → InBounds r → InBounds (output_at p r)
unfolding output_at
output_at-InBounds checking r h = ground arith
output_at-InBounds putting r h = ground arith
output_at-InBounds clearing r h = ground (arith, length-set r.buf r.out_i 0)

pub output-InBounds : (r : Ring) → InBounds r → InBounds (output_thread r)
unfolding output_thread
output-InBounds r h = output_at-InBounds r.pc r h

pub length-zero_loop : (n i : ℕ) (b : List ℕ) → length (zero_loop n i b) ≡ length b
unfolding zero_loop
length-zero_loop zero i b = refl
length-zero_loop (suc n) i b =
    ground (arith, length-zero_loop n (i + 1) (set b i 0), length-set b i 0)

set_zero : (b : List ℕ) (i j : ℕ) → (i ≡ j) ⊎ (get_or b j 0 ≡ 0) → get_or (set b i 0) j 0 ≡ 0
set_zero [] i j h = refl
set_zero (x ∷ b) zero zero h = refl
set_zero (x ∷ b) zero (suc j) h = ground arith
set_zero (x ∷ b) (suc i) zero h = ground arith
set_zero (x ∷ b) (suc i) (suc j) h = set_zero b i j (ground arith)

zero_loop_keeps : (n i j : ℕ) (b : List ℕ) → get_or b j 0 ≡ 0 → get_or (zero_loop n i b) j 0 ≡ 0
unfolding zero_loop
zero_loop_keeps zero i j b h = h
zero_loop_keeps (suc n) i j b h = zero_loop_keeps n (i + 1) j (set b i 0) (set_zero b i j (inr h))

-- The loop of `main` zeroes the cells that it runs over.
pub zero_loop_zeroes :
    (n i j : ℕ) (b : List ℕ) → i ≤ j → j < i + n → get_or (zero_loop n i b) j 0 ≡ 0
unfolding zero_loop
zero_loop_zeroes zero i j b h k = absurd (omega arith)
zero_loop_zeroes (suc n) i j b h k = elim (ℕ_discrete i j) [
  | yes e ↦ zero_loop_keeps n (i + 1) j (set b i 0) (set_zero b i j (inl e))
  | no ne ↦ zero_loop_zeroes n (i + 1) j (set b i 0) (omega arith) (omega arith)
]

started-InBounds :
    (buf : List ℕ) {r : Ring}
    → length buf ≡ buf_len
    → main (some buf) true true ≡ running r
    → InBounds r
unfolding main
started-InBounds buf e h = ground (arith, length-zero_loop buf_len 0 buf)

-- Whatever `malloc` left in the 1024 bytes, whatever is typed and however the threads are scheduled,
-- also where the input overtakes the output: the buffer keeps its size and both indices stay below it.
pub Reach-InBounds :
    (stdin buf : List ℕ) {r : Ring} → length buf ≡ buf_len → Reach stdin buf r → InBounds r
Reach-InBounds stdin buf e (begin h) = started-InBounds buf e h
Reach-InBounds stdin buf e (next {r = r} t input) =
    input-InBounds stdin r (Reach-InBounds stdin buf e t)
Reach-InBounds stdin buf e (next {r = r} t output) =
    output-InBounds r (Reach-InBounds stdin buf e t)
