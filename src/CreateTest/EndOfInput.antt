-- ===== src/CreateTest/EndOfInput.antt =====
-- `char c = fgetc(stdin)` does not tell the end of the input from a character.
use linux_application_layer.Common.{
  ℕ, zero, suc, ◌+◌, ◌-◌, ◌%◌, ◌≤◌, ◌<◌, ◌≡◌, refl, List, [], ◌∷◌, arith, length, get_or, set,
  get_or-set_self, get_or-set_ne, ℕ_discrete, ◌∙◌,
}
use linux_application_layer.CreateTest.{buf_len, Ring, wrap, input_thread}
use linux_application_layer.CreateTest.Bounds.{InBounds, input-InBounds}

get_or_past : (l : List ℕ) (i d : ℕ) → length l ≤ i → get_or l i d ≡ d
get_or_past [] i d h = refl
get_or_past (x ∷ l) zero d h = absurd (omega arith)
get_or_past (x ∷ l) (suc i) d h = get_or_past l i d (omega arith)

module _ (stdin : List ℕ) where
  -- So many rounds of the input thread, with none of the output thread between.
  pub rounds : ℕ → Ring → Ring
  rounds zero r = r
  rounds (suc k) r = input_thread stdin (rounds k r)

  record Flooded (i k : ℕ) (r : Ring) : Type 0 where
    bounds : InBounds r
    past : length stdin ≤ r.reads
    index : r.in_i ≡ (i + k) % 1024
    cells : (j : ℕ) → j < k → get_or r.buf ((i + j) % 1024) 0 ≡ 255

  -- At the end of the input the thread stores 0xff, whatever the input was.
  at_end :
      (r : Ring)
      → length stdin ≤ r.reads
      → input_thread stdin r
        ≡ record r { buf = set r.buf r.in_i 255; in_i = wrap (r.in_i + 1); reads = r.reads + 1 }
  unfolding input_thread
  at_end r h = rw (get_or_past stdin r.reads 255 h)

  Flooded-input :
      {r : Ring} (i k : ℕ)
      → i < 1024
      → k < 1024
      → Flooded i k r
      → Flooded i (k + 1) (input_thread stdin r)
  Flooded-input {r} i k lt top f = record {
    bounds = input-InBounds stdin r f.bounds;
    past = rw (at_end r f.past) (omega (arith, f.past));
    index = rw (at_end r f.past) (ground (arith, f.index));
    cells = λ j h. rw (at_end r f.past) (cell j h);
  }
    where
      cell : (j : ℕ) → j < k + 1 → get_or (set r.buf r.in_i 255) ((i + j) % 1024) 0 ≡ 255
      cell j h = elim (ℕ_discrete j k) [
        | yes e ↦
            let here : (i + j) % 1024 ≡ r.in_i = omega (arith, f.index) in
            rw here (
              get_or-set_self r.buf r.in_i 255 0 (omega (arith, f.bounds.in_range, f.bounds.sized)))
        | no ne ↦
            get_or-set_ne r.buf r.in_i ((i + j) % 1024) 255 0 (omega (arith, f.index))
            ∙ f.cells j (omega arith)
      ]

  Flooded-rounds :
      (k : ℕ) {r : Ring}
      → InBounds r
      → length stdin ≤ r.reads
      → k ≤ 1024
      → Flooded r.in_i k (rounds k r)
  unfolding rounds
  Flooded-rounds zero {r} b past h = record {
    bounds = b;
    past = past;
    index = omega (arith, b.in_range);
    cells = λ j lt. absurd (omega arith);
  }
  Flooded-rounds (suc k) {r} b past h =
      let e : k + 1 ≡ suc k = omega arith in
      rw e at
        (Flooded-input r.in_i k b.in_range (omega arith) (Flooded-rounds k b past (omega arith)))

  -- After the end of the input 1024 rounds of the input thread, if no character is shown meanwhile,
  -- overwrite the whole buffer with 0xff, whatever stood there unread.
  pub end_floods :
      {r : Ring} (i : ℕ)
      → InBounds r
      → length stdin ≤ r.reads
      → i < buf_len
      → get_or (rounds buf_len r).buf i 0 ≡ 255
  end_floods {r} i b past h =
      let here : (r.in_i + (i + 1024 - r.in_i) % 1024) % 1024 ≡ i = omega (arith, b.in_range) in
      rw here at (
        (Flooded-rounds buf_len b past (omega arith)).cells ((i + 1024 - r.in_i) % 1024)
          (omega arith))
