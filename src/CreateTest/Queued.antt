-- ===== src/CreateTest/Queued.antt =====
-- What the ring of create_test.c holds while the input does not overtake the output: the characters
-- stored and not yet cleared, in order, from the output index on.
use linux_application_layer.Common.{
  ℕ, zero, suc, ◌+◌, ◌-◌, ◌%◌, ◌≤◌, ◌<◌, ◌≡◌, refl, ◌≢◌, ap, sym, List, [], ◌∷◌, some, true, arith,
  length, length-set, get_or, set, drop, get_or-set_self, get_or-set_ne, ℕ_discrete, ◌∙◌,
}
use linux_application_layer.CreateTest.{
  buf_len, Ring, OutPc, checking, putting, clearing, wrap, main, running,
}
use linux_application_layer.CreateTest.Bounds.{zero_loop_zeroes, length-zero_loop}

-- What the output thread writes for some characters, the latest first.
abbrev pub spread : List ℕ → List ℕ
spread [] = []
spread (c ∷ cs) = 10 ∷ c ∷ spread cs

abbrev pub lag : OutPc → ℕ
lag clearing = 1
lag _ = 0

-- `w` characters were stored, which are `log`, and `r` cells cleared, since the start.
pub record Queued (log : List ℕ) (s : Ring) (w r : ℕ) : Type 0 where
  pub not_ahead : r ≤ w
  pub not_over : w ≤ r + 1024
  pub in_at : s.in_i ≡ w % 1024
  pub out_at : s.out_i ≡ r % 1024
  pub sized : length s.buf ≡ 1024
  pub counted : length log ≡ w
  pub nonzero : (i : ℕ) → i < w → get_or log i 0 ≢ 0
  pub held : (m : ℕ) → r ≤ m → m < w → get_or s.buf (m % 1024) 0 ≡ get_or log (w - 1 - m) 0
  pub free : (m : ℕ) → w ≤ m → m < r + 1024 → get_or s.buf (m % 1024) 0 ≡ 0
  pub busy : s.pc ≢ checking → r < w
  pub printed : s.stdout ≡ spread (drop (w - (r + lag s.pc)) log)

pub Queued-start :
    (buf : List ℕ) {s : Ring}
    → length buf ≡ buf_len
    → main (some buf) true true ≡ running s
    → Queued [] s 0 0
unfolding main
Queued-start buf e h = record {
  not_ahead = omega arith;
  not_over = omega arith;
  in_at = ground arith;
  out_at = ground arith;
  sized = ground (arith, length-zero_loop buf_len 0 buf);
  counted = ground arith;
  nonzero = λ i k. absurd (omega arith);
  held = λ m a b. absurd (omega arith);
  free = λ m a b. ground (arith, zero_loop_zeroes buf_len 0 (m % 1024) buf);
  busy = λ n. ground arith;
  printed = ground arith;
}

module _ {log : List ℕ} {s : Ring} {w r : ℕ} (q : Queued log s w r) where
  open q use {
    not_ahead, not_over, in_at, out_at, sized, counted, nonzero, held, free, busy, printed,
  }

  pub not_full : get_or s.buf s.in_i 0 ≡ 0 → w < r + 1024
  not_full z = elim (ℕ_discrete w (r + 1024)) [
    | no ne ↦ omega arith
    | yes e ↦
        absurd
          (nonzero (w - 1 - r) (omega arith) (sym (held r (omega arith) (omega arith)) ∙ at_in e))
  ]
    where
      at_in : w ≡ r + 1024 → get_or s.buf (r % 1024) 0 ≡ 0
      at_in e =
          let same : s.in_i ≡ r % 1024 = omega (arith, in_at) in
          ap (λ k. get_or s.buf k 0) (sym same) ∙ z

  module _ (c k : ℕ) (real : c ≢ 0) (room : w < r + 1024) where
    abbrev pub after_store : Ring
    after_store = record s { buf = set s.buf s.in_i c; in_i = wrap (s.in_i + 1); reads = k }

    nonzero_cons : (i : ℕ) → i < w + 1 → get_or (c ∷ log) i 0 ≢ 0
    nonzero_cons zero h = real
    nonzero_cons (suc i) h = nonzero i (omega arith)

    held_cons :
        (m : ℕ)
        → r ≤ m
        → m < w + 1
        → get_or (set s.buf s.in_i c) (m % 1024) 0 ≡ get_or (c ∷ log) (w + 1 - 1 - m) 0
    held_cons m lo hi = elim (ℕ_discrete m w) [
      | yes e ↦
          let first : w + 1 - 1 - m ≡ 0 = omega arith in
          let here : m % 1024 ≡ s.in_i = omega (arith, in_at) in
          rw (first, here) (get_or-set_self s.buf s.in_i c 0 (omega (arith, in_at, sized)))
      | no ne ↦
          let later : w + 1 - 1 - m ≡ suc (w - 1 - m) = omega arith in
          rw later (
            get_or-set_ne s.buf s.in_i (m % 1024) c 0 (omega (arith, in_at))
            ∙ held m lo (omega arith))
    ]

    free_cons : (m : ℕ) → w + 1 ≤ m → m < r + 1024 → get_or (set s.buf s.in_i c) (m % 1024) 0 ≡ 0
    free_cons m lo hi =
        get_or-set_ne s.buf s.in_i (m % 1024) c 0 (omega (arith, in_at)) ∙ free m (omega arith) hi

    stays_printed : s.stdout ≡ spread (drop (w + 1 - (r + lag s.pc)) (c ∷ log))
    stays_printed = by_pc s.pc refl
      where
        later :
            (p : OutPc)
            → s.pc ≡ p
            → r + lag s.pc ≤ w
            → s.stdout ≡ spread (drop (w + 1 - (r + lag s.pc)) (c ∷ log))
        later p e le =
            let next : w + 1 - (r + lag s.pc) ≡ suc (w - (r + lag s.pc)) = omega arith in
            rw next printed

        by_pc : (p : OutPc) → s.pc ≡ p → s.stdout ≡ spread (drop (w + 1 - (r + lag s.pc)) (c ∷ log))
        by_pc checking e = later checking e (ground arith)
        by_pc putting e = later putting e (ground arith)
        by_pc clearing e = later clearing e (ground (arith, busy))

    pub Queued-store : Queued (c ∷ log) after_store (w + 1) r
    Queued-store = record {
      not_ahead = omega arith;
      not_over = omega arith;
      in_at = ground (arith, in_at);
      out_at = out_at;
      sized = length-set s.buf s.in_i c ∙ sized;
      counted = omega arith;
      nonzero = nonzero_cons;
      held = held_cons;
      free = free_cons;
      busy = λ b. omega (arith, busy b);
      printed = stays_printed;
    }

  pub Queued-skip : (k : ℕ) → Queued log (record s { reads = k }) w r
  Queued-skip k = record {
    not_ahead = not_ahead;
    not_over = not_over;
    in_at = in_at;
    out_at = out_at;
    sized = sized;
    counted = counted;
    nonzero = nonzero;
    held = held;
    free = free;
    busy = busy;
    printed = printed;
  }
