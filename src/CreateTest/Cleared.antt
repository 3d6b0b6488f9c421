-- ===== src/CreateTest/Cleared.antt =====
-- What the output thread of create_test.c keeps of the queue: it puts the oldest character, and clears
-- its cell.
use linux_application_layer.Common.{
  ℕ, zero, suc, ◌+◌, ◌-◌, ◌%◌, ◌<◌, ◌≡◌, refl, ap, sym, List, [], ◌∷◌, false, arith, length,
  length-set, get_or, set, drop, get_or-set_self, get_or-set_ne, ℕ_discrete, ◌∙◌, dec_lt, ◌==◌,
}
use linux_application_layer.CreateTest.{Ring, OutPc, checking, putting, clearing, wrap}
use linux_application_layer.CreateTest.Queued.{spread, lag, Queued}

drop_here :
    (i j : ℕ) (l : List ℕ)
    → j ≡ suc i
    → i < length l
    → spread (drop i l) ≡ 10 ∷ get_or l i 0 ∷ spread (drop j l)
drop_here i j [] e h = absurd (omega arith)
drop_here zero j (x ∷ l) e h = rw e
drop_here (suc i) j (x ∷ l) e h = rw e (drop_here i (suc i) l refl (omega arith))

module _ {log : List ℕ} {s : Ring} {w r : ℕ} (q : Queued log s w r) where
  open q use {
    not_ahead, not_over, in_at, out_at, sized, counted, nonzero, held, free, busy, printed,
  }

  pub not_empty : (get_or s.buf s.out_i 0 == 0) ≡ false → r < w
  not_empty full = elim (dec_lt r w) [
    | yes h ↦ h
    | no h ↦
        let blank : get_or s.buf s.out_i 0 ≡ 0 = rw out_at (free r (omega arith) (omega arith)) in
        ground arith
  ]

  -- The cell at the output index holds the oldest character that was not cleared.
  oldest : r < w → get_or s.buf s.out_i 0 ≡ get_or log (w - 1 - r) 0
  oldest h = rw out_at (held r (omega arith) h)

  put_printed :
      s.pc ≡ putting
      → r < w
      → 10 ∷ get_or s.buf s.out_i 0 ∷ s.stdout ≡ spread (drop (w - (r + 1)) log)
  put_printed e left =
      let at : w - 1 - r ≡ w - (r + 1) = omega arith in
      let rest : suc (w - (r + 1)) ≡ w - (r + lag s.pc) = ground arith in
      cc (
        drop_here (w - (r + 1)) (w - (r + lag s.pc)) log (sym rest) (omega (arith, counted)),
        oldest left,
        printed,
        ap (λ i. get_or log i 0) at,
      )

  pub Queued-put :
      s.pc ≡ putting
      → Queued log (record s { stdout = 10 ∷ get_or s.buf s.out_i 0 ∷ s.stdout; pc = clearing }) w r
  Queued-put e =
      let some_left : r < w = busy (ground arith) in
      record {
        not_ahead = not_ahead;
        not_over = not_over;
        in_at = in_at;
        out_at = out_at;
        sized = sized;
        counted = counted;
        nonzero = nonzero;
        held = held;
        free = free;
        busy = λ n. some_left;
        printed = put_printed e some_left;
      }

  pub Queued-check :
      (p : OutPc) → p ≡ putting → s.pc ≡ checking → r < w → Queued log (record s { pc = p }) w r
  Queued-check p e c left = record {
    not_ahead = not_ahead;
    not_over = not_over;
    in_at = in_at;
    out_at = out_at;
    sized = sized;
    counted = counted;
    nonzero = nonzero;
    held = held;
    free = free;
    busy = λ n. left;
    printed = let same : lag p ≡ lag s.pc = ground arith in rw same printed;
  }

  pub Queued-clear :
      s.pc ≡ clearing
      → Queued log
          (record s { buf = set s.buf s.out_i 0; out_i = wrap (s.out_i + 1); pc = checking })
          w
          (r + 1)
  Queued-clear e =
      let some_left : r < w = busy (ground arith) in
      record {
        not_ahead = omega arith;
        not_over = omega arith;
        in_at = in_at;
        out_at = ground (arith, out_at);
        sized = length-set s.buf s.out_i 0 ∙ sized;
        counted = counted;
        nonzero = nonzero;
        held = λ m lo hi.
            get_or-set_ne s.buf s.out_i (m % 1024) 0 0 (omega (arith, out_at))
            ∙ held m (omega arith) hi;
        free = λ m lo hi. elim (ℕ_discrete m (r + 1024)) [
          | yes last ↦
              let here : m % 1024 ≡ s.out_i = omega (arith, out_at) in
              rw here (get_or-set_self s.buf s.out_i 0 0 (omega (arith, out_at, sized)))
          | no ne ↦
              get_or-set_ne s.buf s.out_i (m % 1024) 0 0 (omega (arith, out_at))
              ∙ free m lo (omega arith)
        ];
        busy = λ n. absurd (n refl);
        printed = let same : r + 1 + lag checking ≡ r + lag s.pc = ground arith in rw same printed;
      }
