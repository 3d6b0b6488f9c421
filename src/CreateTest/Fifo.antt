-- ===== src/CreateTest/Fifo.antt =====
-- While the input does not overtake the output, the ring is a queue.
use linux_application_layer.Common.{
  ap, ◌∙◌, get_or_inside, get_or_beyond, ltb, ◌&&◌, replicate, ◌++◌, ◌<◌, ◌%◌, dec_lt, false, ℕ,
  zero, suc, ◌+◌, ◌-◌, ◌≤◌, ◌≡◌, refl, inl, inr, sym, List, [], ◌∷◌, some, true, arith, length,
  get_or, drop, if◌then◌else◌, Bool-cases, subst, ◌==◌,
}
use linux_application_layer.CreateTest.{
  buf_len, Ring, OutPc, checking, putting, clearing, keep, next_char, input_thread, output_at,
  output_thread, main, running,
}
use linux_application_layer.CreateTest.Cleared.{not_empty, Queued-put, Queued-check, Queued-clear}
use linux_application_layer.CreateTest.Queued.{
  spread, lag, Queued, Queued-start, not_full, Queued-store, Queued-skip,
}

-- The characters kept of the first `k` results of `fgetc`, the latest first.
abbrev stored : List ℕ → ℕ → List ℕ
stored stdin zero = []
stored stdin (suc k) =
    let rest = stored stdin k in if keep (next_char stdin k) then next_char stdin k ∷ rest else rest

-- Those of them that were typed, without line ends and zeros.
abbrev pub accepted : List ℕ → ℕ → List ℕ
accepted stdin zero = []
accepted stdin (suc k) =
    let rest = accepted stdin k in
    if ltb k (length stdin) && keep (get_or stdin k 0) then get_or stdin k 0 ∷ rest else rest

-- What the input thread puts into the ring with `k` calls of `fgetc`, the latest first: what was
-- typed, and 0xff for each call after the end of the input.
abbrev pub put_in : List ℕ → ℕ → List ℕ
put_in stdin k = replicate (k - length stdin) 255 ++ accepted stdin k

stored-put_in : (stdin : List ℕ) (k : ℕ) → stored stdin k ≡ put_in stdin k
stored-put_in stdin zero = let e : 0 - length stdin ≡ 0 = omega arith in rw e refl
stored-put_in stdin (suc k) = elim (dec_lt k (length stdin)) [
  | yes h ↦
      let test : ltb k (length stdin) ≡ true = ground (arith, h) in
      let none_over : suc k - length stdin ≡ 0 = omega arith in
      let none_before : k - length stdin ≡ 0 = omega arith in
      let same = get_or_inside stdin k 255 0 h in
      let before = stored-put_in stdin k in rw (test, none_over, same, before, none_before) refl
  | no h ↦
      let test : ltb k (length stdin) ≡ false = ground (arith, h) in
      let one_more : suc k - length stdin ≡ suc (k - length stdin) = omega (arith, h) in
      let at_end = get_or_beyond stdin k 255 (omega (arith, h)) in
      rw (test, one_more, at_end, stored-put_in stdin k) refl
]

module _ (stdin : List ℕ) where
  -- A step at which the cell to be written is free.
  pub data CalmStep (s : Ring) : Ring → Type 0 where
    type :
        (keep (next_char stdin s.reads) ≡ true → get_or s.buf s.in_i 0 ≡ 0)
        → CalmStep s (input_thread stdin s)
    show : CalmStep s (output_thread s)

  pub data CalmReach (buf : List ℕ) : Ring → Type 0 where
    begin : {s : Ring} → main (some buf) true true ≡ running s → CalmReach buf s
    next : {s t : Ring} → CalmReach buf s → CalmStep s t → CalmReach buf t

  abbrev IsQueue : Ring → Type 0
  IsQueue s = (w : ℕ) × (r : ℕ) × Queued (stored stdin s.reads) s w r

  stored_next :
      (k : ℕ)
      → stored stdin (k + 1)
        ≡ (if keep (next_char stdin k) then next_char stdin k ∷ stored stdin k else stored stdin k)
  stored_next k = let e : k + 1 ≡ suc k = omega arith in rw e

  typed :
      {s : Ring}
      → (keep (next_char stdin s.reads) ≡ true → get_or s.buf s.in_i 0 ≡ 0)
      → IsQueue s
      → IsQueue (input_thread stdin s)
  unfolding input_thread
  typed {s} calm (w, r, q) = elim (Bool-cases (keep (next_char stdin s.reads))) [
    | inl k ↦
        rw (k, stored_next s.reads, k)
          (
            w + 1,
            r,
            Queued-store q (next_char stdin s.reads) (s.reads + 1) (ground arith)
                (not_full q (calm k)),
          )
    | inr k ↦ rw (k, stored_next s.reads, k) (w, r, Queued-skip q (s.reads + 1))
  ]

  shown_at : {s : Ring} (p : OutPc) → s.pc ≡ p → IsQueue s → IsQueue (output_at p s)
  unfolding output_at
  shown_at {s} checking e (w, r, q) = elim (Bool-cases (get_or s.buf s.out_i 0 == 0)) [
    | inl empty ↦ rw empty (w, r, q)
    | inr full ↦ rw full (w, r, Queued-check q putting refl e (not_empty q full))
  ]
  shown_at putting e (w, r, q) = (w, r, Queued-put q e)
  shown_at clearing e (w, r, q) = (w, r + 1, Queued-clear q e)

  shown : {s : Ring} → IsQueue s → IsQueue (output_thread s)
  unfolding output_thread
  shown {s} h = shown_at s.pc refl h

  nothing_read : (buf : List ℕ) {s : Ring} → main (some buf) true true ≡ running s → s.reads ≡ 0
  unfolding main
  nothing_read buf h = ground arith

  Reach-IsQueue : (buf : List ℕ) {s : Ring} → length buf ≡ buf_len → CalmReach buf s → IsQueue s
  Reach-IsQueue buf {s} e (begin h) = (
    0,
    0,
    subst (λ k. Queued (stored stdin k) s 0 0) (sym (nothing_read buf h)) (Queued-start buf e h),
  )
  Reach-IsQueue buf e (next r (type calm)) = typed calm (Reach-IsQueue buf e r)
  Reach-IsQueue buf e (next r show) = shown (Reach-IsQueue buf e r)

  -- The latest `n` characters of `log` stand in the ring, in order, up to the input index.
  abbrev pub InRing : (n : ℕ) (log : List ℕ) → Ring → Type 0
  InRing n log s =
      (j : ℕ) → j < n → get_or s.buf ((length log - 1 - j) % buf_len) 0 ≡ get_or log j 0

  -- While no cell is overwritten, the output is what was typed without its line ends and zeros, and
  -- behind it 0xff for each call of `fgetc` after the end of the input, in order, each on a line,
  -- less the last 1024 at most; those stand in the ring, in order, the last at its input index less
  -- one, modulo 1024.
  pub shows_typed :
      (buf : List ℕ) {s : Ring}
      → length buf ≡ buf_len
      → CalmReach buf s
      → (waiting : ℕ) × ((waiting ≤ buf_len)
          × (s.stdout ≡ spread (drop waiting (put_in stdin s.reads)))
          × (s.in_i ≡ length (put_in stdin s.reads) % buf_len)
          × InRing waiting (put_in stdin s.reads) s)
  shows_typed buf {s} e c =
      let (w, r, q) = Reach-IsQueue buf e c in
      subst
        (λ log.
          (waiting : ℕ) × ((waiting ≤ buf_len)
            × (s.stdout ≡ spread (drop waiting log))
            × (s.in_i ≡ length log % buf_len)
            × InRing waiting log s))
        (stored-put_in stdin s.reads) (waits s.pc refl q)
    where
      waits :
          {w r : ℕ} (p : OutPc)
          → s.pc ≡ p
          → Queued (stored stdin s.reads) s w r
          → (waiting : ℕ) × ((waiting ≤ buf_len)
              × (s.stdout ≡ spread (drop waiting (stored stdin s.reads)))
              × (s.in_i ≡ length (stored stdin s.reads) % buf_len)
              × InRing waiting (stored stdin s.reads) s)
      waits {w} {r} p e q = (
        w - (r + lag s.pc),
        (omega (arith, q.not_over), q.printed, omega (arith, q.in_at, q.counted), in_ring),
      )
        where
          in_ring : InRing (w - (r + lag s.pc)) (stored stdin s.reads) s
          in_ring j l =
              let same : w - 1 - (w - 1 - j) ≡ j = omega arith in
              let held = q.held (w - 1 - j) (omega arith) (omega arith) in
              rw q.counted (held ∙ ap (λ i. get_or (stored stdin s.reads) i 0) same)
