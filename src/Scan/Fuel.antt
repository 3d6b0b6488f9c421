-- ===== src/Scan/Fuel.antt =====
-- The loop of fscanf_test.c is not endless: each call takes a byte at least, or returns EOF.
use linux_application_layer.Common.{
  ◌∙◌, ℕ, zero, suc, ◌≤◌, ◌<◌, ◌≡◌, refl, subst, ap, inl, inr, Bool, true, false, Option, none,
  some, [], ◌∷◌, arith, length, Bool-cases, leb, if◌then◌else◌,
}
use linux_application_layer.MessageQueue.{Bytes, c_string}
use linux_application_layer.Scan.{
  is_space, skip_space, word, after_word, digits, after_digits, Number, too_large, no_match, got,
  unsigned, signed, Line, Scanned, eof, undefined, returned, scan_name, scan_age, scan_wife, fscanf,
  Shown, nothing, before, ℤ, fscanf_loop,
}

length-skip_space : (file : Bytes) → length (skip_space file) ≤ length file
unfolding skip_space
length-skip_space [] = omega arith
length-skip_space (c ∷ cs) = ground (arith, length-skip_space cs)

length-after_word : (file : Bytes) → length (after_word file) ≤ length file
unfolding after_word
length-after_word [] = omega arith
length-after_word (c ∷ cs) = ground (arith, length-after_word cs)

length-after_digits : (file : Bytes) → length (after_digits file) ≤ length file
unfolding after_digits
length-after_digits [] = omega arith
length-after_digits (c ∷ cs) = ground (arith, length-after_digits cs)

-- A word takes its first byte.
word_takes : (c : ℕ) (cs : Bytes) → is_space c ≡ false → length (after_word (c ∷ cs)) ≤ length cs
unfolding after_word
word_takes c cs h = rw h (length-after_word cs)

skip-first : (file : Bytes) (c : ℕ) (cs : Bytes) → skip_space file ≡ c ∷ cs → is_space c ≡ false
unfolding skip_space
skip-first [] c cs e = ground (arith, e)
skip-first (x ∷ xs) c cs e = elim (Bool-cases (is_space x)) [
  | inl h ↦ skip-first xs c cs (rw h at e)
  | inr h ↦ ground (arith, h, e)
]

abbrev rest_of : Number → Bytes
rest_of (no_match rest) = rest
rest_of (got n rest) = rest

length-unsigned :
    (b : Bool) (file taken : Bytes) → length (rest_of (unsigned b file taken)) ≤ length file
length-unsigned b file [] = omega arith
length-unsigned b file (d ∷ ds) = length-after_digits file

length-signed : (file : Bytes) → length (rest_of (signed file)) ≤ length file
length-signed [] = omega arith
length-signed (c ∷ cs) = ground (
  arith,
  length-unsigned true cs (digits cs),
  length-unsigned false cs (digits cs),
  length-unsigned false (c ∷ cs) (digits (c ∷ cs)),
)

-- What a call leaves is not longer than `n`.
abbrev Leaves : ℕ → Scanned → Type 0
Leaves n (returned line rest) = length rest ≤ n
Leaves n _ = Unit

scan_wife-Leaves : (line : Line) (file : Bytes) → Leaves (length file) (scan_wife line file)
scan_wife-Leaves line [] = omega arith
scan_wife-Leaves line (c ∷ cs) = elim (Bool-cases (leb 50 (length (word (c ∷ cs))))) [
  | inl h ↦ rw h tt
  | inr h ↦
      rw h (omega (arith, length-skip_space (after_word (c ∷ cs)), length-after_word (c ∷ cs)))
]

weaker : (m n : ℕ) (s : Scanned) → m ≤ n → Leaves m s → Leaves n s
weaker m n eof h l = tt
weaker m n undefined h l = tt
weaker m n (returned line rest) h l = omega (arith, h, l)

scan_age-Leaves : (line : Line) (n : Number) → Leaves (length (rest_of n)) (scan_age line n)
scan_age-Leaves line (no_match rest) = omega arith
scan_age-Leaves line (got n rest) = by_range (too_large n)
  where
    by_range :
        (b : Bool)
        → Leaves
            (length rest)
            (if b then undefined else scan_wife (record line { age = some n }) (skip_space rest))
    by_range true = tt
    by_range false =
        weaker _ _ (scan_wife (record line { age = some n }) (skip_space rest))
          (length-skip_space rest)
          (scan_wife-Leaves (record line { age = some n }) (skip_space rest))

scan_name-Leaves :
    (line : Line) (c : ℕ) (cs : Bytes)
    → is_space c ≡ false
    → Leaves (length cs) (scan_name line (c ∷ cs))
scan_name-Leaves line c cs h = by_length (leb 50 (length (word (c ∷ cs))))
  where
    next : Line
    next = record line { name = word (c ∷ cs) }

    number : Number
    number = signed (skip_space (after_word (c ∷ cs)))

    shorter : length (rest_of number) ≤ length cs
    shorter = omega (
      arith,
      length-signed (skip_space (after_word (c ∷ cs))),
      length-skip_space (after_word (c ∷ cs)),
      word_takes c cs h,
    )

    by_length : (b : Bool) → Leaves (length cs) (if b then undefined else scan_age next number)
    by_length true = tt
    by_length false = weaker _ _ (scan_age next number) shorter (scan_age-Leaves next number)

call_shortens :
    (line next : Line) (file rest : Bytes)
    → fscanf line file ≡ returned next rest
    → length rest < length file
unfolding fscanf
call_shortens line next file rest e = by_first (skip_space file) refl e
  where
    by_first :
        (bytes : Bytes)
        → skip_space file ≡ bytes
        → scan_name line bytes ≡ returned next rest
        → length rest < length file
    by_first [] q e = ground (arith, e)
    by_first (c ∷ cs) q e =
        let l =
          subst (Leaves (length cs)) e (scan_name-Leaves line c cs (skip-first file c cs q)) in
        omega (arith, l, length-skip_space file, ap length q)

-- What the loop comes to on a file, with any fuel that suffices.
record Settles (line : Line) (file : Bytes) : Type 0 where
  result : Shown
  with_fuel : (fuel : ℕ) → length file < fuel → fscanf_loop fuel line file ≡ some result
  bounded : length result.lines ≤ length file

at_once :
    (line : Line) (file : Bytes) (b : Bool)
    → ((fuel : ℕ) → fscanf_loop (suc fuel) line file ≡ some (nothing b))
    → Settles line file
at_once line file b h = record {
  result = nothing b;
  with_fuel = λ fuel l. by_fuel fuel l;
  bounded = omega arith;
}
  where
    by_fuel : (fuel : ℕ) → length file < fuel → fscanf_loop fuel line file ≡ some (nothing b)
    by_fuel zero l = absurd (omega arith)
    by_fuel (suc fuel) l = h fuel

-- One turn more.
turn :
    (line next : Line) (file rest : Bytes)
    → fscanf line file ≡ returned next rest
    → Settles next rest
    → Settles line file
unfolding fscanf_loop
turn line next file rest e r = by_set next.age next.wife refl refl
  where
    l : length rest < length file
    l = call_shortens line next file rest e

    one_turn :
        (fuel : ℕ) → fscanf_loop (suc fuel) line file ≡ before next (fscanf_loop fuel next rest)
    one_turn fuel = rw (fscanf_loop, e) refl

    by_set : (a : Option ℤ) (w : Option Bytes) → next.age ≡ a → next.wife ≡ w → Settles line file
    by_set none w p q = at_once line file false (λ fuel. one_turn fuel ∙ rw p refl)
    by_set (some n) none p q = at_once line file false (λ fuel. one_turn fuel ∙ rw (p, q) refl)
    by_set (some n) (some w) p q = record {
      result = record r.result {
        lines = next ∷ r.result.lines;
        rows = record { name = c_string next.name; age = n; wife = c_string w } ∷ r.result.rows;
      };
      with_fuel = by_fuel;
      bounded = omega (arith, l, r.bounded);
    }
      where
        by_fuel :
            (fuel : ℕ)
            → length file < fuel
            → fscanf_loop fuel line file
              ≡ some (record r.result {
                lines = next ∷ r.result.lines;
                rows =
                    record { name = c_string next.name; age = n; wife = c_string w }
                    ∷ r.result.rows;
              })
        by_fuel zero h = absurd (omega arith)
        by_fuel (suc fuel) h =
            one_turn fuel
            ∙ ap (before next) (r.with_fuel fuel (omega (arith, h, l)))
            ∙ rw (p, q) refl

settles : (n : ℕ) (line : Line) (file : Bytes) → length file < n → Settles line file
unfolding fscanf_loop
settles zero line file h = absurd (omega arith)
settles (suc n) line file h =
    by_call (fscanf line file) refl
      (λ next rest e. settles n next rest (omega (arith, h, call_shortens line next file rest e)))
  where
    by_call :
        (s : Scanned)
        → fscanf line file ≡ s
        → ((next : Line) (rest : Bytes) → fscanf line file ≡ returned next rest → Settles next rest)
        → Settles line file
    by_call eof e go = at_once line file true (λ fuel. rw (fscanf_loop, e) refl)
    by_call undefined e go = at_once line file false (λ fuel. rw (fscanf_loop, e) refl)
    by_call (returned next rest) e go = turn line next file rest e (go next rest e)

-- On every file, whatever it holds, the loop comes to the end of the file or to undefined behaviour,
-- which is a word of 50 bytes or more, a number that is no int, or the print of an age or a second
-- name that was never read: as many turns as the file has bytes and one more are enough, more turns
-- change nothing, and no more lines are printed than the file has bytes.
pub fscanf_ends :
    (f g : ℕ) (line : Line) (file : Bytes)
    → length file < f
    → length file < g
    → (s : Shown) × ((fscanf_loop f line file ≡ some s)
        × (fscanf_loop g line file ≡ some s)
        × (length s.lines ≤ length file))
fscanf_ends f g line file h k =
    let s = settles (suc (length file)) line file (omega arith) in
    (s.result, (s.with_fuel f h, s.with_fuel g k, s.bounded))
