-- ===== src/Copy/Loop.antt =====
-- What the copying loop writes.
use Prim.Native.Nat.{min}
use mathlib.Core.List.{append-nil, append_assoc}
use linux_application_layer.Common.{
  ℕ, zero, suc, ◌+◌, ◌≤◌, ◌<◌, ◌≡◌, refl, inl, inr, ap, sym, ◌∙◌, true, false, some, List, [], ◌∷◌,
  ◌++◌, arith, length, take, drop, take-append-drop, Bool-cases,
}
use linux_application_layer.Copy.{
  Turn, fails, gives, Status, success, chunk, left, is_empty, copy_loop,
}

-- No `read` fails, and every `write` takes all that it is given.
abbrev pub Willing : ℕ → List Turn → Type 0
Willing cap [] = Unit
Willing cap (fails ∷ ts) = ⊥
Willing cap (gives limit room ∷ ts) = (cap ≤ room) × Willing cap ts

take_all : (n : ℕ) (l : List ℕ) → length l ≤ n → take n l ≡ l
take_all zero [] h = refl
take_all zero (x ∷ l) h = absurd (omega arith)
take_all (suc n) [] h = refl
take_all (suc n) (x ∷ l) h = ap (λ t. x ∷ t) (take_all n l (omega arith))

length-take_le : (n : ℕ) (l : List ℕ) → length (take n l) ≤ n
length-take_le zero l = omega arith
length-take_le (suc n) [] = omega arith
length-take_le (suc n) (x ∷ l) = omega (arith, length-take_le n l)

take-take : (n m : ℕ) (l : List ℕ) → n ≤ m → take m (take n l) ≡ take n l
take-take n m l h = take_all m (take n l) (omega (arith, length-take_le n l))

empty_chunk : (n : ℕ) (l : List ℕ) → 0 < n → is_empty (take n l) ≡ true → l ≡ []
empty_chunk zero l h e = absurd (omega arith)
empty_chunk (suc n) [] h e = refl
empty_chunk (suc n) (x ∷ l) h e = ground arith

shorter : (n : ℕ) (l : List ℕ) → is_empty (take n l) ≡ false → length (drop n l) < length l
shorter zero l e = ground arith
shorter (suc n) [] e = ground arith
shorter (suc n) (x ∷ l) e = drop_le n l
  where
    drop_le : (n : ℕ) (l : List ℕ) → length (drop n l) < suc (length l)
    drop_le zero l = omega arith
    drop_le (suc n) [] = omega arith
    drop_le (suc n) (x ∷ l) = omega (arith, drop_le n l)

-- With one turn more than bytes the loop ends, and has written all of the input.
pub copies :
    (cap : ℕ) (ts : List Turn) (input out : List ℕ)
    → 0 < cap
    → Willing cap ts
    → length input < length ts
    → copy_loop cap ts input out ≡ some (success, out ++ input)
unfolding copy_loop
copies cap [] input out pos w more = absurd (omega arith)
copies cap (fails ∷ ts) input out pos w more = absurd w
copies cap (gives limit room ∷ ts) input out pos (fits, w) more =
    elim (Bool-cases (is_empty (chunk cap limit input))) [
      | inl e ↦
          let none_left : input ≡ [] = empty_chunk (min cap (suc limit)) input (omega arith) e in
          rw e (
            ap (λ l. some (success, l)) (sym (append-nil out) ∙ ap (λ l. out ++ l) (sym none_left)))
      | inr e ↦
          rw (e, take-take (min cap (suc limit)) room input (omega arith))
            (copies cap ts (left cap limit input) (out ++ chunk cap limit input) pos w
                (omega (arith, shorter (min cap (suc limit)) input e))
              ∙ ap (λ l. some (success, l))
                  (append_assoc out (chunk cap limit input) (left cap limit input)
                    ∙ ap (λ l. out ++ l) (take-append-drop (min cap (suc limit)) input)))
    ]

-- Every `write` takes all that it is given; a `read` may fail.
abbrev pub WritesAll : ℕ → List Turn → Type 0
WritesAll cap [] = Unit
WritesAll cap (fails ∷ ts) = WritesAll cap ts
WritesAll cap (gives limit room ∷ ts) = (cap ≤ room) × WritesAll cap ts

take-append : (n k : ℕ) (l : List ℕ) → take n l ++ take k (drop n l) ≡ take (n + k) l
take-append zero k l = let e : zero + k ≡ k = omega arith in rw e
take-append (suc n) zero [] = let e : suc n + zero ≡ suc n = omega arith in rw e
take-append (suc n) (suc k) [] = let e : suc n + suc k ≡ suc (n + suc k) = omega arith in rw e
take-append (suc n) k (x ∷ l) =
    let e : suc n + k ≡ suc (n + k) = omega arith in rw e (ap (λ t. x ∷ t) (take-append n k l))

-- Whatever `read` does, what is written when the loop ends is an initial piece of the input; all of
-- it if the loop ends at the end of the input.
pub copies_prefix :
    (cap : ℕ) (ts : List Turn) (input out : List ℕ) {s : Status} {result : List ℕ}
    → 0 < cap
    → WritesAll cap ts
    → copy_loop cap ts input out ≡ some (s, result)
    → ((n : ℕ) × (result ≡ out ++ take n input)) × (s ≡ success → result ≡ out ++ input)
unfolding copy_loop
copies_prefix cap [] input out pos w e = ground arith
copies_prefix cap (fails ∷ ts) input out pos w e =
    ((0, ground (arith, append-nil out)), λ f. ground arith)
copies_prefix cap (gives limit room ∷ ts) input out {s} {result} pos (fits, w) e =
    elim (Bool-cases (is_empty (chunk cap limit input))) [
      | inl done ↦
          let none_left : input ≡ [] = empty_chunk (min cap (suc limit)) input (omega arith) done in
          let same : result ≡ out = ground (arith, done) in
          (
            (0, same ∙ sym (append-nil out)),
            λ f. same ∙ sym (append-nil out) ∙ ap (λ l. out ++ l) (sym none_left),
          )
      | inr more ↦
          let n = min cap (suc limit) in
          let all = take-take n room input (omega arith) in
          let ((k, p), q) =
            copies_prefix cap ts (left cap limit input) (out ++ take room (chunk cap limit input))
              pos w (ground (arith, more)) in
          (
            (
              n + k,
              p
                  ∙ ap (λ t. (out ++ t) ++ take k (drop n input)) all
                  ∙ append_assoc out (take n input) (take k (drop n input))
                  ∙ ap (λ l. out ++ l) (take-append n k input),
            ),
            λ f.
                q f
                ∙ ap (λ t. (out ++ t) ++ drop n input) all
                ∙ append_assoc out (take n input) (drop n input)
                ∙ ap (λ l. out ++ l) (take-append-drop n input),
          )
    ]
