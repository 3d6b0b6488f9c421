-- ===== src/Scan/Words.antt =====
-- What the conversions take and leave, on words, numbers and the spaces between them.
use linux_application_layer.Common.{
  ℕ, zero, suc, ◌+◌, ◌/◌, ◌%◌, ◌≤◌, ◌<◌, ◌≡◌, refl, true, false, [], ◌∷◌, ◌++◌, arith, length,
  dec_lt, length-append, decimal,
}
use linux_application_layer.MessageQueue.{Bytes}
use linux_application_layer.Scan.{
  is_space, is_digit, skip_space, word, after_word, digits, after_digits,
}

abbrev pub NoSpace : Bytes → Type 0
NoSpace [] = Unit
NoSpace (c ∷ cs) = (is_space c ≡ false) × NoSpace cs

abbrev pub OnlyDigits : Bytes → Type 0
OnlyDigits [] = Unit
OnlyDigits (c ∷ cs) = (is_digit c ≡ true) × OnlyDigits cs

pub word-append :
    (w : Bytes) (c : ℕ) (rest : Bytes)
    → NoSpace w
    → is_space c ≡ true
    → (word (w ++ (c ∷ rest)) ≡ w) × (after_word (w ++ (c ∷ rest)) ≡ c ∷ rest)
unfolding word after_word
word-append [] c rest h s = (rw s refl, rw s refl)
word-append (x ∷ xs) c rest h s =
    let (taken, left) = word-append xs c rest h.1 s in (rw (h.0, taken) refl, rw (h.0, left) refl)

pub word_all : (w : Bytes) → NoSpace w → (word w ≡ w) × (after_word w ≡ [])
unfolding word after_word
word_all [] h = (refl, refl)
word_all (x ∷ xs) h =
    let (taken, left) = word_all xs h.1 in (rw (h.0, taken) refl, rw (h.0, left) refl)

pub digits-append :
    (w : Bytes) (c : ℕ) (rest : Bytes)
    → OnlyDigits w
    → is_digit c ≡ false
    → (digits (w ++ (c ∷ rest)) ≡ w) × (after_digits (w ++ (c ∷ rest)) ≡ c ∷ rest)
unfolding digits after_digits
digits-append [] c rest h s = (rw s refl, rw s refl)
digits-append (x ∷ xs) c rest h s =
    let (taken, left) = digits-append xs c rest h.1 s in (rw (h.0, taken) refl, rw (h.0, left) refl)

pub skip_word : (c : ℕ) (cs : Bytes) → is_space c ≡ false → skip_space (c ∷ cs) ≡ c ∷ cs
unfolding skip_space
skip_word c cs h = rw h refl

pub skip_one : (c : ℕ) (cs : Bytes) → is_space c ≡ true → skip_space (c ∷ cs) ≡ skip_space cs
unfolding skip_space
skip_one c cs h = rw h refl

OnlyDigits-append : (xs ys : Bytes) → OnlyDigits xs → OnlyDigits ys → OnlyDigits (xs ++ ys)
OnlyDigits-append [] ys h k = k
OnlyDigits-append (x ∷ xs) ys h k = (h.0, OnlyDigits-append xs ys h.1 k)

digit : (n : ℕ) → n < 10 → is_digit (48 + n) ≡ true
digit n h = ground (arith, h)

pub decimal-OnlyDigits : (f n : ℕ) → OnlyDigits (decimal f n)
decimal-OnlyDigits zero n = tt
decimal-OnlyDigits (suc f) n = elim (dec_lt n 10) [
  | yes h ↦ ground (arith, digit n h)
  | no h ↦
      let last = digit (n % 10) (omega arith) in
      let all =
        OnlyDigits-append (decimal f (n / 10)) ((48 + n % 10) ∷ []) (decimal-OnlyDigits f (n / 10))
          (last, tt) in
      ground (arith, h, all)
]

pub decimal_long : (f n : ℕ) → 1 ≤ length (decimal (suc f) n)
decimal_long f n = elim (dec_lt n 10) [
  | yes h ↦ ground (arith, h)
  | no h ↦ ground (arith, h, length-append (decimal f (n / 10)) ((48 + n % 10) ∷ []))
]
