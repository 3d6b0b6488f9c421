-- ===== src/Scan/Lines.antt =====
-- A line that is written as a name, an age and a name reads back as it was.
use linux_application_layer.Common.{
  ℕ, ◌^◌, ◌≤◌, ◌<◌, ◌≡◌, refl, true, false, some, [], ◌∷◌, ◌++◌, arith, ◌==◌, leb, length, decimal,
  read_from, read_from-decimal,
}
use linux_application_layer.MessageQueue.{Bytes, c_string}
use linux_application_layer.Scan.{
  is_space, is_digit, skip_space, ℤ, pos, got, signed, Line, Row, returned, scan_wife, scan_age,
  scan_name, fscanf,
}
use linux_application_layer.Scan.Words.{
  NoSpace, OnlyDigits, word-append, digits-append, skip_word, skip_one, decimal-OnlyDigits,
  decimal_long,
}

pub record Entry : Type 0 where
  pub name : Bytes
  pub age : ℕ
  pub wife : Bytes

-- A line of user.txt before `rest`.
abbrev pub entry : Entry → (rest : Bytes) → Bytes
entry e rest = e.name ++ (32 ∷ decimal 10 e.age ++ (32 ∷ e.wife ++ (10 ∷ rest)))

abbrev pub line_of : Entry → Line
line_of e = record { name = e.name; age = some (pos e.age); wife = some e.wife }

-- What `printf` shows of it.
abbrev pub row_of : Entry → Row
row_of e = record { name = c_string e.name; age = pos e.age; wife = c_string e.wife }

-- A word that fits into an array of 50 bytes.
pub record IsWord (w : Bytes) : Type 0 where
  pub spaceless : NoSpace w
  pub long : 1 ≤ length w
  pub fits : length w < 50

pub record IsEntry (e : Entry) : Type 0 where
  pub name_ok : IsWord e.name
  pub age_ok : e.age < 2 ^ 31
  pub wife_ok : IsWord e.wife

pub short : (w : Bytes) → IsWord w → leb 50 (length w) ≡ false
short w h = ground (arith, h.fits)

-- What begins with a word has no space to skip.
pub skip-word_append : (w rest : Bytes) → IsWord w → skip_space (w ++ rest) ≡ w ++ rest
skip-word_append [] rest h = absurd (omega (arith, h.long))
skip-word_append (c ∷ cs) rest h = skip_word c (cs ++ rest) h.spaceless.0

scan_wife-append :
    (line : Line) (w rest : Bytes)
    → IsWord w
    → scan_wife line (w ++ (10 ∷ rest)) ≡ returned (record line { wife = some w }) (skip_space rest)
scan_wife-append line [] rest h = absurd (omega (arith, h.long))
scan_wife-append line (c ∷ cs) rest h =
    let (taken, left) = word-append (c ∷ cs) 10 rest h.spaceless refl in
    rw (taken, left, short (c ∷ cs) h, skip_one 10 rest refl) refl

digit_only :
    (d : ℕ) → is_digit d ≡ true → (is_space d ≡ false) × ((d == 45) ≡ false) × ((d == 43) ≡ false)
digit_only d h = ground (arith, h)

signed-digits :
    (xs rest : Bytes) (n : ℕ)
    → OnlyDigits xs
    → 1 ≤ length xs
    → read_from 0 xs ≡ n
    → signed (xs ++ (32 ∷ rest)) ≡ got (pos n) (32 ∷ rest)
signed-digits [] rest n h l e = absurd (omega (arith, l))
signed-digits (d ∷ ds) rest n h l e =
    let (space, minus, plus) = digit_only d h.0 in
    let (taken, left) = digits-append (d ∷ ds) 32 rest h refl in
    rw (minus, plus, taken, left, e) refl

-- What begins with a digit has no space to skip.
skip-digits :
    (xs rest : Bytes) → OnlyDigits xs → 1 ≤ length xs → skip_space (xs ++ rest) ≡ xs ++ rest
skip-digits [] rest h l = absurd (omega (arith, l))
skip-digits (d ∷ ds) rest h l = skip_word d (ds ++ rest) (digit_only d h.0).0

-- The part of a line behind its name.
age_part :
    (line : Line) (digits_ wife rest : Bytes) (n : ℕ)
    → OnlyDigits digits_
    → 1 ≤ length digits_
    → read_from 0 digits_ ≡ n
    → n < 2 ^ 31
    → IsWord wife
    → scan_age line (signed (skip_space (32 ∷ digits_ ++ (32 ∷ wife ++ (10 ∷ rest)))))
      ≡ returned (record line { age = some (pos n); wife = some wife }) (skip_space rest)
age_part line ds wife rest n h l e small w =
    let tail = wife ++ (10 ∷ rest) in
    let age : ℤ = pos n in
    let in_range : leb (2 ^ 31) n ≡ false = ground (arith, small) in
    rw
      (
        skip_one 32 (ds ++ (32 ∷ tail)) refl,
        skip-digits ds (32 ∷ tail) h l,
        signed-digits ds tail n h l e,
        scan_age,
        in_range,
        skip_one 32 tail refl,
        skip-word_append wife (10 ∷ rest) w,
      )
      (scan_wife-append (record line { age = some age }) wife rest w)

named :
    (line : Line) (name wife rest : Bytes) (n : ℕ)
    → IsWord name
    → n < 2 ^ 31
    → IsWord wife
    → scan_name line (name ++ (32 ∷ decimal 10 n ++ (32 ∷ wife ++ (10 ∷ rest))))
      ≡ returned (record { name = name; age = some (pos n); wife = some wife }) (skip_space rest)
named line [] wife rest n w small v = absurd (omega (arith, w.long))
named line (c ∷ cs) wife rest n w small v =
    let tail = decimal 10 n ++ (32 ∷ wife ++ (10 ∷ rest)) in
    let (taken, left) = word-append (c ∷ cs) 32 tail w.spaceless refl in
    rw (taken, left, short (c ∷ cs) w)
      (age_part (record line { name = c ∷ cs }) (decimal 10 n) wife rest n (decimal-OnlyDigits 10 n)
        (decimal_long 9 n) (read_from-decimal 10 n (omega (arith, small))) small v)

-- One call reads a line back as it was written, whatever the variables held.
pub fscanf-entry :
    (line : Line) (e : Entry) (rest : Bytes)
    → IsEntry e
    → fscanf line (entry e rest) ≡ returned (line_of e) (skip_space rest)
unfolding fscanf
fscanf-entry line e rest h =
    let tail = 32 ∷ decimal 10 e.age ++ (32 ∷ e.wife ++ (10 ∷ rest)) in
    rw (skip-word_append e.name tail h.name_ok)
      (named line e.name e.wife rest e.age h.name_ok h.age_ok h.wife_ok)
