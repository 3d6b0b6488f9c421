-- ===== src/Streams/Reading.antt =====
-- When the reading programs show the whole file.
use linux_application_layer.Common.{
  length-append, ℕ, zero, suc, ◌+◌, ◌≤◌, ◌<◌, ◌≡◌, refl, sym, ap, ◌∙◌, ◌≢◌, ◌↔◌, Bool, true, false,
  some, [], ◌∷◌, ◌++◌, arith, length, ℕ_discrete,
}
use linux_application_layer.MessageQueue.{Bytes, c_string}
use linux_application_layer.Streams.{
  ends, fgetc_loop, fgetc_main, fgets_line, fgets_left, fgets_loop, fgets_end, fgets_main,
}

abbrev pub Avoids : ℕ → Bytes → Type 0
Avoids b [] = Unit
Avoids b (c ∷ cs) = (c ≢ b) × Avoids b cs

shown-Avoids : (file : Bytes) → fgetc_loop file ≡ file → Avoids 255 file
unfolding fgetc_loop
shown-Avoids [] e = tt
shown-Avoids (c ∷ cs) e = (ground arith, shown-Avoids cs (ground arith))

Avoids-shown : (file : Bytes) → Avoids 255 file → fgetc_loop file ≡ file
unfolding fgetc_loop
Avoids-shown [] h = refl
Avoids-shown (c ∷ cs) h = ground (arith, Avoids-shown cs h.1)

-- fgetc_test, on a file that is there, shows the whole file and leaves it as it is exactly if no byte
-- of it is 255.
pub fgetc_shows_iff :
    (file : Bytes) (fclose_ok : Bool)
    → ((status : ℕ) × (fgetc_main (some file) fclose_ok ≡ ends status file (some file)))
      ↔ Avoids 255 file
unfolding fgetc_main
fgetc_shows_iff file true = (
  λ (status, e). shown-Avoids file (ground arith),
  λ h. (0, ap (λ v. ends 0 v (some file)) (Avoids-shown file h)),
)
fgetc_shows_iff file false = (
  λ (status, e). shown-Avoids file (ground arith),
  λ h. (1, ap (λ v. ends 1 v (some file)) (Avoids-shown file h)),
)

line-left : (n : ℕ) (file : Bytes) → fgets_line n file ++ fgets_left n file ≡ file
unfolding fgets_line fgets_left
line-left zero file = refl
line-left (suc n) [] = refl
line-left (suc n) (c ∷ cs) = ground (arith, line-left n cs)

length-left : (n : ℕ) (file : Bytes) → length (fgets_left n file) ≤ length file
unfolding fgets_left
length-left zero file = omega arith
length-left (suc n) [] = omega arith
length-left (suc n) (c ∷ cs) = ground (arith, length-left n cs)

left_shorter : (c : ℕ) (cs : Bytes) → length (fgets_left 99 (c ∷ cs)) ≤ length cs
unfolding fgets_left
left_shorter c cs = ground (arith, length-left 98 cs)

length-line : (n : ℕ) (file : Bytes) → length (fgets_line n file) ≤ n
unfolding fgets_line
length-line zero file = omega arith
length-line (suc n) [] = omega arith
length-line (suc n) (c ∷ cs) = ground (arith, length-line n cs)

line-Avoids :
    (n : ℕ) (file : Bytes) → Avoids 0 file → c_string (fgets_line n file) ≡ fgets_line n file
unfolding fgets_line
line-Avoids zero file h = refl
line-Avoids (suc n) [] h = refl
line-Avoids (suc n) (c ∷ cs) h = ground (arith, line-Avoids n cs h.1)

left-Avoids : (n : ℕ) (file : Bytes) → Avoids 0 file → Avoids 0 (fgets_left n file)
unfolding fgets_left
left-Avoids zero file h = h
left-Avoids (suc n) [] h = tt
left-Avoids (suc n) (c ∷ cs) h = ground (arith, left-Avoids n cs h.1)

fgets_copies :
    (fuel : ℕ) (file : Bytes)
    → length file < fuel
    → Avoids 0 file
    → fgets_loop fuel file ≡ some file
unfolding fgets_loop
fgets_copies zero file lt h = absurd (omega arith)
fgets_copies (suc fuel) [] lt h = refl
fgets_copies (suc fuel) (c ∷ cs) lt h =
    let whole = c ∷ cs in
    let shorter = left_shorter c cs in
    let later = fgets_copies fuel (fgets_left 99 whole) (omega arith) (left-Avoids 99 whole h) in
    ground (arith, later, line-Avoids 99 whole h, line-left 99 whole)

length-c_string : (l : Bytes) → length (c_string l) ≤ length l
length-c_string [] = omega arith
length-c_string (c ∷ cs) = ground (arith, length-c_string cs)

length-c_string_full : (l : Bytes) → length (c_string l) ≡ length l → Avoids 0 l
length-c_string_full [] e = tt
length-c_string_full (c ∷ cs) e = ground (arith, length-c_string_full cs)

Avoids-joined :
    (n : ℕ) (file : Bytes)
    → Avoids 0 (fgets_line n file)
    → Avoids 0 (fgets_left n file)
    → Avoids 0 file
unfolding fgets_line fgets_left
Avoids-joined zero file h k = k
Avoids-joined (suc n) [] h k = tt
Avoids-joined (suc n) (c ∷ cs) h k = elim (ℕ_discrete c 10) [
  | yes e ↦ ground arith
  | no ne ↦ ground (arith, Avoids-joined n cs)
]

-- What the loop shows is no longer than the file, and as long only if no byte is NUL.
pub record Shown (file out : Bytes) : Type 0 where
  pub at_most : length out ≤ length file
  pub full : length out ≡ length file → Avoids 0 file

fgets_shows :
    (fuel : ℕ) (file : Bytes)
    → length file < fuel
    → (out : Bytes) × (fgets_loop fuel file ≡ some out) × Shown file out
unfolding fgets_loop
fgets_shows zero file lt = absurd (omega arith)
fgets_shows (suc fuel) [] lt = ([], refl, record { at_most = omega arith; full = λ e. tt })
fgets_shows (suc fuel) (c ∷ cs) lt =
    let whole = c ∷ cs in
    let shorter = left_shorter c cs in
    let (out, e, shown) = fgets_shows fuel (fgets_left 99 whole) (omega arith) in
    let line = fgets_line 99 whole in
    let both = length-append (c_string line) out in
    let parts = length-append line (fgets_left 99 whole) in
    let sum : length line + length (fgets_left 99 whole) ≡ length whole =
      sym parts ∙ ap length (line-left 99 whole) in
    let less = length-c_string line in
    (
      c_string line ++ out,
      ground (arith, e),
      record {
        at_most = omega (arith, shown.at_most);
        full = λ same.
            Avoids-joined 99 whole (length-c_string_full line (omega (arith, shown.at_most)))
              (shown.full (omega (arith, shown.at_most)));
      },
    )

-- fgets_test, on a file that is there and whose `fclose` succeeds, ends with status 0 after at most
-- one turn of its loop for each byte and one more; it shows the whole file exactly if no byte of it
-- is NUL; and no call of `fgets` stores more than 99 bytes and the NUL in its buffer of 100.
pub fgets_shows_iff :
    (file : Bytes)
    → ((out : Bytes) × (fgets_main (length file + 1) (some file) true
          ≡ some (ends 0 out (some file)))
        × ((out ≡ file) ↔ Avoids 0 file))
      × ((rest : Bytes) → length (fgets_line 99 rest) ≤ 99)
unfolding fgets_main
fgets_shows_iff file =
    let (out, e, shown) = fgets_shows (length file + 1) file (omega arith) in
    (
      (
        out,
        ap (λ o. fgets_end o file true) e,
        (
          λ same. shown.full (ap length same),
          λ h. ground (arith, e, fgets_copies (length file + 1) file (omega arith) h),
        ),
      ),
      λ rest. length-line 99 rest,
    )
