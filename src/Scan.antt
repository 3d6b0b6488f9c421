-- ===== src/Scan.antt =====
-- file_io/fscanf_test.c: `fscanf` of a name, an age and a name from each line of user.txt.
pub mod Words
pub mod Lines
pub mod Fuel
pub mod Ends
mod Tests
use linux_application_layer.Common.{
  ℕ, zero, suc, ◌+◌, ◌^◌, Bool, true, false, Option, none, some, List, [], ◌∷◌, ◌==◌, ◌&&◌, ◌||◌,
  leb, ltb, length, if◌then◌else◌, read_from,
}
use linux_application_layer.MessageQueue.{Bytes, c_string}

-- `isspace` in the C locale.
abbrev pub is_space : ℕ → Bool
is_space c = (c == 32) || (leb 9 c && leb c 13)

abbrev pub is_digit : ℕ → Bool
is_digit c = leb 48 c && leb c 57

unfoldable pub skip_space : Bytes → Bytes
skip_space [] = []
skip_space (c ∷ cs) = let rest = skip_space cs in if is_space c then rest else c ∷ cs

-- What `%s` takes, and what it leaves.
unfoldable pub word : Bytes → Bytes
word [] = []
word (c ∷ cs) = let rest = word cs in if is_space c then [] else c ∷ rest

unfoldable pub after_word : Bytes → Bytes
after_word [] = []
after_word (c ∷ cs) = let rest = after_word cs in if is_space c then c ∷ cs else rest

-- The digits that `%d` takes, and what it leaves.
unfoldable pub digits : Bytes → Bytes
digits [] = []
digits (c ∷ cs) = let rest = digits cs in if is_digit c then c ∷ rest else []

unfoldable pub after_digits : Bytes → Bytes
after_digits [] = []
after_digits (c ∷ cs) = let rest = after_digits cs in if is_digit c then rest else c ∷ cs

-- `pos n` is n, and `negsuc n` is -(n + 1).
pub data ℤ : Type 0 where
  pos negsuc : ℕ → ℤ

-- The number after a sign.
abbrev pub with_sign : (negative : Bool) → ℕ → ℤ
with_sign false n = pos n
with_sign true zero = pos 0
with_sign true (suc n) = negsuc n

abbrev pub too_large : ℤ → Bool
too_large (pos n) = leb (2 ^ 31) n
too_large (negsuc n) = leb (2 ^ 31) n

-- `%d` finds no number, and leaves what is behind a sign; or it reads one.
pub data Number : Type 0 where
  no_match : (rest : Bytes) → Number
  got : ℤ → (rest : Bytes) → Number

abbrev pub unsigned : (negative : Bool) (file taken : Bytes) → Number
unsigned negative file [] = no_match file
unsigned negative file (d ∷ ds) =
    got (with_sign negative (read_from 0 (d ∷ ds))) (after_digits file)

abbrev pub signed : Bytes → Number
signed [] = no_match []
signed (c ∷ cs) =
    if c == 45
    then unsigned true cs (digits cs)
    else if c == 43
    then unsigned false cs (digits cs)
    else unsigned false (c ∷ cs) (digits (c ∷ cs))

-- The variables of `main`; `none` is one that nothing was stored into.
pub record Line : Type 0 where
  pub name : Bytes
  pub age : Option ℤ
  pub wife : Option Bytes

-- At the start of `main`. `name` is stored into by every call that does not return EOF.
abbrev pub unset : Line
unset = record { name = []; age = none; wife = none }

-- What one call does: it returns EOF; it writes behind an array of 50 bytes or reads a number that is
-- no int, which is undefined; or it leaves some variables as they are, which the program does not
-- look at.
pub data Scanned : Type 0 where
  eof undefined : Scanned
  returned : Line → (rest : Bytes) → Scanned

abbrev pub scan_wife : Line → Bytes → Scanned
scan_wife line [] = returned line []
scan_wife line (c ∷ cs) =
    if leb 50 (length (word (c ∷ cs)))
    then undefined
    else returned (record line { wife = some (word (c ∷ cs)) }) (skip_space (after_word (c ∷ cs)))

abbrev pub scan_age : Line → Number → Scanned
scan_age line (no_match rest) = returned line rest
scan_age line (got n rest) =
    if too_large n then undefined else scan_wife (record line { age = some n }) (skip_space rest)

abbrev pub scan_name : Line → Bytes → Scanned
scan_name line [] = eof
scan_name line (c ∷ cs) =
    if leb 50 (length (word (c ∷ cs)))
    then undefined
    else scan_age (record line { name = word (c ∷ cs) }) (signed (skip_space (after_word (c ∷ cs))))

-- `fscanf(userFile, "%s %d %s\n", name, &age, wife)`
unfoldable pub fscanf : Line → (file : Bytes) → Scanned
fscanf line file = scan_name line (skip_space file)

-- What `printf` shows of a line: `%s` stops at a NUL.
pub record Row : Type 0 where
  pub name : Bytes
  pub age : ℤ
  pub wife : Bytes

-- The variables at each `printf`, what it shows of them, and whether the loop came to the end of the
-- file and not to undefined behaviour.
pub record Shown : Type 0 where
  pub lines : List Line
  pub rows : List Row
  pub defined : Bool

abbrev pub nothing : (defined : Bool) → Shown
nothing defined = record { lines = []; rows = []; defined = defined }

abbrev pub print_row : Line → Option ℤ → Option Bytes → Option Shown → Option Shown
print_row line (some n) (some w) none = none
print_row line (some n) (some w) (some s) = some (record s {
  lines = line ∷ s.lines;
  rows = record { name = c_string line.name; age = n; wife = c_string w } ∷ s.rows;
})
print_row line _ _ s = some (nothing false)

-- `printf`, and the turns that follow. To print an age or a second name that nothing was stored into
-- is undefined.
abbrev pub before : Line → Option Shown → Option Shown
before line s = print_row line line.age line.wife s

-- `while (fscanf(...) != EOF) printf(...)` with fuel; `none` where it does not suffice.
unfoldable pub fscanf_loop : (fuel : ℕ) → Line → (file : Bytes) → Option Shown
fscanf_loop zero line file = none
fscanf_loop (suc fuel) line file = elim (fscanf line file) [
  | eof ↦ some (nothing true)
  | undefined ↦ some (nothing false)
  | returned next rest ↦ before next (fscanf_loop fuel next rest)
]

abbrev pub with_status : (fclose_ok : Bool) → Option Shown → Option (ℕ × Shown)
with_status ok none = none
with_status ok (some s) = some ((if ok then 0 else 1), s)

-- `main`: without the file it uses a null stream, which is undefined; `none` is also too little fuel.
abbrev pub fscanf_main : (fuel : ℕ) (file : Option Bytes) (fclose_ok : Bool) → Option (ℕ × Shown)
fscanf_main fuel none ok = some (0, nothing false)
fscanf_main fuel (some file) ok = with_status ok (fscanf_loop fuel unset file)
