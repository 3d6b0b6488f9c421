-- ===== src/Streams.antt =====
-- The programs on standard streams: fgetc_test.c and fgets_test.c, which print io.txt, and
-- fputc_test.c, fputs_test.c and fprintf_test.c, which append to it (file_io); fopen_test.c and
-- fclose_test.c, which only open and close; stdin_out_err_test.c, which
-- copies a line.
pub mod Reading
pub mod Appending
mod Tests
use linux_application_layer.Common.{
  ℕ, zero, suc, ◌+◌, Bool, true, false, Option, none, some, List, [], ◌∷◌, ◌++◌, ◌==◌, ltb, length,
  take, if◌then◌else◌,
}
use linux_application_layer.MessageQueue.{Bytes, c_string}

-- How a program ends: it uses a null stream, which is undefined; or with a status, what it has
-- written to stdout from the file, and the file.
pub data Outcome : Type 0 where
  null_stream : Outcome
  ends : (status : ℕ) → (shown : Bytes) → (file : Option Bytes) → Outcome

-- `while (c != EOF) printf("%c", c);` where `char c`, which is signed, is EOF for the byte 255 and at
-- the end of the file.
unfoldable pub fgetc_loop : Bytes → Bytes
fgetc_loop [] = []
fgetc_loop (c ∷ cs) = let rest = fgetc_loop cs in if c == 255 then [] else c ∷ rest

-- `fopen(name, "r")` gives NULL for a file that is not there, and the programs go on.
unfoldable pub fgetc_main : (file : Option Bytes) → (fclose_ok : Bool) → Outcome
fgetc_main none ok = null_stream
fgetc_main (some file) true = ends 0 (fgetc_loop file) (some file)
fgetc_main (some file) false = ends 1 (fgetc_loop file) (some file)

-- What one call of `fgets` takes with room for `n` bytes: up to the first newline, that included.
unfoldable pub fgets_line : (n : ℕ) → Bytes → Bytes
fgets_line zero file = []
fgets_line (suc n) [] = []
fgets_line (suc n) (c ∷ cs) = let rest = fgets_line n cs in if c == 10 then c ∷ [] else c ∷ rest

-- What it leaves.
unfoldable pub fgets_left : (n : ℕ) → Bytes → Bytes
fgets_left zero file = file
fgets_left (suc n) [] = []
fgets_left (suc n) (c ∷ cs) = let rest = fgets_left n cs in if c == 10 then cs else rest

-- `while (fgets(buffer, sizeof(buffer), ioFile)) printf("%s", buffer);` with fuel; `none` where it
-- does not suffice. One of the 100 bytes of the buffer is for the NUL, and `%s` stops at the first.
unfoldable pub fgets_loop : (fuel : ℕ) → Bytes → Option Bytes
fgets_loop zero file = none
fgets_loop (suc fuel) [] = some []
fgets_loop (suc fuel) (c ∷ cs) = elim (fgets_loop fuel (fgets_left 99 (c ∷ cs))) [
  | none ↦ none
  | some out ↦ some (c_string (fgets_line 99 (c ∷ cs)) ++ out)
]

-- `none` where the fuel does not suffice.
abbrev pub fgets_end : Option Bytes → Bytes → (fclose_ok : Bool) → Option Outcome
fgets_end none file ok = none
fgets_end (some out) file true = some (ends 0 out (some file))
fgets_end (some out) file false = some (ends 1 out (some file))

unfoldable pub fgets_main : (fuel : ℕ) → (file : Option Bytes) → (fclose_ok : Bool) → Option Outcome
fgets_main fuel none ok = some null_stream
fgets_main fuel (some file) ok = fgets_end (fgets_loop fuel file) file ok

-- `fputc`, `fputs` or `fprintf` of `text`, and `fclose`, on a stream of mode "a+". The text waits in
-- the stream's buffer until `fclose`, which fails if the device takes only `room` bytes of it.
unfoldable pub append_main :
    (text : Bytes) → (opened : Bool) → (room : ℕ) → (file : Option Bytes) → Outcome
append_main text false room file = null_stream
append_main text true room none =
    ends (if ltb room (length text) then 1 else 0) [] (some (take room text))
append_main text true room (some old) =
    ends (if ltb room (length text) then 1 else 0) [] (some (old ++ take room text))

-- fputc_test.c
abbrev pub fputc_text : Bytes
fputc_text = 97 ∷ []

-- fputs_test.c: " love letter\n"
abbrev pub fputs_text : Bytes
fputs_text = 32 ∷ 108 ∷ 111 ∷ 118 ∷ 101 ∷ 32 ∷ 108 ∷ 101 ∷ 116 ∷ 116 ∷ 101 ∷ 114 ∷ 10 ∷ []

-- `main` of fputc_test.c, of fputs_test.c, and of fprintf_test.c with the text that `fprintf` makes.
abbrev pub fputc_main : Bool → ℕ → Option Bytes → Outcome
fputc_main = append_main fputc_text

abbrev pub fputs_main : Bool → ℕ → Option Bytes → Outcome
fputs_main = append_main fputs_text

abbrev pub fprintf_main : (formatted : Bytes) → Bool → ℕ → Option Bytes → Outcome
fprintf_main formatted = append_main formatted

-- fclose_test.c: a missing file is opened for reading, and its null stream is closed.
unfoldable pub fclose_main : (file : Option Bytes) → (fclose_ok : Bool) → Outcome
fclose_main none ok = null_stream
fclose_main (some file) true = ends 0 [] (some file)
fclose_main (some file) false = ends 1 [] (some file)

-- fopen_test.c: `fopen(name, "a+")` makes a file that is not there; the file is left open.
unfoldable pub fopen_main : (opened : Bool) → (file : Option Bytes) → Outcome
fopen_main false file = ends 0 [] file
fopen_main true none = ends 0 [] (some [])
fopen_main true (some file) = ends 0 [] (some file)

-- What stdin_out_err_test.c writes to its two streams, without the greeting in front.
pub record Written : Type 0 where
  pub to_stdout : Bytes
  pub to_stderr : Bytes

-- The buffer of 100 bytes after `fgets(ch, 100, stdin)`: at the end of the input it is as `malloc`
-- gave it, since the result of `fgets` is not looked at.
abbrev pub stdin_buffer : (fresh : Bytes) → (input : Bytes) → Bytes
stdin_buffer fresh [] = fresh
stdin_buffer fresh (c ∷ cs) = fgets_line 99 (c ∷ cs)

unfoldable pub stdin_out_err_main : (fresh : Bytes) → (input : Bytes) → Written
stdin_out_err_main fresh input =
    let ch = c_string (stdin_buffer fresh input) in record { to_stdout = ch ++ ch; to_stderr = ch }
