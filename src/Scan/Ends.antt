-- ===== src/Scan/Ends.antt =====
-- The loop of fscanf_test.c ends, reads back a file that is written line by line, and repeats the age
-- and the second name of the line before where a line has only a name.
use mathlib.Core.List.{append-nil}
use linux_application_layer.Common.{
  ℕ, zero, suc, ◌+◌, ◌<◌, ◌≡◌, ◌-◌, refl, ap, ◌∙◌, inl, inr, true, false, Option, some, List, [],
  ◌∷◌, ◌++◌, map, arith, length, Bool-cases,
}
use linux_application_layer.MessageQueue.{Bytes, c_string}
use linux_application_layer.Scan.{
  is_space, skip_space, Line, unset, nothing, returned, scan_name, fscanf, Shown, before,
  fscanf_loop,
}
use linux_application_layer.Scan.Words.{word_all}
use linux_application_layer.Scan.Lines.{
  Entry, entry, line_of, row_of, IsWord, IsEntry, short, fscanf-entry,
}

skip_twice : (file : Bytes) → skip_space (skip_space file) ≡ skip_space file
unfolding skip_space
skip_twice [] = refl
skip_twice (c ∷ cs) = elim (Bool-cases (is_space c)) [
  | inl h ↦ rw h (skip_twice cs)
  | inr h ↦ rw h (rw h refl)
]

-- Spaces in front make no difference to a call.
fscanf-skip_space : (line : Line) (file : Bytes) → fscanf line (skip_space file) ≡ fscanf line file
unfolding fscanf
fscanf-skip_space line file = rw (skip_twice file) refl

loop-skip_space :
    (fuel : ℕ) (line : Line) (file : Bytes)
    → fscanf_loop fuel line (skip_space file) ≡ fscanf_loop fuel line file
unfolding fscanf_loop
loop-skip_space zero line file = refl
loop-skip_space (suc fuel) line file = rw (fscanf_loop, fscanf-skip_space line file) refl

abbrev pub file_of : List Entry → (tail : Bytes) → Bytes
file_of [] tail = tail
file_of (e ∷ es) tail = entry e (file_of es tail)

abbrev pub AllEntries : List Entry → Type 0
AllEntries [] = Unit
AllEntries (e ∷ es) = IsEntry e × AllEntries es

-- What the variables hold after some lines.
abbrev pub last_line : Line → List Entry → Line
last_line line [] = line
last_line line (e ∷ es) = last_line (line_of e) es

-- One turn for each line.
abbrev turns : List Entry → ℕ → ℕ
turns [] fuel = fuel
turns (e ∷ es) fuel = suc (turns es fuel)

turns-length : (es : List Entry) (fuel : ℕ) → turns es fuel ≡ length es + fuel
turns-length [] fuel = omega arith
turns-length (e ∷ es) fuel = omega (arith, turns-length es fuel)

abbrev all_before : List Line → Option Shown → Option Shown
all_before [] shown = shown
all_before (line ∷ lines) shown = before line (all_before lines shown)

loop-entries :
    (fuel : ℕ) (line : Line) (es : List Entry) (tail : Bytes)
    → AllEntries es
    → fscanf_loop (turns es fuel) line (file_of es tail)
      ≡ all_before (map line_of es) (fscanf_loop fuel (last_line line es) tail)
unfolding fscanf_loop
loop-entries fuel line [] tail h = refl
loop-entries fuel line (e ∷ es) tail (h, hs) =
    let rest = file_of es tail in
    rw (fscanf_loop, fscanf-entry line e rest h)
      (ap (before (line_of e)) (
        loop-skip_space (turns es fuel) (line_of e) rest
        ∙ loop-entries fuel (line_of e) es tail hs))

all_before-some :
    (es : List Entry) (s : Shown)
    → all_before (map line_of es) (some s)
      ≡ some (record s { lines = map line_of es ++ s.lines; rows = map row_of es ++ s.rows })
all_before-some [] s = refl
all_before-some (e ∷ es) s = ap (before (line_of e)) (all_before-some es s)

-- At the end of the file, spaces left or not, the loop ends.
loop_end :
    (fuel : ℕ) (line : Line) (tail : Bytes)
    → skip_space tail ≡ []
    → fscanf_loop (suc fuel) line tail ≡ some (nothing true)
unfolding fscanf fscanf_loop
loop_end fuel line tail h = rw (fscanf_loop, fscanf, h) refl

enough : (es : List Entry) (fuel : ℕ) → length es < fuel → (d : ℕ) × (fuel ≡ turns es (suc d))
enough es fuel h =
    (fuel - suc (length es), omega (arith, h, turns-length es (suc (fuel - suc (length es)))))

-- A file of lines that each hold a name, an age and a name, the names without spaces and of less than
-- 50 bytes and the age an int: the loop reads back every line as it was written, in order, prints each
-- once, a name up to a NUL in it, and ends; one turn for each line and one more are enough, and spaces
-- at the end make no difference.
pub reads_back :
    (fuel : ℕ) (garbage : Line) (es : List Entry) (tail : Bytes)
    → AllEntries es
    → skip_space tail ≡ []
    → length es < fuel
    → fscanf_loop fuel garbage (file_of es tail)
      ≡ some (record { lines = map line_of es; rows = map row_of es; defined = true })
reads_back fuel garbage es tail h t l =
    let (d, e) = enough es fuel l in
    rw
      (
        e,
        loop-entries (suc d) garbage es tail h,
        loop_end d (last_line garbage es) tail t,
        all_before-some es (nothing true),
        append-nil (map line_of es),
        append-nil (map row_of es),
      )
      refl

lone_word :
    (line : Line) (w : Bytes) → IsWord w → scan_name line w ≡ returned (record line { name = w }) []
unfolding skip_space
lone_word line [] h = absurd (omega (arith, h.long))
lone_word line (c ∷ cs) h =
    let (taken, left) = word_all (c ∷ cs) h.spaceless in rw (taken, left, short (c ∷ cs) h) refl

-- Where the age and the second name were read before, the name is printed with them.
loop_word :
    (fuel : ℕ) (e : Entry) (tail w : Bytes)
    → skip_space tail ≡ w
    → IsWord w
    → fscanf_loop (suc (suc fuel)) (line_of e) tail
      ≡ some (record {
        lines = record (line_of e) { name = w } ∷ [];
        rows = record (row_of e) { name = c_string w } ∷ [];
        defined = true;
      })
unfolding fscanf skip_space fscanf_loop
loop_word fuel e tail w t h = rw (fscanf_loop, fscanf, t, lone_word (line_of e) w h) refl

lone_undefined :
    (fuel : ℕ) (tail w : Bytes)
    → skip_space tail ≡ w
    → IsWord w
    → fscanf_loop (suc fuel) unset tail ≡ some (nothing false)
unfolding fscanf fscanf_loop
lone_undefined fuel tail w t h = rw (fscanf_loop, fscanf, t, lone_word unset w h) refl

-- The last of some lines.
abbrev pub last_of : Entry → List Entry → Entry
last_of e [] = e
last_of e (f ∷ es) = last_of f es

last_line-last_of :
    (e : Entry) (es : List Entry) → last_line (line_of e) es ≡ line_of (last_of e es)
last_line-last_of e [] = refl
last_line-last_of e (f ∷ es) = last_line-last_of f es

-- Where such a file, of one line at least, ends with a name alone, the loop prints that name with the
-- age and the second name of the line before: it looks only for EOF, and a call that reads one of
-- three is none. With no line before, the print of an age that was never read is undefined.
pub repeats_last :
    (fuel : ℕ) (garbage : Line) (e : Entry) (es : List Entry) (tail w : Bytes)
    → AllEntries (e ∷ es)
    → skip_space tail ≡ w
    → IsWord w
    → length es + 2 < fuel
    → (fscanf_loop fuel garbage (file_of (e ∷ es) tail)
        ≡ some (record {
          lines = map line_of (e ∷ es) ++ (record (line_of (last_of e es)) { name = w } ∷ []);
          rows = map row_of (e ∷ es) ++ (record (row_of (last_of e es)) { name = c_string w } ∷ []);
          defined = true;
        }))
      × (fscanf_loop fuel unset tail ≡ some (nothing false))
repeats_last fuel garbage e es tail w h t k l = (with_line, with_none fuel l)
  where
    with_none : (f : ℕ) → length es + 2 < f → fscanf_loop f unset tail ≡ some (nothing false)
    with_none zero l = absurd (omega arith)
    with_none (suc f) l = lone_undefined f tail w t k

    last : Entry
    last = last_of e es

    alone : Shown
    alone = record {
      lines = record (line_of last) { name = w } ∷ [];
      rows = record (row_of last) { name = c_string w } ∷ [];
      defined = true;
    }

    with_line :
        fscanf_loop fuel garbage (file_of (e ∷ es) tail)
        ≡ some (record alone {
          lines = map line_of (e ∷ es) ++ alone.lines;
          rows = map row_of (e ∷ es) ++ alone.rows;
        })
    with_line =
        let d = fuel - suc (suc (length (e ∷ es))) in
        let f : fuel ≡ turns (e ∷ es) (suc (suc d)) =
          omega (arith, l, turns-length (e ∷ es) (suc (suc d))) in
        ap (λ n. fscanf_loop n garbage (file_of (e ∷ es) tail)) f
        ∙ loop-entries (suc (suc d)) garbage (e ∷ es) tail h
        ∙ ap (λ line. all_before (map line_of (e ∷ es)) (fscanf_loop (suc (suc d)) line tail))
            (last_line-last_of e es)
        ∙ ap (all_before (map line_of (e ∷ es))) (loop_word d last tail w t k)
        ∙ all_before-some (e ∷ es) alone
