-- ===== src/CreateTest.antt =====
-- thread_test/create_test.c: an input thread and an output thread share a ring of 1024 characters in
-- which 0 marks a free cell.
pub mod Bounds
pub mod Queued
pub mod Cleared
pub mod Fifo
pub mod EndOfInput
mod Tests
use linux_application_layer.Common.{
  ℕ, zero, suc, ◌+◌, ◌≡◌, Bool, true, false, Option, none, some, List, [], ◌∷◌, ◌==◌, ◌&&◌, not,
  leb, if◌then◌else◌, get_or, set,
}

abbrev pub buf_len : ℕ
buf_len = 1024

-- The output thread at its test of `buf[i]`, before the two `fputc`, before `buf[i++] = 0`.
pub data OutPc : Type 0 where
  checking putting clearing : OutPc

-- The buffer, the local `i` of either thread, how often `fgetc` was called, and what was written to
-- stdout, the latest first. Characters are bytes.
pub record Ring : Type 0 where
  pub buf : List ℕ
  pub in_i : ℕ
  pub out_i : ℕ
  pub pc : OutPc
  pub reads : ℕ
  pub stdout : List ℕ

-- `if (i >= BUF_LEN) i = 0;`
abbrev pub wrap : ℕ → ℕ
wrap i = if leb buf_len i then 0 else i

-- `c && c != '\n'`
abbrev pub keep : ℕ → Bool
keep c = not (c == 0) && not (c == 10)

-- `char c = fgetc(stdin)`: at the end of the input `fgetc` returns EOF, which is 0xff as a `char`.
abbrev pub next_char : List ℕ → ℕ → ℕ
next_char stdin k = get_or stdin k 255

-- One round of the input thread's loop.
unfoldable pub input_thread : List ℕ → Ring → Ring
input_thread stdin r =
    let c = next_char stdin r.reads in
    if keep c
    then record r { buf = set r.buf r.in_i c; in_i = wrap (r.in_i + 1); reads = r.reads + 1 }
    else record r { reads = r.reads + 1 }

-- The output thread's next step. `fputc(buf[i])` reads the cell again, after the test.
unfoldable pub output_at : OutPc → Ring → Ring
output_at checking r = if get_or r.buf r.out_i 0 == 0 then r else record r { pc = putting }
output_at putting r = record r { stdout = 10 ∷ get_or r.buf r.out_i 0 ∷ r.stdout; pc = clearing }
output_at clearing r = record r {
  buf = set r.buf r.out_i 0;
  out_i = wrap (r.out_i + 1);
  pc = checking;
}

unfoldable pub output_thread : Ring → Ring
unfolding output_at
output_thread r = output_at r.pc r

-- `for (int i = 0; i < BUF_LEN; i++) buf[i] = 0;` with the rounds left.
unfoldable pub zero_loop : ℕ → ℕ → List ℕ → List ℕ
zero_loop zero i buf = buf
zero_loop (suc rounds) i buf = zero_loop rounds (i + 1) (set buf i 0)

abbrev pub started : List ℕ → Ring
started buf = record { buf = buf; in_i = 0; out_i = 0; pc = checking; reads = 0; stdout = [] }

-- How `main` ends, or that both threads run and it waits for them.
pub data Outcome : Type 0 where
  malloc_failed create_failed : Outcome
  running : Ring → Outcome

-- `main`, given what `malloc` returned and whether either `pthread_create` succeeded.
unfoldable pub main : Option (List ℕ) → Bool → Bool → Outcome
main none input_ok output_ok = malloc_failed
main (some buf) input_ok output_ok =
    if input_ok
    then if output_ok then running (started (zero_loop buf_len 0 buf)) else create_failed
    else create_failed

-- The two threads in any order, on the input `stdin`.
pub data Step (stdin : List ℕ) (r : Ring) : Ring → Type 0 where
  input : Step stdin r (input_thread stdin r)
  output : Step stdin r (output_thread r)

-- The states of the two threads on the input `stdin`, where `malloc` returned `buf`.
pub data Reach (stdin buf : List ℕ) : Ring → Type 0 where
  begin : {r : Ring} → main (some buf) true true ≡ running r → Reach stdin buf r
  next : {r s : Ring} → Reach stdin buf r → Step stdin r s → Reach stdin buf s
