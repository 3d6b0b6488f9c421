-- ===== src/Copy.antt =====
-- The programs that copy bytes with `read` and `write`: file_io/system_call_test.c,
-- process_test/fifo_write.c and process_test/fifo_read.c.
pub mod Loop
pub mod Fifo
mod Tests
use linux_application_layer.Common.{
  ℕ, suc, ◌≡◌, Bool, true, false, Option, none, some, List, [], ◌∷◌, ◌++◌, ◌==◌, if◌then◌else◌,
  take, drop, not,
}
use Prim.Native.Nat.{min}

-- How the kernel answers one round of the loop: `read` fails, or it gives at most `limit + 1` bytes
-- (it blocks until there is one, or until the end), and `write` takes at most `room` bytes.
pub data Turn : Type 0 where
  fails : Turn
  gives : (limit room : ℕ) → Turn

pub data Status : Type 0 where
  success failure : Status

-- `read(fd, buf, cap)`
abbrev pub chunk : (cap limit : ℕ) → List ℕ → List ℕ
chunk cap limit input = take (min cap (suc limit)) input

abbrev pub left : (cap limit : ℕ) → List ℕ → List ℕ
left cap limit input = drop (min cap (suc limit)) input

abbrev pub is_empty : List ℕ → Bool
is_empty [] = true
is_empty (_ ∷ _) = false

-- `while ((n = read(fd, buf, cap)) > 0) write(out, buf, n);` and whether the last `read` failed;
-- `none` while the turns are not enough. The result of `write` is ignored.
unfoldable pub copy_loop : (cap : ℕ) → List Turn → (input out : List ℕ) → Option (Status × List ℕ)
copy_loop cap [] input out = none
copy_loop cap (fails ∷ ts) input out = some (failure, out)
copy_loop cap (gives limit room ∷ ts) input out =
    let rest = copy_loop cap ts (left cap limit input) (out ++ take room (chunk cap limit input)) in
    if is_empty (chunk cap limit input) then some (success, out) else rest

-- How a program ends: its exit status, the bytes written, whether it closed its descriptor, and
-- whether it removed the FIFO.
pub record End : Type 0 where
  pub status : Status
  pub out : List ℕ
  pub closed : Bool
  pub unlinked : Bool

-- Where `open` failed.
abbrev pub not_opened : End
not_opened = record { status = failure; out = []; closed = false; unlinked = false }

-- What follows the loop in system_call_test.c: both branches close the file.
abbrev pub system_call_end : Option (Status × List ℕ) → Option End
system_call_end none = none
system_call_end (some (s, out)) =
    some (record { status = s; out = out; closed = true; unlinked = false })

-- `main` of system_call_test.c, given whether `open` succeeded.
unfoldable pub system_call_main : Bool → List Turn → List ℕ → Option End
system_call_main false ts file = some not_opened
system_call_main true ts file = system_call_end (copy_loop 1024 ts file [])

-- What follows the loop in fifo_read.c: after a failed `read` it exits without `close`.
abbrev pub fifo_read_end : Option (Status × List ℕ) → Option End
fifo_read_end none = none
fifo_read_end (some (failure, out)) =
    some (record { status = failure; out = out; closed = false; unlinked = false })
fifo_read_end (some (success, out)) =
    some (record { status = success; out = out; closed = true; unlinked = false })

-- `main` of fifo_read.c, given whether `open` succeeded.
unfoldable pub fifo_read_main : Bool → List Turn → List ℕ → Option End
fifo_read_main false ts pipe = some not_opened
fifo_read_main true ts pipe = fifo_read_end (copy_loop 100 ts pipe [])

-- What follows the loop in fifo_write.c: the pipe is removed only after the end of the input.
abbrev pub fifo_write_end : Option (Status × List ℕ) → Option End
fifo_write_end none = none
fifo_write_end (some (failure, out)) =
    some (record { status = failure; out = out; closed = true; unlinked = false })
fifo_write_end (some (success, out)) =
    some (record { status = success; out = out; closed = true; unlinked = true })

-- After `mkfifo`, given the `errno` of a failure; 17 is EEXIST.
abbrev pub may_go_on : Option ℕ → Bool
may_go_on none = true
may_go_on (some errno) = errno == 17

-- `main` of fifo_write.c, given how `mkfifo` and `open` went.
unfoldable pub fifo_write_main : Option ℕ → Bool → List Turn → List ℕ → Option End
fifo_write_main mkfifo opened ts stdin =
    if not (may_go_on mkfifo)
    then some not_opened
    else if not opened
    then some not_opened
    else fifo_write_end (copy_loop 100 ts stdin [])
