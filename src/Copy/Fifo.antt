-- ===== src/Copy/Fifo.antt =====
-- The two ends of the named pipe together, and how the three programs end.
use linux_application_layer.Common.{
  ℕ, ◌<◌, ◌≡◌, refl, ◌≢◌, ◌↔◌, ap, Bool, true, false, Option, some, List, [], arith, length,
  Option-cases,
}
use linux_application_layer.Copy.{
  Turn, success, End, copy_loop, system_call_main, fifo_read_main, fifo_write_main, fifo_write_end,
  fifo_read_end, system_call_end, may_go_on,
}
use linux_application_layer.Copy.Loop.{Willing, copies}

-- Where `mkfifo` makes the pipe or it is there already, no `read` fails, every `write` takes all that it
-- is given, and each end has more turns than there are bytes typed: what is typed into fifo_write.c
-- comes out of fifo_read.c, byte for byte, whatever sizes `read` returns at either end; both exit with
-- success, and the pipe is closed and removed.
pub fifo_delivers :
    (mkfifo : Option ℕ) (ts us : List Turn) (stdin : List ℕ)
    → may_go_on mkfifo ≡ true
    → Willing 100 ts
    → Willing 100 us
    → length stdin < length ts
    → length stdin < length us
    → (w : End) × (r : End) × (fifo_write_main mkfifo true ts stdin ≡ some w)
      × (fifo_read_main true us w.out ≡ some r)
      × (r.out ≡ stdin)
      × (w ≡ record { status = success; out = stdin; closed = true; unlinked = true })
      × (r.status ≡ success)
      × (r.closed ≡ true)
unfolding fifo_write_main fifo_read_main
fifo_delivers mkfifo ts us stdin m wt wu lt lu = (
  record { status = success; out = stdin; closed = true; unlinked = true },
  record { status = success; out = stdin; closed = true; unlinked = false },
  rw m (ap fifo_write_end (copies 100 ts stdin [] (omega arith) wt lt)),
  ap fifo_read_end (copies 100 us stdin [] (omega arith) wu lu),
  refl,
  refl,
  refl,
  refl,
)

-- The writer removes the pipe exactly if it exits with success, and closes it if it wrote at all; a
-- reader that fails exits without closing it.
pub fifo_ends :
    (mkfifo : Option ℕ) (opened : Bool) (ts : List Turn) (bytes : List ℕ) {w r : End}
    → fifo_write_main mkfifo opened ts bytes ≡ some w
    → fifo_read_main opened ts bytes ≡ some r
    → ((w.unlinked ≡ true) ↔ (w.status ≡ success))
      × (w.out ≢ [] → w.closed ≡ true)
      × ((r.closed ≡ true) ↔ (r.status ≡ success))
      × (w.status ≡ success → r ≡ record w { unlinked = false })
unfolding fifo_write_main fifo_read_main
fifo_ends mkfifo true ts bytes e f = ground (arith, Option-cases (copy_loop 100 ts bytes []))
fifo_ends mkfifo false ts bytes e f = ground arith

-- With one turn more than bytes, system_call_test.c writes the file to the standard output, closes
-- it and exits with success.
pub system_call_copies :
    (ts : List Turn) (file : List ℕ)
    → Willing 1024 ts
    → length file < length ts
    → system_call_main true ts file
      ≡ some (record { status = success; out = file; closed = true; unlinked = false })
unfolding system_call_main
system_call_copies ts file w l = ap system_call_end (copies 1024 ts file [] (omega arith) w l)
