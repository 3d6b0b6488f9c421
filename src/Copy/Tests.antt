-- ===== src/Copy/Tests.antt =====
-- Runs of the copying programs, and the theorems there.
use linux_application_layer.Common.{ℕ, ◌≡◌, refl, true, some, List, [], ◌∷◌, arith}
use linux_application_layer.Copy.{
  Turn, fails, gives, success, End, copy_loop, fifo_read_main, fifo_write_main,
}
use linux_application_layer.Copy.Fifo.{fifo_delivers}

-- Reads of three bytes, two bytes, one byte, and what there is.
abbrev turns : List Turn
turns =
    gives 2 1024 ∷ gives 1 1024 ∷ gives 0 1024 ∷ gives 99 1024 ∷ gives 99 1024 ∷ gives 5 1024 ∷ []

abbrev hello : List ℕ
hello = b'h' ∷ b'e' ∷ b'l' ∷ b'l' ∷ b'o' ∷ []

abbrev delivered : End
delivered = record { status = success; out = hello; closed = true; unlinked = true }

writes_hello : fifo_write_main (some 17) true turns hello ≡ some delivered
unfolding fifo_write_main copy_loop
writes_hello = refl

fifo_delivers_example :
    (w : End) × (r : End) × (fifo_write_main (some 17) true turns hello ≡ some w)
    × (fifo_read_main true turns w.out ≡ some r)
    × (r.out ≡ hello)
    × (w ≡ delivered)
    × (r.status ≡ success)
    × (r.closed ≡ true)
fifo_delivers_example =
    fifo_delivers (some 17) turns turns hello refl (omega arith) (omega arith) (omega arith)
      (omega arith)

-- After two bytes `read` fails.
abbrev broken : List Turn
broken = gives 1 100 ∷ fails ∷ []
