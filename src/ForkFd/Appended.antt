-- ===== src/ForkFd/Appended.antt =====
-- Each process has written its piece behind what was there, once, and ends with what `write` told it.
use linux_application_layer.Common.{
  ℕ, suc, ◌≡◌, ◌≤◌, subst, refl, ◌⊎◌, inl, inr, false, Option, none, some, List, [], ◌∷◌, ◌++◌,
  take, arith,
}
use linux_application_layer.ForkFd.{
  Who, text, write_failed, written, released, Pc, sleeping, copying, writing, telling, closing,
  releasing, reporting, shutting, exited, Result, failed, wrote, Process, Turn, write, process_at,
}

-- What a process has written: a beginning of its text.
abbrev pub piece_of : Who → Option Result → List ℕ
piece_of who (some (wrote n)) = take n (text who)
piece_of who _ = []

-- `write` has written some number of bytes.
abbrev pub Wrote : Option Result → Type 0
Wrote o = (n : ℕ) × (o ≡ some (wrote n))

-- What a process at a place has in its variables and has printed.
abbrev pub At : Who → Pc → Process → Type 0
At who sleeping p = (p.bytes_write ≡ none) × (p.printed ≡ [])
At who copying p = (p.bytes_write ≡ none) × (p.printed ≡ [])
At who writing p = (p.bytes_write ≡ none) × (p.printed ≡ []) × (p.buffer ≡ text who)
At who telling p = Wrote p.bytes_write × (p.printed ≡ [])
At who closing p = Wrote p.bytes_write × (p.printed ≡ written ∷ [])
At who releasing p = Wrote p.bytes_write × (p.printed ≡ written ∷ []) × (p.holds_fd ≡ false)
At who reporting p = (p.bytes_write ≡ some failed) × (p.printed ≡ [])
At who shutting p = (p.bytes_write ≡ some failed) × (p.printed ≡ write_failed ∷ [])
At who (exited status) p =
    (p.holds_fd ≡ false)
    × (((status ≡ 0) × Wrote p.bytes_write × (p.printed ≡ written ∷ released who ∷ []))
        ⊎ ((status ≡ 1) × (p.bytes_write ≡ some failed) × (p.printed ≡ write_failed ∷ [])))

abbrev pub piece : Who → Process → List ℕ
piece who p = piece_of who p.bytes_write

-- The steps that are left.
abbrev pub left : Pc → ℕ
left sleeping = 6
left copying = 5
left writing = 4
left telling = 3
left closing = 2
left releasing = 1
left reporting = 2
left shutting = 1
left (exited status) = 0

-- A step of a process: where it stands, and what the file has more.
pub record Moved (who : Who) (p : Process) (file : List ℕ) (t : Turn) : Type 0 where
  pub at : At who t.process.pc t.process
  pub down : suc (left t.process.pc) ≤ left p.pc
  pub grown :
      ((t.file ≡ file) × (piece who t.process ≡ piece who p))
      ⊎ ((piece who p ≡ []) × (t.file ≡ file ++ piece who t.process))

write-Moved :
    (who : Who) (result : Result) {p : Process} {file : List ℕ} {t : Turn}
    → p.pc ≡ writing
    → At who writing p
    → write result p file ≡ t
    → Moved who p file t
unfolding write
write-Moved who failed {p} {file} q a e =
    subst (Moved who p file) e
      (record { at = (refl, a.1); down = ground arith; grown = inl (refl, ground arith) })
write-Moved who (wrote n) {p} {file} q a e = subst (Moved who p file) e (record {
  at = ((n, refl), a.1);
  down = ground arith;
  grown = inr (ground arith, ground (arith, a.2));
})

pub process-Moved :
    (who : Who) (result : Result) (pc : Pc) {p : Process} {file : List ℕ} {t : Turn}
    → p.pc ≡ pc
    → At who pc p
    → process_at who result pc p file ≡ some t
    → Moved who p file t
unfolding process_at
process-Moved who result sleeping q a e = ground arith
process-Moved who result copying q a e = ground arith
process-Moved who result writing q a e = write-Moved who result q a (ground (arith, e))
process-Moved who result telling q a e = ground arith
process-Moved who result closing q a e = ground arith
process-Moved who result releasing q a e = ground arith
process-Moved who result reporting q a e = ground arith
process-Moved who result shutting q a e = ground arith
process-Moved who result (exited status) q a e = ground arith
