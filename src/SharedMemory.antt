-- ===== src/SharedMemory.antt =====
-- process_test/shared_memory.c and shared_memory_block.c: a son that copies a letter into shared
-- memory, and its father that prints it after a second.
pub mod Name
pub mod Filled
pub mod Prints
pub mod Parts
pub mod Whole
pub mod Ends
mod Tests
use linux_application_layer.Common.{
  ℕ, suc, ◌+◌, ◌≡◌, Bool, true, false, Option, none, some, List, [], ◌∷◌, ◌++◌, ◌==◌, ltb,
  if◌then◌else◌, length, get_or, set, replicate,
}

-- The bytes of `"你是个好人!\n"`, without the NUL.
abbrev pub letter : List ℕ
letter =
    228 ∷ 189 ∷ 160 ∷ 230 ∷ 152 ∷ 175 ∷ 228 ∷ 184 ∷ 170 ∷ 229 ∷ 165 ∷ 189 ∷ 228 ∷ 186 ∷ 186 ∷ 33
    ∷ 10 ∷ []

-- The son: before `strcpy` copies the byte at an index, before its print, before `shm_unlink`, at its
-- end; or there is none, since `fork` failed.
pub data SonPc : Type 0 where
  copying : ℕ → SonPc
  telling unlinking ended never : SonPc

-- The father: before the end of `sleep(1)`, before `printf` reads the byte at an index, with the
-- bytes read so far, at `wait`, before `munmap`, before `shm_unlink`, at its end.
pub data FatherPc : Type 0 where
  sleeping waiting unmapping unlinking_too finished : FatherPc
  reading : ℕ → List ℕ → FatherPc

pub record Letter : Type 0 where
  pub share : List ℕ
  pub named : Bool  -- whether the object has its name
  pub mapped : Bool  -- whether the father has the mapping
  pub son : SonPc
  pub father : FatherPc
  pub printed : List (List ℕ)

-- `strcpy` copies the letter and a NUL.
unfoldable pub son_at : SonPc → Letter → Option Letter
son_at (copying i) s = some (record s {
  share = set s.share i (get_or letter i 0);
  son = if ltb i (length letter) then copying (i + 1) else telling;
})
son_at telling s = some (record s { son = unlinking })
son_at unlinking s = some (record s { named = false; son = ended })
son_at ended s = none
son_at never s = none

-- `wait` returns when the son has ended, or there is none.
abbrev pub wait : SonPc → Letter → Option Letter
wait ended s = some (record s { father = unmapping })
wait never s = some (record s { father = unmapping })
wait _ s = none

-- `%s` reads up to a NUL; behind the object the rest of its page reads as zeros.
unfoldable pub father_at : FatherPc → Letter → Option Letter
father_at sleeping s = some (record s { father = reading 0 [] })
father_at (reading i seen) s =
    let byte = get_or s.share i 0 in
    some (
      if byte == 0
      then record s { printed = seen ∷ s.printed; father = waiting }
      else record s { father = reading (i + 1) (seen ++ (byte ∷ [])) })
father_at waiting s = wait s.son s
father_at unmapping s = some (record s { mapped = false; father = unlinking_too })
father_at unlinking_too s = some (record s { named = false; father = finished })
father_at finished s = none

-- After `fork`, on an object with the bytes `old`.
abbrev pub after_fork : (old : List ℕ) (forked : Bool) → Letter
after_fork old forked = record {
  share = old;
  named = true;
  mapped = true;
  son = if forked then copying 0 else never;
  father = sleeping;
  printed = [];
}

-- A new object of 100 bytes.
abbrev pub zeroed : List ℕ
zeroed = replicate 100 0

-- How `main` leaves: with an exit code, and whether it leaves a name; or it forks.
pub data Main : Type 0 where
  exits : (code : ℕ) (named : Bool) → Main
  forks : Letter → Main

-- Given what `shm_open`, `mmap` and `fork` say, and the 100 bytes of the object after `ftruncate`:
-- `zeroed` where it is new, and what was left in it where it was there.
abbrev pub main : (opened mapped forked : Bool) (old : List ℕ) → Main
main opened mapped forked old =
    if opened then if mapped then forks (after_fork old forked) else exits 1 true else exits 1 false

-- shared_memory_block.c makes the object, and then runs in `while (1)` for ever.
pub data Block : Type 0 where
  exits_at_once : (code : ℕ) → Block
  loops : (named : Bool) (size : ℕ) → Block

abbrev pub block_main : (opened : Bool) → Block
block_main opened = if opened then loops true 0 else exits_at_once 1

abbrev pub block_next : Block → Option Block
block_next (exits_at_once code) = none
block_next (loops named size) = some (loops named size)

pub data Step (s : Letter) : Letter → Type 0 where
  by_son : {t : Letter} → son_at s.son s ≡ some t → Step s t
  by_father : {t : Letter} → father_at s.father s ≡ some t → Step s t

-- `Run k s t`: `k` steps lead from `s` to `t`.
pub data Run (s : Letter) : ℕ → Letter → Type 0 where
  here : Run s 0 s
  next : {k : ℕ} {t u : Letter} → Run s k t → Step t u → Run s (suc k) u
