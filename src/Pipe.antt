-- ===== src/Pipe.antt =====
-- process_test/unnamed_pipe_test.c: a father that sends its argument byte by byte through a pipe, and
-- the child that shows it.
pub mod Delivery
pub mod Ends
mod Tests
use linux_application_layer.Common.{
  ℕ, suc, ◌≡◌, Bool, true, false, Option, none, some, List, [], ◌∷◌, ◌++◌, if◌then◌else◌, ltb,
  length, ◌||◌,
}

-- The father: before it closes its reading end, before its print, writing the bytes that are left,
-- after it closed its writing end, at its end.
pub data FatherPc : Type 0 where
  closing_read telling waiting finished : FatherPc
  writing : List ℕ → FatherPc

-- The child: before it closes its writing end, before its greeting, before `read`, with a byte before
-- `write`, before the line break, before it closes its reading end, at its end.
pub data ChildPc : Type 0 where
  closing_write greeting reading breaking closing ended : ChildPc
  showing : ℕ → ChildPc

-- The bytes in the pipe, who holds a writing end, and what the child has written after its greeting.
pub record Pair : Type 0 where
  pub pipe : List ℕ
  pub father_writes : Bool
  pub child_writes : Bool
  pub father : FatherPc
  pub child : ChildPc
  pub greeted : Bool
  pub shown : List ℕ

-- `waitpid` returns when the child has ended.
abbrev pub wait : ChildPc → Pair → Option Pair
wait ended s = some (record s { father = finished })
wait _ s = none

-- The pipe has room for `room` bytes; `write` waits for room.
unfoldable pub father_at : (room : ℕ) (message : List ℕ) → FatherPc → Pair → Option Pair
father_at room message closing_read s = some (record s { father = telling })
father_at room message telling s = some (record s { father = writing message })
father_at room message (writing []) s = some (record s { father_writes = false; father = waiting })
father_at room message (writing (b ∷ bs)) s =
    if ltb (length s.pipe) room
    then some (record s { pipe = s.pipe ++ (b ∷ []); father = writing bs })
    else none
father_at room message waiting s = wait s.child s
father_at room message finished s = none

-- `read` takes a byte; on an empty pipe it waits while a process holds a writing end, be it the
-- child itself, and returns 0 after that.
abbrev pub read : List ℕ → Pair → Option Pair
read (b ∷ bs) s = some (record s { pipe = bs; child = showing b })
read [] s = if s.father_writes || s.child_writes then none else some (record s { child = breaking })

unfoldable pub child_at : ChildPc → Pair → Option Pair
child_at closing_write s = some (record s { child_writes = false; child = greeting })
child_at greeting s = some (record s { greeted = true; child = reading })
child_at reading s = read s.pipe s
child_at (showing b) s = some (record s { shown = s.shown ++ (b ∷ []); child = reading })
child_at breaking s = some (record s { shown = s.shown ++ (10 ∷ []); child = closing })
child_at closing s = some (record s { child = ended })
child_at ended s = none

-- After `pipe` and `fork`, which succeed: both processes hold both ends.
abbrev pub forked : Pair
forked = record {
  pipe = [];
  father_writes = true;
  child_writes = true;
  father = closing_read;
  child = closing_write;
  greeted = false;
  shown = [];
}

-- `argc != 2`, `pipe` and `fork`: whether the program goes on.
abbrev pub main : (arguments : List (List ℕ)) (piped forks : Bool) → Option Pair
main (name ∷ message ∷ []) true true = some forked
main _ _ _ = none

pub data Step (room : ℕ) (message : List ℕ) (s : Pair) : Pair → Type 0 where
  by_father : {t : Pair} → father_at room message s.father s ≡ some t → Step room message s t
  by_child : {t : Pair} → child_at s.child s ≡ some t → Step room message s t

-- `Reach room message k s`: the two are at `s` after `k` steps.
pub data Reach (room : ℕ) (message : List ℕ) : ℕ → Pair → Type 0 where
  start : Reach room message 0 forked
  next :
      {k : ℕ} {s t : Pair}
      → Reach room message k s
      → Step room message s t
      → Reach room message (suc k) t
