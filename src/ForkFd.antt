-- ===== src/ForkFd.antt =====
-- process_test/fork_fd_test.c: a father and its child that write to one file through the descriptor
-- that both have from before `fork`.
pub mod Appended
pub mod Ends
mod Tests
use linux_application_layer.Common.{
  ℕ, zero, suc, ◌≡◌, Bool, true, false, Option, none, some, List, [], ◌∷◌, ◌++◌, take,
}

pub data Who : Type 0 where
  child father : Who

-- The child copies "这是子进程写入的数据!\n" into its buffer, the father "这是父进程写入的数据!\n".
unfoldable pub text : Who → List ℕ
text child =
    232 ∷ 191 ∷ 153 ∷ 230 ∷ 152 ∷ 175 ∷ 229 ∷ 173 ∷ 144 ∷ 232 ∷ 191 ∷ 155 ∷ 231 ∷ 168 ∷ 139 ∷ 229
    ∷ 134 ∷ 153 ∷ 229 ∷ 133 ∷ 165 ∷ 231 ∷ 154 ∷ 132 ∷ 230 ∷ 149 ∷ 176 ∷ 230 ∷ 141 ∷ 174 ∷ 33 ∷ 10
    ∷ []
text father =
    232 ∷ 191 ∷ 153 ∷ 230 ∷ 152 ∷ 175 ∷ 231 ∷ 136 ∷ 182 ∷ 232 ∷ 191 ∷ 155 ∷ 231 ∷ 168 ∷ 139 ∷ 229
    ∷ 134 ∷ 153 ∷ 229 ∷ 133 ∷ 165 ∷ 231 ∷ 154 ∷ 132 ∷ 230 ∷ 149 ∷ 176 ∷ 230 ∷ 141 ∷ 174 ∷ 33 ∷ 10
    ∷ []

-- The lines that a process prints.
pub data Line : Type 0 where
  write_failed written : Line
  released : Who → Line

-- Before `sleep`, `strcpy`, `write`, the message of success, `close`, the last message; after a failed
-- `write`, before `perror` and before `close`; ended with a status.
pub data Pc : Type 0 where
  sleeping copying writing telling closing releasing reporting shutting : Pc
  exited : ℕ → Pc

-- What `write` did: it failed, or wrote a number of bytes, perhaps fewer than asked; any number from
-- the length on stands for the whole.
pub data Result : Type 0 where
  failed : Result
  wrote : ℕ → Result

pub record Process : Type 0 where
  pub pc : Pc
  pub buffer : List ℕ
  pub bytes_write : Option Result
  pub holds_fd : Bool
  pub printed : List Line

pub record System : Type 0 where
  pub file : List ℕ
  pub childs : Process
  pub fathers : Process

-- A process after a step, and the file.
pub record Turn : Type 0 where
  pub process : Process
  pub file : List ℕ

-- With O_APPEND every `write` goes to the end of the file.
unfoldable pub write : Result → Process → List ℕ → Turn
write failed p file = record {
  process = record p { bytes_write = some failed; pc = reporting };
  file = file;
}
write (wrote n) p file = record {
  process = record p { bytes_write = some (wrote n); pc = telling };
  file = file ++ take n p.buffer;
}

-- A process after a step that leaves the file alone.
abbrev pub alone : Process → List ℕ → Option Turn
alone p file = some (record { process = p; file = file })

unfoldable pub process_at : Who → Result → Pc → Process → List ℕ → Option Turn
process_at who result sleeping p file = alone (record p { pc = copying }) file
process_at who result copying p file = alone (record p { buffer = text who; pc = writing }) file
process_at who result writing p file = some (write result p file)
process_at who result telling p file =
    alone (record p { printed = p.printed ++ (written ∷ []); pc = closing }) file
process_at who result closing p file = alone (record p { holds_fd = false; pc = releasing }) file
process_at who result releasing p file =
    alone (record p { printed = p.printed ++ (released who ∷ []); pc = exited 0 }) file
process_at who result reporting p file =
    alone (record p { printed = p.printed ++ (write_failed ∷ []); pc = shutting }) file
process_at who result shutting p file = alone (record p { holds_fd = false; pc = exited 1 }) file
process_at who result (exited status) p file = none

-- A process behind `fork`: nothing stands in its buffer yet.
abbrev pub begun : Pc → Process
begun pc = record { pc = pc; buffer = []; bytes_write = none; holds_fd = true; printed = [] }

abbrev pub forked : (file : List ℕ) → System
forked file = record { file = file; childs = begun copying; fathers = begun sleeping }

-- `open` and `fork`: whether the program goes on.
abbrev pub main : (opens forks : Bool) (file : List ℕ) → Option System
main true true file = some (forked file)
main _ _ file = none

pub data Step (s : System) : System → Type 0 where
  by_child :
      (result : Result) {t : Turn}
      → process_at child result s.childs.pc s.childs s.file ≡ some t
      → Step s (record s { childs = t.process; file = t.file })
  by_father :
      (result : Result) {t : Turn}
      → process_at father result s.fathers.pc s.fathers s.file ≡ some t
      → Step s (record s { fathers = t.process; file = t.file })

-- `Reach before k s`: the two are at `s` after `k` steps from a file that held `before`.
pub data Reach (before : List ℕ) : ℕ → System → Type 0 where
  start : Reach before 0 (forked before)
  next : {k : ℕ} {s t : System} → Reach before k s → Step s t → Reach before (suc k) t
