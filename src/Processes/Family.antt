-- ===== src/Processes/Family.antt =====
-- Processes with their children, and how they step. At a terminal a line is shown when it is
-- printed; else it stays in the buffer of the process up to its end: `fork` copies the buffer, and
-- `execve` drops it.
use linux_application_layer.Common.{
  ℕ, suc, ◌≡◌, Bool, true, false, Option, none, some, List, [], ◌∷◌, ◌++◌, if◌then◌else◌, ◌&&◌,
}
use linux_application_layer.Processes.{
  Text, Line, Code, print, report, fork, execve, wait, pause, exit, gone, Env,
}

-- A process with what it does, its buffer, its children, and the processes beside it.
pub data Family : Type 0 where
  nobody : Family
  process : Code → (buffer : List Line) → (children siblings : Family) → Family

abbrev pub is_gone : Code → Bool
is_gone (gone status) = true
is_gone _ = false

abbrev pub all_gone : Family → Bool
all_gone nobody = true
all_gone (process code buffer children siblings) =
    is_gone code && (all_gone children && all_gone siblings)

-- Whether processes that stand side by side have ended; their own children may still run.
abbrev pub all_ended : Family → Bool
all_ended nobody = true
all_ended (process code buffer children siblings) = is_gone code && all_ended siblings

-- What a process shows in a step, and what it is after it.
pub record Move : Type 0 where
  pub shown : List Line
  pub code : Code
  pub buffer : List Line
  pub children : Family

-- `execve` on what the path names.
abbrev pub run : Option (List Text → Code) → List Text → Code → List Line → Family → Move
run (some main) args failed buffer children = record {
  shown = [];
  code = main args;
  buffer = [];
  children = children;
}
run none args failed buffer children = record {
  shown = [];
  code = failed;
  buffer = buffer;
  children = children;
}

module _ (env : Env) where
  unfoldable pub move : Code → List Line → Family → Option Move
  move (print line k) buffer children = some (
      if env.terminal
      then record { shown = line ∷ []; code = k; buffer = buffer; children = children }
      else record { shown = []; code = k; buffer = buffer ++ (line ∷ []); children = children })
  move (report line k) buffer children =
      some (record { shown = line ∷ []; code = k; buffer = buffer; children = children })
  move (fork failed child father) buffer children = some (
      if env.forks
      then record {
        shown = [];
        code = father;
        buffer = buffer;
        children = process child buffer nobody children;
      }
      else record { shown = []; code = failed; buffer = buffer; children = children })
  move (execve path args failed) buffer children =
      some (run (env.file path) args failed buffer children)
  move (wait k) buffer children =
      if all_ended children
      then some (record { shown = []; code = k; buffer = buffer; children = children })
      else none
  move (pause k) buffer children =
      some (record { shown = []; code = k; buffer = buffer; children = children })
  move (exit status) buffer children =
      some (record { shown = buffer; code = gone status; buffer = []; children = children })
  move (gone status) buffer children = none

  pub data Step : Family → List Line → Family → Type 0 where
    here :
        {code : Code} {buffer : List Line} {children siblings : Family} {m : Move}
        → move code buffer children ≡ some m
        → Step
            (process code buffer children siblings)
            m.shown
            (process m.code m.buffer m.children siblings)
    below :
        {code : Code} {buffer shown : List Line} {children after siblings : Family}
        → Step children shown after
        → Step (process code buffer children siblings) shown (process code buffer after siblings)
    beside :
        {code : Code} {buffer shown : List Line} {children siblings after : Family}
        → Step siblings shown after
        → Step (process code buffer children siblings) shown (process code buffer children after)

  -- `Run f k log g`: `k` steps lead from `f` to `g` and show the lines `log`.
  pub data Run (f : Family) : ℕ → List Line → Family → Type 0 where
    still : Run f 0 [] f
    next :
        {k : ℕ} {log shown : List Line} {g h : Family}
        → Run f k log g
        → Step g shown h
        → Run f (suc k) (log ++ shown) h

abbrev pub alone : Code → Family
alone code = process code [] nobody nobody
