-- ===== src/Interrupt.antt =====
-- process_test/signal_test.c: a loop that only SIGINT ends, through a handler.
pub mod Ends
mod Tests
use linux_application_layer.Common.{
  ℕ, suc, ◌≡◌, Bool, true, false, Option, none, some, List, [], ◌∷◌, ◌++◌, if◌then◌else◌,
}

pub data Line : Type 0 where
  signal_failed hello : Line
  stopped : (signum : ℕ) → Line

-- `main` before `signal`, `sleep` and `printf`; `sigint_handler` before its `printf` and its `exit`;
-- ended with a status, or by the signal itself.
pub data Pc : Type 0 where
  registering sleeping printing : Pc
  handling leaving : (signum : ℕ) → Pc
  exited : (status : ℕ) → Pc
  killed : Pc

pub record State : Type 0 where
  pub pc : Pc
  pub printed : List Line

abbrev pub sigint : ℕ
sigint = 2

-- The next call of the process; `registers` says whether `signal` succeeds.
unfoldable pub main_at : (registers : Bool) → Pc → State → Option State
main_at registers registering s = some (
    if registers
    then record s { pc = sleeping }
    else record { pc = exited 1; printed = s.printed ++ (signal_failed ∷ []) })
main_at registers sleeping s = some (record s { pc = printing })
main_at registers printing s = some (record { pc = sleeping; printed = s.printed ++ (hello ∷ []) })
main_at registers (handling signum) s =
    some (record { pc = leaving signum; printed = s.printed ++ (stopped signum ∷ []) })
main_at registers (leaving signum) s = some (record s { pc = exited signum })
main_at registers (exited status) s = none
main_at registers killed s = none

-- SIGINT arrives: it kills a process without a handler; while the handler runs it is held back.
unfoldable pub interrupt : Pc → State → Option State
interrupt registering s = some (record s { pc = killed })
interrupt sleeping s = some (record s { pc = handling sigint })
interrupt printing s = some (record s { pc = handling sigint })
interrupt (handling signum) s = some s
interrupt (leaving signum) s = some s
interrupt (exited status) s = none
interrupt killed s = none

abbrev pub begun : State
begun = record { pc = registering; printed = [] }

-- `Reach registers i s`: the process is at `s`, and SIGINT has arrived `i` times.
pub data Reach (registers : Bool) : ℕ → State → Type 0 where
  start : Reach registers 0 begun
  call :
      {i : ℕ} {s t : State}
      → Reach registers i s
      → main_at registers s.pc s ≡ some t
      → Reach registers i t
  signal :
      {i : ℕ} {s t : State}
      → Reach registers i s
      → interrupt s.pc s ≡ some t
      → Reach registers (suc i) t
