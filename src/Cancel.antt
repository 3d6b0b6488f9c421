-- ===== src/Cancel.antt =====
-- The three programs on thread cancellation (pthread_cancel_deferred_test.c,
-- pthread_cancel_async_test.c and pthread_cancel_disabled_test.c, under thread_test): `main` creates
-- a thread, asks for its cancellation, joins it and reports how it ended.
pub mod Outcome
pub mod Doomed
pub mod Shield
mod Tests
use linux_application_layer.Common.{
  ℕ, ◌≡◌, ◌≢◌, Bool, true, false, Option, none, some, List, [], ◌∷◌, ◌||◌,
}

-- What the threads print.
pub data Message : Type 0 where
  started shielded working after_cancelled : Message

-- The calls of a thread function, in order.
pub data Call : Type 0 where
  printf : Message → Call
  setcancelstate_disable : Call
  setcanceltype_asynchronous : Call
  sleep : Call
  testcancel : Call

-- The value that `pthread_join` stores: NULL, or PTHREAD_CANCELED.
pub data Exit : Type 0 where
  null canceled : Exit

pub data Main : Type 0 where
  cancelling joining : Main
  reported : Exit → Main

pub record Program : Type 0 where
  pub main : Main
  pub rest : List Call  -- the calls that the thread has still to make
  pub disabled : Bool
  pub asynchronous : Bool
  pub pending : Bool  -- a request was sent
  pub exit : Option Exit
  pub log : List Message  -- what the thread printed, the latest first

-- `task` of pthread_cancel_deferred_test.c.
abbrev pub deferred_task : List Call
deferred_task = printf started ∷ printf working ∷ sleep ∷ testcancel ∷ printf after_cancelled ∷ []

-- `task` of pthread_cancel_async_test.c.
abbrev pub async_task : List Call
async_task =
    printf started
    ∷ setcanceltype_asynchronous
    ∷ printf working
    ∷ sleep
    ∷ printf after_cancelled
    ∷ []

-- `task` of pthread_cancel_disabled_test.c.
abbrev pub disabled_task : List Call
disabled_task =
    printf started
    ∷ setcancelstate_disable
    ∷ printf shielded
    ∷ setcanceltype_asynchronous
    ∷ printf working
    ∷ sleep
    ∷ printf after_cancelled
    ∷ []

-- The effect of a call that the thread makes.
unfoldable pub make : Call → Program → Program
make (printf m) s = record s { log = m ∷ s.log }
make setcancelstate_disable s = record s { disabled = true }
make setcanceltype_asynchronous s = record s { asynchronous = true }
make sleep s = s
make testcancel s = s

-- A call at which a pending request must be acted upon.
abbrev pub is_point : Call → Bool
is_point sleep = true
is_point testcancel = true
is_point _ = false

-- POSIX leaves it open whether `printf` is a cancellation point; `printf_cancels` says that it is.
module _ (printf_cancels : Bool) where
  abbrev pub may_act : Call → Bool
  may_act (printf m) = printf_cancels
  may_act c = is_point c

  -- Behind its last call a thread is at no point.
  abbrev pub at_point : List Call → Bool
  at_point [] = false
  at_point (c ∷ cs) = may_act c

  pub data Step (s : Program) : Program → Type 0 where
    -- The thread makes its next call; it does not pass a cancellation point against a request.
    call :
        {c : Call} {cs : List Call}
        → s.exit ≡ none
        → s.rest ≡ c ∷ cs
        → (is_point c ≡ true → s.pending ≡ true → s.disabled ≡ true)
        → Step s (make c (record s { rest = cs }))
    return : s.exit ≡ none → s.rest ≡ [] → Step s (record s { exit = some null })
    -- The thread acts upon a request, at a cancellation point or, asynchronously, anywhere up to
    -- its return.
    act :
        s.exit ≡ none
        → s.pending ≡ true
        → s.disabled ≡ false
        → (s.asynchronous || at_point s.rest) ≡ true
        → Step s (record s { exit = some canceled })
    -- `pthread_cancel` in `main`.
    cancel : s.main ≡ cancelling → Step s (record s { main = joining; pending = true })
    -- `pthread_join` and the report.
    join : {e : Exit} → s.main ≡ joining → s.exit ≡ some e → Step s (record s { main = reported e })

  pub data Reach (s : Program) : Program → Type 0 where
    here : Reach s s
    next : {t u : Program} → Reach s t → Step t u → Reach s u

-- After `pthread_create`.
abbrev pub start : List Call → Program
start task = record {
  main = cancelling;
  rest = task;
  disabled = false;
  asynchronous = false;
  pending = false;
  exit = none;
  log = [];
}
