-- ===== src/Roses.antt =====
-- thread_test/terminate_test.c: two threads read lines of the same input until each has one that
-- begins with its letter; each returns a result on the heap, which `main` prints and frees.
pub mod Outcome
pub mod Unheard
mod Tests
use mathlib.Core.Option
use linux_application_layer.Common.{
  ℕ, suc, ◌≡◌, Bool, true, false, Option, none, some, List, [], ◌∷◌, ◌==◌, ◌||◌, not, if◌then◌else◌,
}
use linux_application_layer.MessageQueue.{Bytes}

-- A thread: before its two `malloc`, before `fgets`, before its test, after it has freed `ans`,
-- returned.
pub data Pc : Type 0 where
  starting reading testing leaving gone : Pc

pub data Block : Type 0 where
  untouched live freed : Block

-- A thread with its buffer and the three blocks that it allocates: `result`, `ans`, and the string.
pub record Rose : Type 0 where
  pub pc : Pc
  pub buffer : Bytes
  pub result : Block
  pub ans : Block
  pub story : Block

pub data Main : Type 0 where
  joining_red joining_white returned : Main

pub data Line : Type 0 where
  red_story white_story : Line

pub record System : Type 0 where
  pub input : List Bytes  -- what `fgets` will give, at most 99 bytes each
  pub red : Rose
  pub white : Rose
  pub main : Main
  pub told : List Line  -- the endings that `main` has printed, the latest first
  pub bad_free : Bool  -- a block was freed that was not live

-- `ans[0] == code`
abbrev pub begins : ℕ → Bytes → Bool
begins code [] = false
begins code (b ∷ bs) = b == code

abbrev pub is_live : Block → Bool
is_live live = true
is_live untouched = false
is_live freed = false

-- `fgets(ans, 100, stdin)`: at the end of the input the buffer stays as it is.
abbrev pub fgets : List Bytes → Rose → Rose × List Bytes
fgets [] r = (record r { pc = testing }, [])
fgets (line ∷ lines) r = (record r { buffer = line; pc = testing }, lines)

-- `red_thread` and `white_thread`, which differ in their letter; `garbage` is what `malloc` gives in
-- `ans`. The results: the thread, the input, and whether a block was freed that was not live.
unfoldable pub rose_at : ℕ → Bytes → Pc → Rose → List Bytes → Option (Rose × List Bytes × Bool)
rose_at code garbage starting r input =
    some (record r { pc = reading; buffer = garbage; result = live; ans = live }, input, false)
rose_at code garbage reading r input = let (r', input') = fgets input r in some (r', input', false)
rose_at code garbage testing r input =
    if begins code r.buffer
    then some (record r { pc = leaving; ans = freed }, input, not (is_live r.ans))
    else some (record r { pc = reading }, input, false)
rose_at code garbage leaving r input = some (record r { pc = gone; story = live }, input, false)
rose_at code garbage gone r input = none

-- `free(result->p); free(result);`
abbrev pub freed_result : Rose → Rose
freed_result r = record r { story = freed; result = freed }

abbrev pub bad_result : Rose → Bool
bad_result r = not (is_live r.story) || not (is_live r.result)

-- `main` from its first `pthread_join` on, given where the thread is that it joins.
unfoldable pub main_at : Main → Pc → System → Option System
main_at joining_red gone s = some (record s {
  red = freed_result s.red;
  main = joining_white;
  told = red_story ∷ s.told;
  bad_free = s.bad_free || bad_result s.red;
})
main_at joining_red starting s = none
main_at joining_red reading s = none
main_at joining_red testing s = none
main_at joining_red leaving s = none
main_at joining_white gone s = some (record s {
  white = freed_result s.white;
  main = returned;
  told = white_story ∷ s.told;
  bad_free = s.bad_free || bad_result s.white;
})
main_at joining_white starting s = none
main_at joining_white reading s = none
main_at joining_white testing s = none
main_at joining_white leaving s = none
main_at returned p s = none

abbrev pub joined : Main → System → Pc
joined joining_red s = s.red.pc
joined joining_white s = s.white.pc
joined returned s = gone

-- `red_code`, `white_code`
abbrev pub red_code : ℕ
red_code = 114

abbrev pub white_code : ℕ
white_code = 119

abbrev pub new_rose : Rose
new_rose = record {
  pc = starting;
  buffer = [];
  result = untouched;
  ans = untouched;
  story = untouched;
}

module _ (red_garbage white_garbage : Bytes) where
  pub data Step (s : System) : System → Type 0 where
    red_step :
        {r : Rose} {input : List Bytes} {bad : Bool}
        → rose_at red_code red_garbage s.red.pc s.red s.input ≡ some (r, input, bad)
        → Step s (record s { red = r; input = input; bad_free = s.bad_free || bad })
    white_step :
        {r : Rose} {input : List Bytes} {bad : Bool}
        → rose_at white_code white_garbage s.white.pc s.white s.input ≡ some (r, input, bad)
        → Step s (record s { white = r; input = input; bad_free = s.bad_free || bad })
    main_step : {t : System} → main_at s.main (joined s.main s) s ≡ some t → Step s t

  pub data Reach (input : List Bytes) : System → Type 0 where
    start : Reach input (record {
      input = input;
      red = new_rose;
      white = new_rose;
      main = joining_red;
      told = [];
      bad_free = false;
    })
    next : {s t : System} → Reach input s → Step s t → Reach input t
