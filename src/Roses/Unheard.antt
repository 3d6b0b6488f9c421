-- ===== src/Roses/Unheard.antt =====
-- An input without the red letter: terminate_test never ends.
use linux_application_layer.Common.{
  ◌≡◌, refl, Bool, false, Option, some, none, List, [], ◌∷◌, arith, ◌≢◌,
}
use linux_application_layer.MessageQueue.{Bytes}
use linux_application_layer.Roses.{
  Pc, starting, reading, testing, leaving, gone, Rose, Main, joining_red, joining_white, returned,
  System, begins, rose_at, main_at, joined, red_code, white_code, Step, red_step, white_step,
  main_step, Reach, start, next,
}

-- No line to come begins with the letter.
abbrev pub Silent : List Bytes → Type 0
Silent [] = Unit
Silent (l ∷ ls) = (begins red_code l ≡ false) × Silent ls

abbrev pub Waits : Pc → Bytes → Type 0
Waits starting buffer = Unit
Waits reading buffer = begins red_code buffer ≡ false
Waits testing buffer = begins red_code buffer ≡ false
Waits leaving buffer = ⊥
Waits gone buffer = ⊥

pub record Unheard (s : System) : Type 0 where
  pub silent : Silent s.input
  pub waits : Waits s.red.pc s.red.buffer
  pub main_waits : s.main ≡ joining_red

red-Waits :
    (garbage : Bytes) (p : Pc) (r : Rose) (input : List Bytes) {r' : Rose} {input' : List Bytes}
    {bad : Bool}
    → r.pc ≡ p
    → rose_at red_code garbage p r input ≡ some (r', input', bad)
    → begins red_code garbage ≡ false
    → Silent input
    → Waits p r.buffer
    → Waits r'.pc r'.buffer × Silent input'
unfolding rose_at
red-Waits garbage starting r input q e g h w = ground arith
red-Waits garbage reading r [] q e g h w = ground arith
red-Waits garbage reading r (l ∷ ls) q e g h w = ground arith
red-Waits garbage testing r input q e g h w = ground arith
red-Waits garbage leaving r input q e g h w = absurd w
red-Waits garbage gone r input q e g h w = absurd w

white_keeps :
    (garbage : Bytes) (p : Pc) (r : Rose) (input : List Bytes) {r' : Rose} {input' : List Bytes}
    {bad : Bool}
    → rose_at white_code garbage p r input ≡ some (r', input', bad)
    → Silent input
    → Silent input'
unfolding rose_at
white_keeps garbage starting r input e h = ground arith
white_keeps garbage reading r [] e h = ground arith
white_keeps garbage reading r (l ∷ ls) e h = ground arith
white_keeps garbage testing r input e h = ground arith
white_keeps garbage leaving r input e h = ground arith
white_keeps garbage gone r input e h = ground arith

main_stays :
    {s t : System} (m : Main) (p : Pc)
    → s.main ≡ m
    → joined m s ≡ p
    → main_at m p s ≡ some t
    → Unheard s
    → Unheard t
unfolding main_at
main_stays joining_red gone d q e u = absurd (ground (arith, u.waits))
main_stays joining_red starting d q e u = ground arith
main_stays joining_red reading d q e u = ground arith
main_stays joining_red testing d q e u = ground arith
main_stays joining_red leaving d q e u = ground arith
main_stays joining_white p d q e u = absurd (ground (arith, u.main_waits))
main_stays returned p d q e u = absurd (ground (arith, u.main_waits))

module _ (red_garbage white_garbage : Bytes) (g : begins red_code red_garbage ≡ false) where
  Step-Unheard : {s t : System} → Step red_garbage white_garbage s t → Unheard s → Unheard t
  Step-Unheard {s} (red_step e) u =
      let k = red-Waits red_garbage s.red.pc s.red s.input refl e g u.silent u.waits in
      record { silent = k.1; waits = k.0; main_waits = u.main_waits }
  Step-Unheard {s} (white_step e) u = record {
    silent = white_keeps white_garbage s.white.pc s.white s.input e u.silent;
    waits = u.waits;
    main_waits = u.main_waits;
  }
  Step-Unheard {s} (main_step e) u = main_stays s.main (joined s.main s) refl refl e u

  Reach-Unheard :
      {input : List Bytes} {s : System}
      → Silent input
      → Reach red_garbage white_garbage input s
      → Unheard s
  Reach-Unheard h start = record { silent = h; waits = tt; main_waits = refl }
  Reach-Unheard h (next r st) = Step-Unheard st (Reach-Unheard h r)

  red_steps :
      (s : System) (o : Option (Rose × List Bytes × Bool))
      → rose_at red_code red_garbage s.red.pc s.red s.input ≡ o
      → o ≢ none
      → (t : System) × Step red_garbage white_garbage s t
  red_steps s none e h = absurd (h refl)
  red_steps s (some (r, input, bad)) e h = (_, red_step e)

  goes_on :
      (s : System) (p : Pc)
      → s.red.pc ≡ p
      → Waits p s.red.buffer
      → rose_at red_code red_garbage p s.red s.input ≢ none
  unfolding rose_at
  goes_on s starting q w e = ground arith
  goes_on s reading q w e = ground arith
  goes_on s testing q w e = ground arith
  goes_on s leaving q w e = absurd w
  goes_on s gone q w e = absurd w

  -- If neither the fresh buffer of the red thread nor any line of the input begins with its letter,
  -- terminate_test never ends: in every state that it reaches, also after the end of the input, `main`
  -- still waits for the red thread, and that thread takes a further step.
  pub unheard_runs_on :
      {input : List Bytes} {s : System}
      → Silent input
      → Reach red_garbage white_garbage input s
      → (s.main ≡ joining_red) × ((t : System) × Step red_garbage white_garbage s t)
  unheard_runs_on {s = s} h r =
      let u = Reach-Unheard h r in
      (
        u.main_waits,
        red_steps s (rose_at red_code red_garbage s.red.pc s.red s.input) refl
            (goes_on s s.red.pc refl u.waits),
      )
