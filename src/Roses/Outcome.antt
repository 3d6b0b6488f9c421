-- ===== src/Roses/Outcome.antt =====
-- How terminate_test ends, and when it does not.
use linux_application_layer.Common.{ℕ, ◌≡◌, refl, Bool, true, false, some, List, [], ◌∷◌, arith}
use linux_application_layer.MessageQueue.{Bytes}
use linux_application_layer.Roses.{
  Pc, starting, reading, testing, leaving, gone, untouched, live, freed, Rose, Main, joining_red,
  joining_white, returned, Line, red_story, white_story, System, begins, rose_at, main_at, joined,
  red_code, white_code, Step, red_step, white_step, main_step, Reach, start, next,
}

-- The blocks of a thread at a point, where `main` has freed its result or has not.
abbrev pub Blocks : Bool → Pc → Rose → Type 0
Blocks true gone r = (r.result ≡ freed) × (r.ans ≡ freed) × (r.story ≡ freed)
Blocks true _ r = ⊥
Blocks false starting r = (r.result ≡ untouched) × (r.ans ≡ untouched) × (r.story ≡ untouched)
Blocks false reading r = (r.result ≡ live) × (r.ans ≡ live) × (r.story ≡ untouched)
Blocks false testing r = (r.result ≡ live) × (r.ans ≡ live) × (r.story ≡ untouched)
Blocks false leaving r = (r.result ≡ live) × (r.ans ≡ freed) × (r.story ≡ untouched)
Blocks false gone r = (r.result ≡ live) × (r.ans ≡ freed) × (r.story ≡ live)

abbrev pub red_over : Main → Bool
red_over joining_red = false
red_over joining_white = true
red_over returned = true

abbrev pub white_over : Main → Bool
white_over joining_red = false
white_over joining_white = false
white_over returned = true

abbrev pub told_by : Main → List Line
told_by joining_red = []
told_by joining_white = red_story ∷ []
told_by returned = white_story ∷ red_story ∷ []

-- A thread that leaves has a line with its letter.
abbrev pub Heard : ℕ → Pc → Bytes → Type 0
Heard code leaving buffer = begins code buffer ≡ true
Heard code gone buffer = begins code buffer ≡ true
Heard code _ buffer = Unit

pub record Inv (s : System) : Type 0 where
  pub no_bad_free : s.bad_free ≡ false
  pub red_blocks : Blocks (red_over s.main) s.red.pc s.red
  pub white_blocks : Blocks (white_over s.main) s.white.pc s.white
  pub told : s.told ≡ told_by s.main
  pub red_heard : Heard red_code s.red.pc s.red.buffer
  pub white_heard : Heard white_code s.white.pc s.white.buffer

-- What a step of a thread keeps, for the thread itself.
pub record Kept (code : ℕ) (r : Rose) (over bad : Bool) : Type 0 where
  pub good : bad ≡ false
  pub blocks : Blocks over r.pc r
  pub heard : Heard code r.pc r.buffer

rose-Kept :
    (code : ℕ) (garbage : Bytes) (over : Bool) (p : Pc) (r : Rose) (input : List Bytes) {r' : Rose}
    {input' : List Bytes} {bad : Bool}
    → r.pc ≡ p
    → rose_at code garbage p r input ≡ some (r', input', bad)
    → Blocks over p r
    → Heard code p r.buffer
    → Kept code r' over bad
unfolding rose_at
rose-Kept code garbage false starting r input q e b h = ground arith
rose-Kept code garbage false reading r [] q e b h = ground arith
rose-Kept code garbage false reading r (l ∷ ls) q e b h = ground arith
rose-Kept code garbage false testing r input q e b h = ground arith
rose-Kept code garbage false leaving r input q e b h = ground arith
rose-Kept code garbage over gone r input q e b h = ground arith
rose-Kept code garbage true starting r input q e b h = absurd b
rose-Kept code garbage true reading r input q e b h = absurd b
rose-Kept code garbage true testing r input q e b h = absurd b
rose-Kept code garbage true leaving r input q e b h = absurd b

module _ (red_garbage white_garbage : Bytes) where
  main-Inv :
      {s t : System} (m : Main) (p : Pc)
      → s.main ≡ m
      → joined m s ≡ p
      → main_at m p s ≡ some t
      → Inv s
      → Inv t
  unfolding main_at
  main-Inv joining_red gone d q e inv = ground arith
  main-Inv joining_red starting d q e inv = ground arith
  main-Inv joining_red reading d q e inv = ground arith
  main-Inv joining_red testing d q e inv = ground arith
  main-Inv joining_red leaving d q e inv = ground arith
  main-Inv joining_white gone d q e inv = ground arith
  main-Inv joining_white starting d q e inv = ground arith
  main-Inv joining_white reading d q e inv = ground arith
  main-Inv joining_white testing d q e inv = ground arith
  main-Inv joining_white leaving d q e inv = ground arith
  main-Inv returned p d q e inv = ground arith

  Step-Inv : {s t : System} → Step red_garbage white_garbage s t → Inv s → Inv t
  Step-Inv {s} (red_step e) inv =
      let k =
        rose-Kept red_code red_garbage (red_over s.main) s.red.pc s.red s.input refl e
          inv.red_blocks inv.red_heard in
      record {
        no_bad_free = ground (arith, inv.no_bad_free, k.good);
        red_blocks = k.blocks;
        white_blocks = inv.white_blocks;
        told = inv.told;
        red_heard = k.heard;
        white_heard = inv.white_heard;
      }
  Step-Inv {s} (white_step e) inv =
      let k =
        rose-Kept white_code white_garbage (white_over s.main) s.white.pc s.white s.input refl e
          inv.white_blocks inv.white_heard in
      record {
        no_bad_free = ground (arith, inv.no_bad_free, k.good);
        red_blocks = inv.red_blocks;
        white_blocks = k.blocks;
        told = inv.told;
        red_heard = inv.red_heard;
        white_heard = k.heard;
      }
  Step-Inv {s} (main_step e) inv = main-Inv s.main (joined s.main s) refl refl e inv

  Reach-Inv : {input : List Bytes} {s : System} → Reach red_garbage white_garbage input s → Inv s
  Reach-Inv start = ground arith
  Reach-Inv (next r st) = Step-Inv st (Reach-Inv r)

  -- When `main` of terminate_test returns, no block was freed that was not live, both threads have
  -- returned, each with a line in its buffer that begins with its letter, all six blocks are freed,
  -- and the ending of the red thread was printed before that of the white thread, whichever of them
  -- returned first.
  pub frees_all :
      {input : List Bytes} {s : System}
      → Reach red_garbage white_garbage input s
      → s.main ≡ returned
      → (s.bad_free ≡ false)
        × (begins red_code s.red.buffer ≡ true)
        × (begins white_code s.white.buffer ≡ true)
        × (Blocks true gone s.red × Blocks true gone s.white)
        × (s.told ≡ white_story ∷ red_story ∷ [])
  frees_all {s = s} r e = let inv = Reach-Inv r in finish s.red.pc s.white.pc refl refl inv
    where
      finish :
          (p q : Pc)
          → s.red.pc ≡ p
          → s.white.pc ≡ q
          → Inv s
          → (s.bad_free ≡ false)
            × (begins red_code s.red.buffer ≡ true)
            × (begins white_code s.white.buffer ≡ true)
            × (Blocks true gone s.red × Blocks true gone s.white)
            × (s.told ≡ white_story ∷ red_story ∷ [])
      finish p q d f inv = ground arith
