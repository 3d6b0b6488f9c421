-- ===== src/Setup/Monad.antt =====
-- Calls that change what the system has under its names and what the process holds, and that can end
-- the process.
use linux_application_layer.Common.{ℕ, List}
use linux_application_layer.Pair.Resources.{Resource}

pub record World : Type 0 where
  pub names : List Resource
  pub held : List Resource

-- An access to memory that is not there, a wait that nothing ends, or a return from `main`.
pub data Stop : Type 0 where
  crashed hangs : Stop
  returned : (status : ℕ) → Stop

pub data Result (A : Type 0) : Type 0 where
  ok : A → Result A
  err : Stop → Result A

abbrev pub Action : Type 0 → Type 0
Action A = World → Result A × World

abbrev pub pure : {A : Type 0} → A → Action A
pure a w = (ok a, w)

infixl 5 ◌>>=◌ ◌>>◌
abbrev pub ◌>>=◌ : {A B : Type 0} → Action A → (A → Action B) → Action B
◌>>=◌ m f w = let (r, w') = m w in elim r [ ok a ↦ f a w' | err e ↦ (err e, w') ]

abbrev pub ◌>>◌ : {B : Type 0} → Action (Unit {0}) → Action B → Action B
m >> k = m >>= λ _. k
