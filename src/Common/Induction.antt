-- ===== src/Common/Induction.antt =====
-- Counting up from one number to another.
use Prim.Native.Nat.{ℕ, zero, suc, ◌+◌, ◌-◌, ◌≤◌, ◌<◌}
use mathlib.Core.Path.{◌≡◌, subst}
use native.Mathlib.Omega.{arith}

module _ {ℓ} (P : ℕ → Type ℓ) (top : ℕ) (up : (j : ℕ) → j < top → P j → P (j + 1)) where
  climb_by : (d a : ℕ) → a + d ≡ top → P a → P top
  climb_by zero a e h = subst P (omega arith) h
  climb_by (suc d) a e h = climb_by d (a + 1) (omega arith) (up a (omega arith) h)

  -- What goes up by one below `top` holds at `top`.
  pub climb : (a : ℕ) → a ≤ top → P a → P top
  climb a le h = climb_by (top - a) a (omega arith) h
