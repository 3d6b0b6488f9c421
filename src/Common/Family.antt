-- ===== src/Common/Family.antt =====
-- What every thread has, as a function from thread numbers: changing one thread, and adding up a
-- weight over the threads below a number.
use Prim.Native.Nat.{ℕ, zero, suc, ◌+◌, ◌*◌, ◌≤◌, ◌<◌}
use mathlib.Core.Path.{◌≡◌, refl, ap}
use mathlib.Core.Logic.{◌≢◌, ite}
use native.Mathlib.Decide.{dec_lt, ℕ_discrete}
use native.Mathlib.Omega.{arith}

abbrev pub update {ℓ} : {A : Type ℓ} → (ℕ → A) → ℕ → A → ℕ → A
update pc at x t = ite (ℕ_discrete at t) x (pc t)

module _ {ℓ} {A : Type ℓ} (w : A → ℕ) where
  unfoldable pub total : ℕ → (ℕ → A) → ℕ
  total zero pc = 0
  total (suc top) pc = w (pc top) + total top pc

  -- A change at `at` replaces its weight, if `at` is counted at all.
  total-update_cases :
      (top : ℕ) (pc : ℕ → A) (at : ℕ) (x : A)
      → (top ≤ at → total top (update pc at x) ≡ total top pc)
        × (at < top → total top (update pc at x) + w (pc at) ≡ total top pc + w x)
  unfolding total
  total-update_cases zero pc at x = (λ _. refl, λ h. absurd (omega arith))
  total-update_cases (suc top) pc at x =
      let (outside, inside) = total-update_cases top pc at x in
      (
        λ h. ground (arith, outside (omega arith)),
        λ h. elim (dec_lt at top) [
          | no last ↦ ground (arith, outside (omega arith))
          | yes below ↦ ground (arith, inside below)
        ],
      )

  pub total-update :
      (top : ℕ) (pc : ℕ → A) (at : ℕ) (x : A)
      → at < top
      → total top (update pc at x) + w (pc at) ≡ total top pc + w x
  total-update top pc at x = (total-update_cases top pc at x).1

  pub total-eq_of_all : (k n : ℕ) (f : ℕ → A) → ((i : ℕ) → i < n → w (f i) ≡ k) → total n f ≡ n * k
  unfolding total
  total-eq_of_all k zero f h = omega arith
  total-eq_of_all k (suc n) f h =
      omega (arith, total-eq_of_all k n f (λ i p. h i (omega arith)), h n (omega arith))

  pub total-le_of_all : (k n : ℕ) (f : ℕ → A) → ((i : ℕ) → i < n → w (f i) ≤ k) → total n f ≤ n * k
  unfolding total
  total-le_of_all k zero f h = omega arith
  total-le_of_all k (suc n) f h =
      omega (arith, total-le_of_all k n f (λ i p. h i (omega arith)), h n (omega arith))

  pub le-total : (n : ℕ) (f : ℕ → A) (i : ℕ) → i < n → w (f i) ≤ total n f
  unfolding total
  le-total zero f i h = absurd (omega arith)
  le-total (suc n) f i h = elim (dec_lt i n) [
    | yes below ↦ omega (arith, le-total n f i below)
    | no last ↦ ground arith
  ]

  -- Two different members together weigh no more than all.
  pub pair-le-total :
      (n : ℕ) (f : ℕ → A) (i j : ℕ) → i < n → j < n → i ≢ j → w (f i) + w (f j) ≤ total n f
  unfolding total
  pair-le-total zero f i j hi hj ne = absurd (omega arith)
  pair-le-total (suc n) f i j hi hj ne =
      ground (arith, pair-le-total n f i j, le-total n f i, le-total n f j)

  -- A positive sum has a positive member.
  pub member_of_total : (n : ℕ) (f : ℕ → A) → 0 < total n f → (i : ℕ) × (i < n) × (0 < w (f i))
  unfolding total
  member_of_total zero f h = absurd (omega arith)
  member_of_total (suc n) f h = elim (dec_lt 0 (w (f n))) [
    | yes p ↦ (n, omega arith, p)
    | no p ↦ let (i, lt, q) = member_of_total n f (omega arith) in (i, omega arith, q)
  ]

total-ext :
    (n : ℕ) (f g : ℕ → ℕ) → ((i : ℕ) → i < n → f i ≡ g i) → total (λ k. k) n f ≡ total (λ k. k) n g
unfolding total
total-ext zero f g h = refl
total-ext (suc n) f g h =
    omega (arith, total-ext n f g (λ i p. h i (omega arith)), h n (omega arith))

module _ {ℓ} {A : Type ℓ} where
  -- `total-update` for a weight that depends on the number of the thread too.
  pub total-update_at :
      (w : ℕ → A → ℕ) (n : ℕ) (pc : ℕ → A) (at : ℕ) (x : A)
      → at < n
      → total (λ k. k) n (λ j. w j (update pc at x j)) + w at (pc at)
        ≡ total (λ k. k) n (λ j. w j (pc j)) + w at x
  total-update_at w n pc at x lt =
      let same =
        total-ext n (λ j. w j (update pc at x j)) (update (λ j. w j (pc j)) at (w at x))
          (λ j h. ground arith) in
      omega (arith, same, total-update (λ k. k) n (λ j. w j (pc j)) at (w at x) lt)

  pub total-congr :
      (w : ℕ → A → ℕ) (n : ℕ) (f g : ℕ → A)
      → ((i : ℕ) → i < n → f i ≡ g i)
      → total (λ k. k) n (λ j. w j (f j)) ≡ total (λ k. k) n (λ j. w j (g j))
  total-congr w n f g h = total-ext n (λ j. w j (f j)) (λ j. w j (g j)) (λ i p. ap (w i) (h i p))
