-- ===== src/ThreadPool/Counts.antt =====
-- How often a block stands in the heap, with a thread, in the hand of `main`, or is still to come.
use linux_application_layer.Common.{
  ℕ, ◌+◌, ◌≤◌, ◌≡◌, ◌≢◌, update, Option, none, some, List, [], ◌∷◌, ◌++◌, arith, if◌then◌else◌, ltb,
  ◌==◌, ◌&&◌,
}
use linux_application_layer.ThreadPool.Api.{same}
use linux_application_layer.ThreadPool.{
  TaskPc, reading, freeing, executing, sleeping, completing, Worker, MainPc, allocating, pushing,
  tasks,
}

module _ {ℓ} {A : Type ℓ} where
  abbrev pub sum : (A → ℕ) → List A → ℕ
  sum f [] = 0
  sum f (x ∷ xs) = f x + sum f xs

  pub sum-append : (f : A → ℕ) (xs ys : List A) → sum f (xs ++ ys) ≡ sum f xs + sum f ys
  sum-append f [] ys = omega arith
  sum-append f (x ∷ xs) ys = omega (arith, sum-append f xs ys)

  pub sum_le : (f g : A → ℕ) (xs : List A) → ((x : A) → f x ≤ g x) → sum f xs ≤ sum g xs
  sum_le f g [] h = omega arith
  sum_le f g (x ∷ xs) h = omega (arith, h x, sum_le f g xs h)

abbrev pub alive : Option ℕ → ℕ
alive none = 0
alive (some v) = 1

-- A thread owns its block up to `free`.
abbrev holds_at : TaskPc → ℕ → ℕ → ℕ
holds_at reading d x = same x d
holds_at (freeing v) d x = same x d
holds_at _ d x = 0

abbrev pub holds : ℕ → Worker → ℕ
holds x w = holds_at w.pc w.data_block x

abbrev pub undone : ℕ → Worker → ℕ
undone x w = same x w.data_block

-- A thread that has read a number has read that of its block.
abbrev wrong_at : TaskPc → ℕ → ℕ
wrong_at reading d = 0
wrong_at (freeing v) d = if v == d then 0 else 1
wrong_at (executing v) d = if v == d then 0 else 1
wrong_at (sleeping v) d = if v == d then 0 else 1
wrong_at (completing v) d = if v == d then 0 else 1

abbrev pub wrong : Worker → ℕ
wrong w = wrong_at w.pc w.data_block

abbrev steps_at : TaskPc → ℕ
steps_at reading = 5
steps_at (freeing v) = 4
steps_at (executing v) = 3
steps_at (sleeping v) = 2
steps_at (completing v) = 1

abbrev pub steps : Worker → ℕ
steps w = steps_at w.pc

-- The block that `main` has made and not pushed.
abbrev pub hand : ℕ → MainPc → ℕ
hand x (pushing i) = same x (i + 1)
hand x _ = 0

abbrev pub after : ℕ → ℕ → ℕ
after i x = if ltb i x && ltb x (tasks + 1) then 1 else 0

-- The blocks that `main` is still to make.
abbrev pub to_come : ℕ → MainPc → ℕ
to_come x (allocating i) = after i x
to_come x (pushing i) = after (i + 1) x
to_come x _ = 0

pub same_self : (x : ℕ) → same x x ≡ 1
same_self x = ground arith

pub same_other : (x y : ℕ) → x ≢ y → same x y ≡ 0
same_other x y n = ground (arith, n)

pub update_self {ℓ} : {A : Type ℓ} (f : ℕ → A) (at : ℕ) (a : A) → update f at a at ≡ a
update_self f at a = ground arith

pub update_other {ℓ} : {A : Type ℓ} (f : ℕ → A) (at x : ℕ) (a : A) → x ≢ at → update f at a x ≡ f x
update_other f at x a n = ground (arith, n)
