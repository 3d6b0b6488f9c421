-- ===== src/ThreadPool/Api.antt =====
-- What thread_pool_test.c relies on from GThreadPool: each block pushed is given to one thread, once.
use linux_application_layer.Common.{ℕ, suc, ◌+◌, ◌≡◌, Option, none, some, if◌then◌else◌, ◌==◌}

-- One for the same block, zero for another.
abbrev pub same : ℕ → ℕ → ℕ
same x y = if x == y then 1 else 0

-- `waiting p x` is how often the block `x` waits in `p`; `unprocessed` is
-- `g_thread_pool_unprocessed`. `pick` is what a thread of the pool takes next.
pub record PoolApi : Type 1 where
  pub State : Type 0
  pub fresh : State
  pub push : State → ℕ → State
  pub pick : State → Option (ℕ × State)
  pub waiting : State → ℕ → ℕ
  pub unprocessed : State → ℕ
  pub fresh_waiting : (x : ℕ) → waiting fresh x ≡ 0
  pub fresh_unprocessed : unprocessed fresh ≡ 0
  pub push_waiting : (p : State) (y x : ℕ) → waiting (push p y) x ≡ waiting p x + same x y
  pub push_unprocessed : (p : State) (y : ℕ) → unprocessed (push p y) ≡ suc (unprocessed p)
  pub pick_waiting :
      (p q : State) (y x : ℕ) → pick p ≡ some (y, q) → waiting p x ≡ waiting q x + same x y
  pub pick_unprocessed :
      (p q : State) (y : ℕ) → pick p ≡ some (y, q) → unprocessed p ≡ suc (unprocessed q)
  pub pick_none : (p : State) → pick p ≡ none → unprocessed p ≡ 0
  pub none_waiting : (p : State) (x : ℕ) → unprocessed p ≡ 0 → waiting p x ≡ 0
