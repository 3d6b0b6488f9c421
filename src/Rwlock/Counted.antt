-- ===== src/Rwlock/Counted.antt =====
-- Where the writers take the lock, the shared integer counts their stores.
use linux_application_layer.Common.{
  ℕ, ◌%◌, ◌^◌, ◌<◌, ◌≡◌, refl, true, some, arith, update, total, total-update_at, total-eq_of_all,
  int_suc, get_or, Option-cases,
}
use linux_application_layer.Threads.{Reach, System}
use linux_application_layer.Threads.Invariance.{Reach-holds}
use linux_application_layer.Rwlock.{
  Role, reader, writer, Pc, unborn, done, rd_start, rd_entered, rd_printed, wr_start, wr_asleep,
  wr_entered, wr_stored, wr_printed, wr_loaded, Mem, Config, rdlock, wrlock, run_at, start_of,
  program, initial,
}
use linux_application_layer.Rwlock.Invariant.{Inv, Inv-initial, Inv-born, Inv-step}

-- The stores of a thread of that role, at that program point.
abbrev pub stored : Role → Pc → ℕ
stored writer wr_stored = 1
stored writer wr_printed = 1
stored writer done = 1
stored _ _ = 0

-- Only writers run `lock_writer`.
abbrev pub Suits : Role → Pc → Type 0
Suits reader wr_start = ⊥
Suits reader wr_asleep = ⊥
Suits reader wr_entered = ⊥
Suits reader (wr_loaded _) = ⊥
Suits reader wr_stored = ⊥
Suits reader wr_printed = ⊥
Suits writer rd_start = ⊥
Suits writer rd_entered = ⊥
Suits writer rd_printed = ⊥
Suits _ _ = Unit

pub Suits-update :
    (role : ℕ → Role) (n : ℕ) (pc : ℕ → Pc) (i : ℕ) (p : Pc)
    → Suits (role i) p
    → ((j : ℕ) → j < n → Suits (role j) (pc j))
    → (j : ℕ) → j < n
    → Suits (role j) (update pc i p j)
Suits-update role n pc i p fit h j lt = ground (arith, h j lt)

module _ (c : Config) (n : ℕ) where
  abbrev pub role : ℕ → Role
  role i = get_or c.plan i reader

  pub record Counted (m : Mem) (pc : ℕ → Pc) : Type 0 where
    pub suits : (i : ℕ) → i < n → Suits (role i) (pc i)
    pub count : m.shared_data ≡ total (λ k. k) n (λ j. stored (role j) (pc j)) % 2 ^ 32

  Counted-initial : Counted initial (λ _. unborn)
  Counted-initial = record {
    suits = λ i h. fits (role i);
    count = omega (
      arith,
      total-eq_of_all (λ k. k) 0 n (λ j. stored (role j) unborn) (λ i h. none_yet (role i)),
    );
  }
    where
      fits : (r : Role) → Suits r unborn
      fits reader = tt
      fits writer = tt

      none_yet : (r : Role) → stored r unborn ≡ 0
      none_yet reader = refl
      none_yet writer = refl

  Counted-born :
      (m : Mem) (pc : ℕ → Pc) (i : ℕ) (r : Role)
      → role i ≡ r
      → i < n
      → pc i ≡ unborn
      → Counted m pc
      → Counted m (update pc i (start_of c r))
  Counted-born m pc i reader o lt e k = record {
    suits = λ j h. ground (arith, k.suits j h);
    count = ground (arith, k.count, total-update_at (λ j. stored (role j)) n pc i rd_start lt);
  }
  Counted-born m pc i writer o lt e k = record {
    suits = λ j h. ground (arith, k.suits j h);
    count = ground (arith, k.count, total-update_at (λ j. stored (role j)) n pc i wr_start lt);
  }

  reader-Counted :
      (m m' : Mem) (pc : ℕ → Pc) (i : ℕ) (p p' : Pc)
      → role i ≡ reader
      → i < n
      → pc i ≡ p
      → run_at c m p ≡ some (m', p')
      → ((t : ℕ) → p ≡ wr_loaded t → t ≡ int_suc m.shared_data)
      → Counted m pc
      → Counted m' (update pc i p')
  unfolding run_at
  reader-Counted m m' pc i rd_start p' o lt q e f k = ground (
    arith,
    k.suits,
    k.count,
    total-update_at (λ j. stored (role j)) n pc i p' lt,
    Option-cases (rdlock c.prefer_writer m.rwlock),
  )
  reader-Counted m m' pc i rd_entered p' o lt q e f k =
      ground (arith, k.suits, k.count, total-update_at (λ j. stored (role j)) n pc i p' lt)
  reader-Counted m m' pc i rd_printed p' o lt q e f k =
      ground (arith, k.suits, k.count, total-update_at (λ j. stored (role j)) n pc i p' lt)
  reader-Counted m m' pc i wr_start p' o lt q e f k = absurd (ground (arith, k.suits i lt))
  reader-Counted m m' pc i wr_asleep p' o lt q e f k = absurd (ground (arith, k.suits i lt))
  reader-Counted m m' pc i wr_entered p' o lt q e f k = absurd (ground (arith, k.suits i lt))
  reader-Counted m m' pc i (wr_loaded t) p' o lt q e f k = absurd (ground (arith, k.suits i lt))
  reader-Counted m m' pc i wr_stored p' o lt q e f k = absurd (ground (arith, k.suits i lt))
  reader-Counted m m' pc i wr_printed p' o lt q e f k = absurd (ground (arith, k.suits i lt))
  reader-Counted m m' pc i unborn p' o lt q e f k = ground arith
  reader-Counted m m' pc i done p' o lt q e f k = ground arith

  writer-Counted :
      (m m' : Mem) (pc : ℕ → Pc) (i : ℕ) (p p' : Pc)
      → role i ≡ writer
      → i < n
      → pc i ≡ p
      → run_at c m p ≡ some (m', p')
      → ((t : ℕ) → p ≡ wr_loaded t → t ≡ int_suc m.shared_data)
      → Counted m pc
      → Counted m' (update pc i p')
  unfolding run_at
  writer-Counted m m' pc i rd_start p' o lt q e f k = absurd (ground (arith, k.suits i lt))
  writer-Counted m m' pc i rd_entered p' o lt q e f k = absurd (ground (arith, k.suits i lt))
  writer-Counted m m' pc i rd_printed p' o lt q e f k = absurd (ground (arith, k.suits i lt))
  writer-Counted m m' pc i wr_start p' o lt q e f k = ground (
    arith,
    k.suits,
    k.count,
    total-update_at (λ j. stored (role j)) n pc i p' lt,
    Option-cases (wrlock m.rwlock),
  )
  writer-Counted m m' pc i wr_asleep p' o lt q e f k = ground (
    arith,
    k.suits,
    k.count,
    total-update_at (λ j. stored (role j)) n pc i p' lt,
    Option-cases (wrlock m.rwlock),
  )
  writer-Counted m m' pc i wr_entered p' o lt q e f k =
      ground (arith, k.suits, k.count, total-update_at (λ j. stored (role j)) n pc i p' lt)
  writer-Counted m m' pc i (wr_loaded t) p' o lt q e f k =
      ground
        (arith, k.suits, k.count, total-update_at (λ j. stored (role j)) n pc i p' lt, f t refl)
  writer-Counted m m' pc i wr_stored p' o lt q e f k =
      ground (arith, k.suits, k.count, total-update_at (λ j. stored (role j)) n pc i p' lt)
  writer-Counted m m' pc i wr_printed p' o lt q e f k =
      ground (arith, k.suits, k.count, total-update_at (λ j. stored (role j)) n pc i p' lt)
  writer-Counted m m' pc i unborn p' o lt q e f k = ground arith
  writer-Counted m m' pc i done p' o lt q e f k = ground arith

  Counted-step :
      (m m' : Mem) (pc : ℕ → Pc) (i : ℕ) (p' : Pc) (r : Role)
      → role i ≡ r
      → i < n
      → run_at c m (pc i) ≡ some (m', p')
      → ((t : ℕ) → pc i ≡ wr_loaded t → t ≡ int_suc m.shared_data)
      → Counted m pc
      → Counted m' (update pc i p')
  Counted-step m m' pc i p' reader o lt e f k = reader-Counted m m' pc i (pc i) p' o lt refl e f k
  Counted-step m m' pc i p' writer o lt e f k = writer-Counted m m' pc i (pc i) p' o lt refl e f k

  -- The integer counts the stores, where the writers take the lock.
  pub Reach-Counted :
      (locks : c.writers_lock ≡ true) {k : ℕ} {s : System Mem Pc}
      → Reach (program c) n initial k s
      → Inv c locks n s.mem s.pc × Counted s.mem s.pc
  Reach-Counted locks =
      Reach-holds (program c) n (λ m pc. Inv c locks n m pc × Counted m pc)
        (λ m pc i lt e h.
          (Inv-born c locks n m pc i (role i) lt e h.0, Counted-born m pc i (role i) refl lt e h.1))
        (λ m m' pc i p lt e h. (
          Inv-step c locks n m m' pc i p lt e h.0,
          Counted-step m m' pc i p (role i) refl lt e (λ t q. h.0.fresh i t lt q) h.1,
        ))
        (Inv-initial c locks n, Counted-initial)
