-- ===== src/Rwlock/Invariant.antt =====
-- What holds in every state of a program whose writers take the lock.
use linux_application_layer.Common.{
  ℕ, ◌+◌, ◌≤◌, ◌<◌, ◌≡◌, refl, true, some, inl, inr, List, [], ◌∷◌, arith, update, total,
  total-update, total-eq_of_all, pair-le-total, le-total, int_suc, Option-cases,
}
use linux_application_layer.Rwlock.Lock.{rdlock_takes, wrlock_takes, unlock_lem}
use linux_application_layer.Rwlock.{
  Role, Pc, unborn, done, rd_start, rd_entered, rd_printed, wr_start, wr_asleep, wr_entered,
  wr_stored, wr_printed, wr_loaded, Line, value_is, incremented, Mem, Config, rdlock, wrlock,
  run_at, start_of, initial,
}

abbrev pub reads : Pc → ℕ
reads rd_entered = 1
reads rd_printed = 1
reads _ = 0

abbrev pub writes : Pc → ℕ
writes wr_entered = 1
writes (wr_loaded _) = 1
writes wr_stored = 1
writes wr_printed = 1
writes _ = 0

abbrev pub sleeps : Pc → ℕ
sleeps wr_asleep = 1
sleeps _ = 0

-- A writer that has stored and not yet printed.
abbrev pub unprinted : Pc → ℕ
unprinted wr_stored = 1
unprinted _ = 0

-- A writer whose stores are all printed.
abbrev pub quiet : Pc → ℕ
quiet wr_entered = 1
quiet (wr_loaded _) = 1
quiet wr_printed = 1
quiet _ = 0

-- The increments printed so far, as a 32-bit integer.
abbrev pub increments : List Line → ℕ
increments [] = 0
increments (value_is v ∷ out) = increments out
increments (incremented ∷ out) = int_suc (increments out)

-- Each printed value is the number of the increments printed before it.
abbrev pub Consistent : List Line → Type 0
Consistent [] = Unit
Consistent (value_is v ∷ out) = (v ≡ increments out) × Consistent out
Consistent (incremented ∷ out) = Consistent out

-- What a step of the thread `i` to `p` does to the sums over the threads.
pub record Moved (n : ℕ) (pc : ℕ → Pc) (i : ℕ) (p : Pc) : Type 0 where
  pub reads_move : total reads n (update pc i p) + reads (pc i) ≡ total reads n pc + reads p
  pub writes_move : total writes n (update pc i p) + writes (pc i) ≡ total writes n pc + writes p
  pub sleeps_move : total sleeps n (update pc i p) + sleeps (pc i) ≡ total sleeps n pc + sleeps p
  pub prints_move :
      total unprinted n (update pc i p) + unprinted (pc i) ≡ total unprinted n pc + unprinted p
  pub quiet_move : total quiet n (update pc i p) + quiet (pc i) ≡ total quiet n pc + quiet p

moved : (n : ℕ) (pc : ℕ → Pc) (i : ℕ) (p : Pc) → i < n → Moved n pc i p
moved n pc i p lt = record {
  reads_move = total-update reads n pc i p lt;
  writes_move = total-update writes n pc i p lt;
  sleeps_move = total-update sleeps n pc i p lt;
  prints_move = total-update unprinted n pc i p lt;
  quiet_move = total-update quiet n pc i p lt;
}

module _ (c : Config) (locks : c.writers_lock ≡ true) (n : ℕ) where
  pub record Inv (m : Mem) (pc : ℕ → Pc) : Type 0 where
    pub reading : m.rwlock.readers ≡ total reads n pc
    pub writing : m.rwlock.writing ≡ total writes n pc
    pub asleep : m.rwlock.asleep ≡ total sleeps n pc
    pub one : m.rwlock.writing ≤ 1
    pub apart : m.rwlock.writing ≡ 1 → m.rwlock.readers ≡ 0
    pub fresh : (i t : ℕ) → i < n → pc i ≡ wr_loaded t → t ≡ int_suc m.shared_data
    pub level : total unprinted n pc ≡ 0 → m.shared_data ≡ increments m.output
    pub ahead : total unprinted n pc ≡ 1 → m.shared_data ≡ int_suc (increments m.output)
    pub split : total unprinted n pc + total quiet n pc ≡ m.rwlock.writing
    pub log : Consistent m.output

  pub Inv-initial : Inv initial (λ _. unborn)
  Inv-initial = record {
    reading = omega (arith, total-eq_of_all reads 0 n (λ _. unborn) (λ i h. refl));
    writing = omega (arith, total-eq_of_all writes 0 n (λ _. unborn) (λ i h. refl));
    asleep = omega (arith, total-eq_of_all sleeps 0 n (λ _. unborn) (λ i h. refl));
    one = omega arith;
    apart = λ h. refl;
    fresh = λ i t h e. ground arith;
    level = λ h. refl;
    ahead = λ h. absurd (omega (arith, total-eq_of_all unprinted 0 n (λ _. unborn) (λ i h. refl)));
    split = omega (
      arith,
      total-eq_of_all unprinted 0 n (λ _. unborn) (λ i h. refl),
      total-eq_of_all quiet 0 n (λ _. unborn) (λ i h. refl),
    );
    log = tt;
  }

  pub Inv-born :
      (m : Mem) (pc : ℕ → Pc) (i : ℕ) (r : Role)
      → i < n
      → pc i ≡ unborn
      → Inv m pc
      → Inv m (update pc i (start_of c r))
  Inv-born m pc i r lt e inv =
      let u = moved n pc i (start_of c r) lt in ground (arith, λ (j : ℕ) (t : ℕ). inv.fresh j t)

  thread-Inv :
      (m m' : Mem) (pc : ℕ → Pc) (i : ℕ) (p p' : Pc)
      → i < n
      → pc i ≡ p
      → Moved n pc i p'
      → run_at c m p ≡ some (m', p')
      → Inv m pc
      → Inv m' (update pc i p')
  unfolding run_at
  thread-Inv m m' pc i rd_start p' lt q u e inv =
      elim (Option-cases (rdlock c.prefer_writer m.rwlock)) [
        | inl blocked ↦ ground arith
        | inr (l, got) ↦ ground (arith, rdlock_takes c.prefer_writer m.rwlock l got)
      ]
  thread-Inv m m' pc i rd_entered p' lt q u e inv = ground (arith, le-total reads n pc i lt)
  thread-Inv m m' pc i rd_printed p' lt q u e inv =
      ground (arith, unlock_lem m.rwlock, le-total reads n pc i lt)
  thread-Inv m m' pc i wr_start p' lt q u e inv = elim (Option-cases (wrlock m.rwlock)) [
    | inl blocked ↦ ground (arith, locks)
    | inr (l, got) ↦ ground (arith, locks, wrlock_takes m.rwlock l got)
  ]
  thread-Inv m m' pc i wr_asleep p' lt q u e inv = elim (Option-cases (wrlock m.rwlock)) [
    | inl blocked ↦ ground arith
    | inr (l, got) ↦ ground (arith, wrlock_takes m.rwlock l got)
  ]
  thread-Inv m m' pc i wr_entered p' lt q u e inv = ground arith
  thread-Inv m m' pc i (wr_loaded tmp) p' lt q u e inv = ground (
    arith,
    inv.fresh i tmp lt q,
    le-total quiet n pc i lt,
    λ (j : ℕ) (h : j < n). pair-le-total writes n pc i j lt h,
  )
  thread-Inv m m' pc i wr_stored p' lt q u e inv = ground (arith, le-total unprinted n pc i lt)
  thread-Inv m m' pc i wr_printed p' lt q u e inv =
      ground (arith, locks, unlock_lem m.rwlock, le-total writes n pc i lt)
  thread-Inv m m' pc i unborn p' lt q u e inv = ground arith
  thread-Inv m m' pc i done p' lt q u e inv = ground arith

  pub Inv-step :
      (m m' : Mem) (pc : ℕ → Pc) (i : ℕ) (p' : Pc)
      → i < n
      → run_at c m (pc i) ≡ some (m', p')
      → Inv m pc
      → Inv m' (update pc i p')
  Inv-step m m' pc i p' lt e inv = thread-Inv m m' pc i (pc i) p' lt refl (moved n pc i p' lt) e inv
