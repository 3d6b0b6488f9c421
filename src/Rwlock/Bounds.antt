-- ===== src/Rwlock/Bounds.antt =====
-- thread_test/rwlock_test_writer_unlock.c, whose writers do not take the lock: what bounds the
-- shared integer.
use linux_application_layer.Common.{
  ℕ, ◌+◌, ◌*◌, ◌≤◌, ◌<◌, ◌≡◌, refl, false, some, inl, inr, arith, subst, update, total,
  total-update_at, total-eq_of_all, total-le_of_all, int_suc, Option-cases,
}
use linux_application_layer.Threads.{System}
use linux_application_layer.Threads.Invariance.{Reach-holds}
use linux_application_layer.Rwlock.{
  Role, reader, writer, Pc, unborn, done, rd_start, rd_entered, rd_printed, wr_start, wr_asleep,
  wr_entered, wr_stored, wr_printed, wr_loaded, Mem, Config, rdlock, wrlock, run_at, start_of,
  program, initial, thread_count, Runs, rwlock_test_writer_unlock,
}
use linux_application_layer.Rwlock.Counted.{role, stored, Suits, Suits-update}

abbrev pub c : Config
c = rwlock_test_writer_unlock

abbrev pub n : ℕ
n = thread_count

-- The stores made so far.
abbrev pub stores : (ℕ → Pc) → ℕ
stores pc = total (λ k. k) n (λ j. stored (role c n j) (pc j))

pub record Inv (m : Mem) (pc : ℕ → Pc) : Type 0 where
  pub suits : (i : ℕ) → i < n → Suits (role c n i) (pc i)
  pub room : stores pc ≤ n
  pub at_most : m.shared_data ≤ stores pc
  pub at_least : 0 < stores pc → 1 ≤ m.shared_data
  pub pending : (i t : ℕ) → i < n → pc i ≡ wr_loaded t → (1 ≤ t) × (t ≤ stores pc + 1)

stored_le : (r : Role) (p : Pc) → stored r p ≤ 1
stored_le r p = ground arith

roomy : (pc : ℕ → Pc) → stores pc ≤ n
roomy pc = omega (
  arith,
  total-le_of_all (λ k. k) 1 n (λ j. stored (role c n j) (pc j))
      (λ i h. stored_le (role c n i) (pc i)),
)

Inv-initial : Inv initial (λ _. unborn)
Inv-initial = record {
  suits = λ i h. fits (role c n i);
  room = roomy (λ _. unborn);
  at_most = omega arith;
  at_least = λ h. absurd (omega (arith, nothing));
  pending = λ i t h e. ground arith;
}
  where
    fits : (r : Role) → Suits r unborn
    fits reader = tt
    fits writer = tt

    none_yet : (r : Role) → stored r unborn ≡ 0
    none_yet reader = refl
    none_yet writer = refl

    nothing : stores (λ _. unborn) ≡ n * 0
    nothing =
        total-eq_of_all (λ k. k) 0 n (λ j. stored (role c n j) unborn)
          (λ i h. none_yet (role c n i))

module _ (m m' : Mem) (pc : ℕ → Pc) (i : ℕ) (lt : i < n) where
  -- A step of a thread that stores nothing keeps the bounds.
  quiet-Inv :
      (p' : Pc)
      → Suits (role c n i) p'
      → m'.shared_data ≡ m.shared_data
      → stored (role c n i) p' ≡ stored (role c n i) (pc i)
      → ((t : ℕ) → p' ≡ wr_loaded t → t ≡ int_suc m.shared_data)
      → Inv m pc
      → Inv m' (update pc i p')
  quiet-Inv p' fit same stay fresh inv =
      let eq = total-update_at (λ j. stored (role c n j)) n pc i p' lt in
      record {
        suits = Suits-update (role c n) n pc i p' fit inv.suits;
        room = roomy (update pc i p');
        at_most = ground (arith, inv.at_most);
        at_least = λ h. ground (arith, inv.at_least);
        pending = λ j t h q. ground (arith, inv.pending j t h, inv.at_most, inv.room, fresh t);
      }

  stored-Inv :
      (tmp : ℕ)
      → pc i ≡ wr_loaded tmp
      → role c n i ≡ writer
      → m'.shared_data ≡ tmp
      → Inv m pc
      → Inv m' (update pc i wr_stored)
  stored-Inv tmp e w now inv =
      let eq = total-update_at (λ j. stored (role c n j)) n pc i wr_stored lt in
      record {
        suits = Suits-update (role c n) n pc i wr_stored (ground (arith, w)) inv.suits;
        room = roomy (update pc i wr_stored);
        at_most = ground (arith, inv.pending i tmp lt e);
        at_least = λ h. ground (arith, inv.pending i tmp lt e);
        pending = λ j t h q. ground (arith, inv.pending j t h);
      }

  reader-Inv :
      (p p' : Pc)
      → role c n i ≡ reader
      → pc i ≡ p
      → run_at c m p ≡ some (m', p')
      → Inv m pc
      → Inv m' (update pc i p')
  unfolding run_at
  reader-Inv rd_start p' o q e inv = elim (Option-cases (rdlock false m.rwlock)) [
    | inl blocked ↦ ground arith
    | inr (l, got) ↦
        quiet-Inv p' (ground arith) (ground arith) (ground arith) (λ t z. ground arith) inv
  ]
  reader-Inv rd_entered p' o q e inv =
      quiet-Inv p' (ground arith) (ground arith) (ground arith) (λ t z. ground arith) inv
  reader-Inv rd_printed p' o q e inv =
      quiet-Inv p' (ground arith) (ground arith) (ground arith) (λ t z. ground arith) inv
  reader-Inv wr_start p' o q e inv = absurd (ground (arith, inv.suits i lt))
  reader-Inv wr_asleep p' o q e inv = absurd (ground (arith, inv.suits i lt))
  reader-Inv wr_entered p' o q e inv = absurd (ground (arith, inv.suits i lt))
  reader-Inv (wr_loaded t) p' o q e inv = absurd (ground (arith, inv.suits i lt))
  reader-Inv wr_stored p' o q e inv = absurd (ground (arith, inv.suits i lt))
  reader-Inv wr_printed p' o q e inv = absurd (ground (arith, inv.suits i lt))
  reader-Inv unborn p' o q e inv = ground arith
  reader-Inv done p' o q e inv = ground arith

  writer-Inv :
      (p p' : Pc)
      → role c n i ≡ writer
      → pc i ≡ p
      → run_at c m p ≡ some (m', p')
      → Inv m pc
      → Inv m' (update pc i p')
  unfolding run_at
  writer-Inv rd_start p' o q e inv = absurd (ground (arith, inv.suits i lt))
  writer-Inv rd_entered p' o q e inv = absurd (ground (arith, inv.suits i lt))
  writer-Inv rd_printed p' o q e inv = absurd (ground (arith, inv.suits i lt))
  writer-Inv wr_asleep p' o q e inv = elim (Option-cases (wrlock m.rwlock)) [
    | inl blocked ↦ ground arith
    | inr (l, got) ↦
        quiet-Inv p' (ground arith) (ground arith) (ground arith) (λ t z. ground arith) inv
  ]
  writer-Inv wr_start p' o q e inv =
      quiet-Inv p' (ground arith) (ground arith) (ground arith) (λ t z. ground arith) inv
  writer-Inv wr_entered p' o q e inv =
      quiet-Inv p' (ground arith) (ground arith) (ground arith) (λ t z. ground arith) inv
  writer-Inv wr_stored p' o q e inv =
      quiet-Inv p' (ground arith) (ground arith) (ground arith) (λ t z. ground arith) inv
  writer-Inv wr_printed p' o q e inv =
      quiet-Inv p' (ground arith) (ground arith) (ground arith) (λ t z. ground arith) inv
  writer-Inv (wr_loaded tmp) p' o q e inv =
      subst (λ x. Inv m' (update pc i x)) (ground arith) (stored-Inv tmp q o (ground arith) inv)
  writer-Inv unborn p' o q e inv = ground arith
  writer-Inv done p' o q e inv = ground arith

  step-Inv :
      (r : Role) (p' : Pc)
      → role c n i ≡ r
      → run_at c m (pc i) ≡ some (m', p')
      → Inv m pc
      → Inv m' (update pc i p')
  step-Inv reader p' o e inv = reader-Inv (pc i) p' o refl e inv
  step-Inv writer p' o e inv = writer-Inv (pc i) p' o refl e inv

born-Inv :
    (m : Mem) (pc : ℕ → Pc) (i : ℕ) (r : Role)
    → i < n
    → pc i ≡ unborn
    → role c n i ≡ r
    → Inv m pc
    → Inv m (update pc i (start_of c r))
born-Inv m pc i reader lt e o inv =
    quiet-Inv m m pc i lt rd_start (ground arith) refl (ground arith) (λ t z. ground arith) inv
born-Inv m pc i writer lt e o inv =
    quiet-Inv m m pc i lt wr_start (ground arith) refl (ground arith) (λ t z. ground arith) inv

pub Reach-Inv : {k : ℕ} {s : System Mem Pc} → Runs c k s → Inv s.mem s.pc
Reach-Inv =
    Reach-holds (program c) n Inv (λ m pc i lt e inv. born-Inv m pc i (role c n i) lt e refl inv)
      (λ m m' pc i p lt e inv. step-Inv m m' pc i lt (role c n i) p refl e inv) Inv-initial
