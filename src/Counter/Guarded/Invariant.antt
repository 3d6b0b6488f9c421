-- ===== src/Counter/Guarded/Invariant.antt =====
-- The lock is free or one thread is inside; the number counts the writes; what a thread has read is
-- not stale.
use linux_application_layer.Common.{
  ℕ, ◌+◌, ◌%◌, ◌^◌, ◌<◌, ◌≡◌, refl, some, inl, inr, arith, update, total, total-update,
  total-eq_of_all, pair-le-total, int_suc, Option-cases,
}
use linux_application_layer.Threads.{Reach, System}
use linux_application_layer.Threads.Invariance.{Reach-holds}
use linux_application_layer.Counter.Lock.{Lock}
use linux_application_layer.Counter.Guarded.{
  Pc, unborn, start, entered, loaded, stored, done, Mem, add_one, program, initial,
}

abbrev pub holds : Pc → ℕ
holds entered = 1
holds (loaded _) = 1
holds stored = 1
holds _ = 0

abbrev pub added : Pc → ℕ
added stored = 1
added done = 1
added _ = 0

module _ (L : Lock) (n : ℕ) where
  open L use {State, free, acquire, release, acquire_takes, acquire_blocks, release_gives}

  pub record Inv (m : Mem State) (pc : ℕ → Pc) : Type 0 where
    pub permits : free m.lock + total holds n pc ≡ 1
    pub counted : m.num ≡ total added n pc % 2 ^ 32
    pub fresh : (i t : ℕ) → i < n → pc i ≡ loaded t → t ≡ int_suc m.num

  Inv-initial : Inv (initial L) (λ _. unborn)
  Inv-initial = record {
    permits = omega (arith, L.free-unlocked, total-eq_of_all holds 0 n (λ _. unborn) (λ i h. refl));
    counted = omega (arith, total-eq_of_all added 0 n (λ _. unborn) (λ i h. refl));
    fresh = λ i t h e. ground arith;
  }

  Inv-create :
      (m : Mem State) (pc : ℕ → Pc) (i : ℕ)
      → i < n
      → pc i ≡ unborn
      → Inv m pc
      → Inv m (update pc i start)
  Inv-create m pc i lt e inv = record {
    permits = ground (arith, inv.permits, total-update holds n pc i start lt);
    counted = ground (arith, inv.counted, total-update added n pc i start lt);
    fresh = λ j t h q. ground (arith, inv.fresh j t h);
  }

  Inv-step :
      (m m' : Mem State) (pc : ℕ → Pc) (i : ℕ) (p p' : Pc)
      → i < n
      → pc i ≡ p
      → add_one L m p ≡ some (m', p')
      → Inv m pc
      → Inv m' (update pc i p')
  unfolding add_one
  Inv-step m m' pc i start p' lt q e inv = elim (Option-cases (acquire m.lock)) [
    | inl blocked ↦ ground arith
    | inr (l, got) ↦ record {
      permits =
          ground (arith, inv.permits, total-update holds n pc i p' lt, acquire_takes m.lock l got);
      counted = ground (arith, inv.counted, total-update added n pc i p' lt);
      fresh = λ j t h r. ground (arith, inv.fresh j t h);
    }
  ]
  Inv-step m m' pc i entered p' lt q e inv = record {
    permits = ground (arith, inv.permits, total-update holds n pc i p' lt);
    counted = ground (arith, inv.counted, total-update added n pc i p' lt);
    fresh = λ j t h r. ground (arith, inv.fresh j t h);
  }
  Inv-step m m' pc i (loaded tmp) p' lt q e inv = record {
    permits = ground (arith, inv.permits, total-update holds n pc i p' lt);
    counted = ground (arith, inv.counted, inv.fresh i tmp lt q, total-update added n pc i p' lt);
    fresh = λ j t h r. ground (arith, inv.permits, pair-le-total holds n pc i j lt h);
  }
  Inv-step m m' pc i stored p' lt q e inv = record {
    permits = ground (arith, inv.permits, total-update holds n pc i p' lt, release_gives m.lock);
    counted = ground (arith, inv.counted, total-update added n pc i p' lt);
    fresh = λ j t h r. ground (arith, inv.fresh j t h);
  }
  Inv-step m m' pc i unborn p' lt q e inv = ground arith
  Inv-step m m' pc i done p' lt q e inv = ground arith

  pub Reach-Inv :
      {k : ℕ} {s : System (Mem State) Pc} → Reach (program L) n (initial L) k s → Inv s.mem s.pc
  Reach-Inv =
      Reach-holds (program L) n Inv Inv-create
        (λ m m' pc i p lt e inv. Inv-step m m' pc i (pc i) p lt refl e inv) Inv-initial
