-- ===== src/Counter/Racy/Bounds.antt =====
-- Without a lock additions are lost, but never all of them, and none is made twice.
use linux_application_layer.Common.{
  ℕ, ◌+◌, ◌^◌, ◌≤◌, ◌<◌, ◌≡◌, refl, some, arith, update, total, total-update, total-eq_of_all,
  total-le_of_all,
}
use linux_application_layer.Threads.{Reach, System, finished}
use linux_application_layer.Threads.Joined.{Reach-Joined}
use linux_application_layer.Threads.Invariance.{Reach-holds}
use linux_application_layer.Counter.Racy.{Pc, unborn, start, loaded, done, add_one, program}

abbrev pub added : Pc → ℕ
added done = 1
added _ = 0

module _ (n : ℕ) (few : n < 2 ^ 32) where
  pub record Inv (num : ℕ) (pc : ℕ → Pc) : Type 0 where
    pub room : total added n pc ≤ n
    pub at_most : num ≤ total added n pc
    pub at_least : 0 < total added n pc → 1 ≤ num
    pub pending : (i t : ℕ) → i < n → pc i ≡ loaded t → (1 ≤ t) × (t ≤ total added n pc + 1)

  Inv-initial : Inv 0 (λ _. unborn)
  Inv-initial = record {
    room = omega (arith, total-eq_of_all added 0 n (λ _. unborn) (λ i h. refl));
    at_most = omega arith;
    at_least = λ h. absurd (omega (arith, total-eq_of_all added 0 n (λ _. unborn) (λ i h. refl)));
    pending = λ i t h e. ground arith;
  }

  total-added-le : (pc : ℕ → Pc) → total added n pc ≤ n
  total-added-le pc = omega (arith, total-le_of_all added 1 n pc (λ i h. one (pc i)))
    where
      one : (p : Pc) → added p ≤ 1
      one done = omega arith
      one unborn = omega arith
      one start = omega arith
      one (loaded t) = omega arith

  Inv-create :
      (m : ℕ) (pc : ℕ → Pc) (i : ℕ) → i < n → pc i ≡ unborn → Inv m pc → Inv m (update pc i start)
  Inv-create m pc i lt e inv = record {
    room = total-added-le (update pc i start);
    at_most = ground (arith, inv.at_most, total-update added n pc i start lt);
    at_least = λ h. ground (arith, inv.at_least, total-update added n pc i start lt);
    pending = λ j t h q. ground (arith, inv.pending j t h, total-update added n pc i start lt);
  }

  Inv-step :
      (m m' : ℕ) (pc : ℕ → Pc) (i : ℕ) (p p' : Pc)
      → i < n
      → pc i ≡ p
      → add_one m p ≡ some (m', p')
      → Inv m pc
      → Inv m' (update pc i p')
  unfolding add_one
  Inv-step m m' pc i start p' lt q e inv = record {
    room = total-added-le (update pc i p');
    at_most = ground (arith, inv.at_most, total-update added n pc i p' lt);
    at_least = λ h. ground (arith, inv.at_least, total-update added n pc i p' lt);
    pending = λ j t h r. ground (
      arith,
      inv.at_most,
      inv.pending j t h,
      total-update added n pc i p' lt,
      total-update added n pc i done lt,
      total-added-le (update pc i done),
    );
  }
  Inv-step m m' pc i (loaded tmp) p' lt q e inv = record {
    room = total-added-le (update pc i p');
    at_most = ground (arith, inv.pending i tmp lt q, total-update added n pc i p' lt);
    at_least = λ h. ground (arith, inv.pending i tmp lt q);
    pending = λ j t h r. ground (arith, inv.pending j t h, total-update added n pc i p' lt);
  }
  Inv-step m m' pc i unborn p' lt q e inv = ground arith
  Inv-step m m' pc i done p' lt q e inv = ground arith

  Reach-Inv : {k : ℕ} {s : System ℕ Pc} → Reach program n 0 k s → Inv s.mem s.pc
  Reach-Inv =
      Reach-holds program n Inv Inv-create
        (λ m m' pc i p lt e inv. Inv-step m m' pc i (pc i) p lt refl e inv) Inv-initial

  -- Without a lock `main` prints at least 1 and at most the number of threads.
  pub prints_between :
      {k : ℕ} {s : System ℕ Pc} (v : ℕ)
      → 0 < n
      → Reach program n 0 k s
      → s.main ≡ finished v
      → (1 ≤ v) × (v ≤ n)
  prints_between {s = s} v pos r e = omega (
    arith,
    (Reach-Joined program n r).printed v e,
    (Reach-Inv r).at_least,
    (Reach-Inv r).at_most,
    total-eq_of_all added 1 n s.pc
        (λ i h. ground (arith, (Reach-Joined program n r).all_done i v e h)),
  )
