-- ===== src/Pair/Sleep.antt =====
-- What becomes of unnamed_sem_bin_process_illegal.c, whether a post wakes the other process or not.
use linux_application_layer.Common.{
  ℕ, suc, ◌+◌, ◌≤◌, ◌≡◌, refl, inl, inr, Bool, true, false, some, [], ◌∷◌, arith, Bool-cases,
}
use linux_application_layer.Counter.Lock.{sem_wait, sem_post}
use linux_application_layer.Pair.{
  shared, Pc, acquiring, reading, releasing, printing, writing, closing, cleaning, Pair, father_at,
  son_at, by_father, by_son, Reach, start, next,
}
use linux_application_layer.Pair.Private.{
  unnamed_sem_bin_process_illegal, Sleepers, still_asleep, SleepStep, father_moves, son_moves,
  father_sleeps, son_sleeps, SleepReach, begin, further,
}
use linux_application_layer.Pair.Tidy.{IsTidy}
use linux_application_layer.Pair.Ends.{CanStep}

abbrev pub nap : Bool → ℕ
nap true = 1
nap false = 0

abbrev pub posted : Pc → ℕ
posted acquiring = 0
posted reading = 0
posted (writing _) = 0
posted releasing = 0
posted _ = 1

-- The program without sleep has a run to the same place, shorter by the times a process fell asleep.
pub record Traced (k : ℕ) (w : Sleepers) : Type 0 where
  pub steps : ℕ
  pub reach : Reach shared unnamed_sem_bin_process_illegal 1 steps w.pair
  pub naps :
      k
      ≤ steps + (nap w.father_asleep + nap w.son_asleep + posted w.pair.father + posted w.pair.son)

-- A process that sleeps is at `sem_wait`; where a post wakes, the semaphore is taken meanwhile.
pub record Asleep (wakes : Bool) (w : Sleepers) : Type 0 where
  pub father_waits : w.father_asleep ≡ true → w.pair.father ≡ acquiring
  pub son_waits : w.son_asleep ≡ true → w.pair.son ≡ acquiring
  pub father_reason : w.father_asleep ≡ true → wakes ≡ true → w.pair.sem ≡ 0
  pub son_reason : w.son_asleep ≡ true → wakes ≡ true → w.pair.sem ≡ 0

father-Asleep :
    (wakes : Bool) (w : Sleepers) {t : Pair} (p : Pc)
    → w.pair.father ≡ p
    → w.father_asleep ≡ false
    → father_at shared unnamed_sem_bin_process_illegal p w.pair ≡ some t
    → Asleep wakes w
    → Asleep wakes
        (record { pair = t; father_asleep = false; son_asleep = still_asleep wakes p w.son_asleep })
unfolding father_at sem_wait sem_post
father-Asleep wakes w acquiring q b e h = ground arith
father-Asleep wakes w reading q b e h = ground arith
father-Asleep wakes w (writing tmp) q b e h = ground arith
father-Asleep true w releasing q b e h = ground arith
father-Asleep false w releasing q b e h = ground arith
father-Asleep wakes w (closing []) q b e h = ground arith
father-Asleep wakes w (closing (c ∷ cs)) q b e h = ground arith
father-Asleep wakes w printing q b e h = ground arith
father-Asleep wakes w (cleaning []) q b e h = ground arith
father-Asleep wakes w (cleaning (c ∷ cs)) q b e h = ground arith

son-Asleep :
    (wakes : Bool) (w : Sleepers) {t : Pair} (p : Pc)
    → w.pair.son ≡ p
    → w.son_asleep ≡ false
    → son_at shared unnamed_sem_bin_process_illegal p w.pair ≡ some t
    → Asleep wakes w
    → Asleep wakes (record {
      pair = t;
      father_asleep = still_asleep wakes p w.father_asleep;
      son_asleep = false;
    })
unfolding son_at sem_wait sem_post
son-Asleep wakes w acquiring q b e h = ground arith
son-Asleep wakes w reading q b e h = ground arith
son-Asleep wakes w (writing tmp) q b e h = ground arith
son-Asleep true w releasing q b e h = ground arith
son-Asleep false w releasing q b e h = ground arith
son-Asleep wakes w (closing cs) q b e h = ground arith
son-Asleep wakes w printing q b e h = ground arith
son-Asleep wakes w (cleaning []) q b e h = ground arith
son-Asleep wakes w (cleaning (c ∷ cs)) q b e h = ground arith

Step-Asleep :
    (wakes : Bool) {w t : Sleepers} → SleepStep wakes w t → Asleep wakes w → Asleep wakes t
Step-Asleep wakes {w} (father_moves a e) h = father-Asleep wakes w w.pair.father refl a e h
Step-Asleep wakes {w} (son_moves a e) h = son-Asleep wakes w w.pair.son refl a e h
Step-Asleep wakes (father_sleeps a q z) h = ground arith
Step-Asleep wakes (son_sleeps a q z) h = ground arith

pub Reach-Asleep : (wakes : Bool) {k : ℕ} {w : Sleepers} → SleepReach wakes k w → Asleep wakes w
Reach-Asleep wakes begin = ground arith
Reach-Asleep wakes (further r s) = Step-Asleep wakes s (Reach-Asleep wakes r)

nap-still_asleep : (wakes : Bool) (p : Pc) (b : Bool) → nap b ≤ nap (still_asleep wakes p b) + 1
nap-still_asleep wakes p true = ground arith
nap-still_asleep wakes p false = ground arith

father_naps :
    (wakes : Bool) (w : Pair) {t : Pair} (p : Pc) (b : Bool)
    → w.father ≡ p
    → father_at shared unnamed_sem_bin_process_illegal p w ≡ some t
    → (nap b + posted p ≤ nap (still_asleep wakes p b) + posted t.father) × (t.son ≡ w.son)
unfolding father_at sem_wait sem_post
father_naps wakes w acquiring b q e = ground arith
father_naps wakes w reading b q e = ground arith
father_naps wakes w (writing tmp) b q e = ground arith
father_naps wakes w releasing b q e = ground (arith, nap-still_asleep wakes releasing b)
father_naps wakes w (closing []) b q e = ground arith
father_naps wakes w (closing (c ∷ cs)) b q e = ground arith
father_naps wakes w printing b q e = ground arith
father_naps wakes w (cleaning []) b q e = ground arith
father_naps wakes w (cleaning (c ∷ cs)) b q e = ground arith

son_naps :
    (wakes : Bool) (w : Pair) {t : Pair} (p : Pc) (b : Bool)
    → w.son ≡ p
    → son_at shared unnamed_sem_bin_process_illegal p w ≡ some t
    → (nap b + posted p ≤ nap (still_asleep wakes p b) + posted t.son) × (t.father ≡ w.father)
unfolding son_at sem_wait sem_post
son_naps wakes w acquiring b q e = ground arith
son_naps wakes w reading b q e = ground arith
son_naps wakes w (writing tmp) b q e = ground arith
son_naps wakes w releasing b q e = ground (arith, nap-still_asleep wakes releasing b)
son_naps wakes w (closing cs) b q e = ground arith
son_naps wakes w printing b q e = ground arith
son_naps wakes w (cleaning []) b q e = ground arith
son_naps wakes w (cleaning (c ∷ cs)) b q e = ground arith

Step-Traced :
    {wakes : Bool} {k : ℕ} {w t : Sleepers} → SleepStep wakes w t → Traced k w → Traced (suc k) t
Step-Traced {wakes} {w = w} (father_moves {t} a e) h =
    let n = father_naps wakes w.pair w.pair.father w.son_asleep refl e in
    record {
      steps = suc h.steps;
      reach = next h.reach (by_father e);
      naps = ground (arith, h.naps, n);
    }
Step-Traced {wakes} {w = w} (son_moves {t} a e) h =
    let n = son_naps wakes w.pair w.pair.son w.father_asleep refl e in
    record {
      steps = suc h.steps;
      reach = next h.reach (by_son e);
      naps = ground (arith, h.naps, n);
    }
Step-Traced (father_sleeps a q z) h = record {
  steps = h.steps;
  reach = h.reach;
  naps = ground (arith, h.naps);
}
Step-Traced (son_sleeps a q z) h = record {
  steps = h.steps;
  reach = h.reach;
  naps = ground (arith, h.naps);
}

pub Reach-Traced : {wakes : Bool} {k : ℕ} {w : Sleepers} → SleepReach wakes k w → Traced k w
Reach-Traced begin = record { steps = 0; reach = start; naps = omega arith }
Reach-Traced (further r s) = Step-Traced s (Reach-Traced r)

pub illegal-IsTidy : IsTidy unnamed_sem_bin_process_illegal
illegal-IsTidy = record { names_gone = refl; father_gone = refl; son_gone = refl; son_keeps = tt }

pub nap_or_posted : (b : Bool) (p : Pc) → (b ≡ true → p ≡ acquiring) → nap b + posted p ≤ 1
nap_or_posted true acquiring h = omega arith
nap_or_posted true reading h = absurd (ground (arith, h refl))
nap_or_posted true (writing tmp) h = absurd (ground (arith, h refl))
nap_or_posted true releasing h = absurd (ground (arith, h refl))
nap_or_posted true (closing cs) h = absurd (ground (arith, h refl))
nap_or_posted true printing h = absurd (ground (arith, h refl))
nap_or_posted true (cleaning cs) h = absurd (ground (arith, h refl))
nap_or_posted false acquiring h = omega arith
nap_or_posted false reading h = omega arith
nap_or_posted false (writing tmp) h = omega arith
nap_or_posted false releasing h = omega arith
nap_or_posted false (closing cs) h = omega arith
nap_or_posted false printing h = omega arith
nap_or_posted false (cleaning cs) h = omega arith

abbrev pub SleepCanStep : Bool → Sleepers → Type 0
SleepCanStep wakes w = (t : Sleepers) × SleepStep wakes w t

-- Where the pair can step and a process sleeps only while the semaphore is taken, one can step.
pub wakes_step :
    (w : Sleepers)
    → Asleep true w
    → CanStep shared unnamed_sem_bin_process_illegal w.pair
    → SleepCanStep true w
unfolding father_at son_at sem_wait
wakes_step w h (t, by_father e) = elim (Bool-cases w.father_asleep) [
  | inl b ↦ absurd (asleep (h.father_waits b) (h.father_reason b refl) e)
  | inr b ↦ (_, father_moves b e)
]
  where
    asleep :
        w.pair.father ≡ acquiring
        → w.pair.sem ≡ 0
        → ¬ (father_at shared unnamed_sem_bin_process_illegal w.pair.father w.pair ≡ some t)
    asleep q z e = ground arith
wakes_step w h (t, by_son e) = elim (Bool-cases w.son_asleep) [
  | inl b ↦ absurd (asleep (h.son_waits b) (h.son_reason b refl) e)
  | inr b ↦ (_, son_moves b e)
]
  where
    asleep :
        w.pair.son ≡ acquiring
        → w.pair.sem ≡ 0
        → ¬ (son_at shared unnamed_sem_bin_process_illegal w.pair.son w.pair ≡ some t)
    asleep q z e = ground arith
