-- ===== src/Pair/Race.antt =====
-- Whatever guards the addition, or nothing does: one of the two additions may be lost.
use linux_application_layer.Common.{
  ℕ, zero, suc, ◌+◌, ◌≤◌, ◌≡◌, refl, ◌↔◌, some, List, [], ◌∷◌, arith,
}
use linux_application_layer.Counter.Lock.{sem_wait, sem_post}
use linux_application_layer.Pair.{
  Guard, shared, own, absent, Pc, acquiring, reading, releasing, printing, writing, closing,
  cleaning, Pair, Program, father_at, son_at, by_father, by_son, Reach, start, next,
  unnamed_sem_bin_process_isolate, unnamed_sem_bin_process_condition,
}
use linux_application_layer.Pair.Schedule.{Turn, father, son, schedule}

abbrev pub added : Pc → ℕ
added acquiring = 0
added reading = 0
added (writing _) = 0
added _ = 1

-- `tmp` counts itself and at most what the other one has added.
abbrev pub TmpWithin : ℕ → Pc → Type 0
TmpWithin other (writing tmp) = (1 ≤ tmp) × (tmp ≤ 1 + other)
TmpWithin other _ = Unit

abbrev pub PrintedWithin : Pc → List ℕ → Type 0
PrintedWithin (cleaning _) log = (v : ℕ) × (log ≡ v ∷ []) × (1 ≤ v) × (v ≤ 2)
PrintedWithin _ log = log ≡ []

pub record Bounded (w : Pair) : Type 0 where
  pub above : w.value ≤ added w.father + added w.son
  pub below : 1 ≤ added w.father + added w.son → 1 ≤ w.value
  pub father_tmp : TmpWithin (added w.son) w.father
  pub son_tmp : TmpWithin (added w.father) w.son
  pub log : PrintedWithin w.father w.printed

abbrev pub CanPrint : Guard → Program → (start v : ℕ) → Type 0
CanPrint g p n v = (w : Pair) × ((k : ℕ) × Reach g p n k w) × (w.printed ≡ v ∷ [])

module _ (p : Program) where
  father-Bounded :
      (g : Guard) (w : Pair) {t : Pair} (pc : Pc)
      → w.father ≡ pc
      → father_at g p pc w ≡ some t
      → Bounded w
      → Bounded t
  unfolding father_at sem_wait sem_post
  father-Bounded shared w acquiring q e h = ground arith
  father-Bounded own w acquiring q e h = ground arith
  father-Bounded absent w acquiring q e h = ground arith
  father-Bounded g w reading q e h = ground arith
  father-Bounded g w (writing tmp) q e h = ground arith
  father-Bounded shared w releasing q e h = ground arith
  father-Bounded own w releasing q e h = ground arith
  father-Bounded absent w releasing q e h = ground arith
  father-Bounded g w (closing []) q e h = ground arith
  father-Bounded g w (closing (c ∷ cs)) q e h = ground arith
  father-Bounded g w printing q e h = ground arith
  father-Bounded g w (cleaning []) q e h = ground arith
  father-Bounded g w (cleaning (c ∷ cs)) q e h = ground arith

  son-Bounded :
      (g : Guard) (w : Pair) {t : Pair} (pc : Pc)
      → w.son ≡ pc
      → son_at g p pc w ≡ some t
      → Bounded w
      → Bounded t
  unfolding son_at sem_wait sem_post
  son-Bounded shared w acquiring q e h = ground arith
  son-Bounded own w acquiring q e h = ground arith
  son-Bounded absent w acquiring q e h = ground arith
  son-Bounded g w reading q e h = ground arith
  son-Bounded g w (writing tmp) q e h = ground arith
  son-Bounded shared w releasing q e h = ground arith
  son-Bounded own w releasing q e h = ground arith
  son-Bounded absent w releasing q e h = ground arith
  son-Bounded g w (closing cs) q e h = ground arith
  son-Bounded g w printing q e h = ground arith
  son-Bounded g w (cleaning []) q e h = ground arith
  son-Bounded g w (cleaning (c ∷ cs)) q e h = ground arith

  pub Reach-Bounded : {g : Guard} {n k : ℕ} {w : Pair} → Reach g p n k w → Bounded w
  Reach-Bounded start = ground arith
  Reach-Bounded (next {w = w} r (by_father e)) =
      father-Bounded _ w w.father refl e (Reach-Bounded r)
  Reach-Bounded (next {w = w} r (by_son e)) = son-Bounded _ w w.son refl e (Reach-Bounded r)

  log_within :
      (w : Pair) (f : Pc) {v : ℕ}
      → w.father ≡ f
      → w.printed ≡ v ∷ []
      → Bounded w
      → (1 ≤ v) × (v ≤ 2)
  log_within w (cleaning cs) q e h = ground (arith, h.log)
  log_within w acquiring q e h = ground (arith, h.log)
  log_within w reading q e h = ground (arith, h.log)
  log_within w releasing q e h = ground (arith, h.log)
  log_within w printing q e h = ground (arith, h.log)
  log_within w (writing tmp) q e h = ground (arith, h.log)
  log_within w (closing cs) q e h = ground (arith, h.log)

  pub prints_within : {g : Guard} {n v : ℕ} → CanPrint g p n v → (1 ≤ v) × (v ≤ 2)
  prints_within (w, (k, r), e) = log_within w w.father refl e (Reach-Bounded r)

-- The father first, then the son; and both reading before either writes.
abbrev pub one_by_one : List Turn
one_by_one =
    father ∷ father ∷ father ∷ father ∷ son ∷ son ∷ son ∷ son ∷ son ∷ son ∷ son ∷ son ∷ father
    ∷ father ∷ father ∷ []

abbrev pub both_read : List Turn
both_read =
    father ∷ father ∷ son ∷ son ∷ father ∷ father ∷ son ∷ son ∷ son ∷ son ∷ son ∷ son ∷ father
    ∷ father ∷ father ∷ []

-- Two printed numbers that are reached are all that there are.
pub prints_both :
    (g : Guard) (p : Program) (n : ℕ)
    → CanPrint g p n 1
    → CanPrint g p n 2
    → (v : ℕ) → CanPrint g p n v ↔ ((1 ≤ v) × (v ≤ 2))
prints_both g p n one two v = (prints_within p, attained v)
  where
    attained : (v : ℕ) → (1 ≤ v) × (v ≤ 2) → CanPrint g p n v
    attained zero h = absurd (omega (arith, h.0))
    attained (suc zero) h = one
    attained (suc (suc zero)) h = two
    attained (suc (suc (suc u))) h = absurd (omega (arith, h.1))

isolate_prints_1 : CanPrint own unnamed_sem_bin_process_isolate 1 1
unfolding schedule father_at son_at sem_wait sem_post
isolate_prints_1 =
    let r = schedule own unnamed_sem_bin_process_isolate 1 both_read in
    (r.last, (r.steps, r.reach), refl)

isolate_prints_2 : CanPrint own unnamed_sem_bin_process_isolate 1 2
unfolding schedule father_at son_at sem_wait sem_post
isolate_prints_2 =
    let r = schedule own unnamed_sem_bin_process_isolate 1 one_by_one in
    (r.last, (r.steps, r.reach), refl)

condition_prints_1 : CanPrint absent unnamed_sem_bin_process_condition 1 1
unfolding schedule father_at son_at
condition_prints_1 =
    let r = schedule absent unnamed_sem_bin_process_condition 1 both_read in
    (r.last, (r.steps, r.reach), refl)

condition_prints_2 : CanPrint absent unnamed_sem_bin_process_condition 1 2
unfolding schedule father_at son_at
condition_prints_2 =
    let r = schedule absent unnamed_sem_bin_process_condition 1 one_by_one in
    (r.last, (r.steps, r.reach), refl)

-- The father of unnamed_sem_bin_process_isolate, whose semaphore `fork` copies, can print exactly
-- 1 and 2, and so can the father of unnamed_sem_bin_process_condition, which has no semaphore.
pub isolate_and_condition_print :
    (v : ℕ)
    → (CanPrint own unnamed_sem_bin_process_isolate 1 v ↔ ((1 ≤ v) × (v ≤ 2)))
      × (CanPrint absent unnamed_sem_bin_process_condition 1 v ↔ ((1 ≤ v) × (v ≤ 2)))
isolate_and_condition_print v = (
  prints_both own unnamed_sem_bin_process_isolate 1 isolate_prints_1 isolate_prints_2 v,
  prints_both absent unnamed_sem_bin_process_condition 1 condition_prints_1 condition_prints_2 v,
)
