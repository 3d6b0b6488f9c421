-- ===== src/Pair/Leftover.antt =====
-- named_sem_bin.c opens its semaphore without O_EXCL: one that an earlier run has left keeps its
-- value.
use linux_application_layer.Common.{
  ℕ, zero, suc, ◌≤◌, ◌≡◌, refl, subst, sym, ◌⊎◌, inl, inr, ◌↔◌, Option, none, some, List, [], ◌∷◌,
  arith,
}
use linux_application_layer.Counter.Lock.{sem_wait, sem_post}
use linux_application_layer.Pair.{
  shared, Pc, acquiring, reading, releasing, printing, writing, closing, cleaning, Pair, father_at,
  son_at, forked, by_father, by_son, Reach, start, next, named_sem_bin,
}
use linux_application_layer.Pair.Invariant.{Reach-Inv, Printed}
use linux_application_layer.Pair.Ends.{CanStep, BothEnded, Finished, ends, named_sem_bin-IsTidy}
use linux_application_layer.Pair.Tidy.{Reach-size}
use linux_application_layer.Pair.Race.{CanPrint, prints_both, prints_within, one_by_one, both_read}
use linux_application_layer.Pair.Schedule.{Turn, father, son, schedule}

-- `sem_open(sem_name, O_CREAT, 0666, 1)`, given the value of a semaphore of that name.
abbrev pub sem_open : Option ℕ → ℕ
sem_open none = 1
sem_open (some v) = v

pub no_step : {w : Pair} → w ≡ forked named_sem_bin 0 → ¬ CanStep shared named_sem_bin w
unfolding father_at son_at sem_wait
no_step {w} e (t, by_father s) = ground arith
no_step {w} e (t, by_son s) = ground arith

-- From zero neither process gets past `sem_wait`.
pub stuck : {k : ℕ} {w : Pair} → Reach shared named_sem_bin 0 k w → w ≡ forked named_sem_bin 0
stuck start = refl
stuck (next {w = w} {t} r s) = absurd (no_step (stuck r) (t, s))

log_2 :
    (w : Pair) (f : Pc) {v : ℕ}
    → w.father ≡ f
    → w.printed ≡ v ∷ []
    → Printed w.father w.printed
    → v ≡ 2
log_2 w acquiring q e h = ground arith
log_2 w reading q e h = ground arith
log_2 w releasing q e h = ground arith
log_2 w printing q e h = ground arith
log_2 w (writing tmp) q e h = ground arith
log_2 w (closing cs) q e h = ground arith
log_2 w (cleaning cs) q e h = ground arith

loose_prints_1 : (m : ℕ) → CanPrint shared named_sem_bin (suc (suc m)) 1
unfolding schedule father_at son_at sem_wait sem_post
loose_prints_1 m =
    let r = schedule shared named_sem_bin (suc (suc m)) both_read in
    (r.last, (r.steps, r.reach), refl)

once_prints_2 : CanPrint shared named_sem_bin 1 2
unfolding schedule father_at son_at sem_wait sem_post
once_prints_2 =
    let r = schedule shared named_sem_bin 1 one_by_one in (r.last, (r.steps, r.reach), refl)

-- Both inside, and the son reads after the father has written.
abbrev inside_one_by_one : List Turn
inside_one_by_one =
    father ∷ son ∷ father ∷ father ∷ son ∷ son ∷ son ∷ son ∷ son ∷ son ∷ father ∷ father ∷ father
    ∷ father ∷ []

loose_prints_2 : (m : ℕ) → CanPrint shared named_sem_bin (suc (suc m)) 2
unfolding schedule father_at son_at sem_wait sem_post
loose_prints_2 m =
    let r = schedule shared named_sem_bin (suc (suc m)) inside_one_by_one in
    (r.last, (r.steps, r.reach), refl)

-- What the father of named_sem_bin prints, given the value of a semaphore that was left under its
-- name: without one, or with the value one, exactly 2; with the value zero, nothing; with a larger
-- value, exactly 1 and 2.
pub leftover_decides :
    (old : Option ℕ) (v : ℕ)
    → CanPrint shared named_sem_bin (sem_open old) v
      ↔ ((sem_open old ≡ 1) × (v ≡ 2) ⊎ (2 ≤ sem_open old) × (1 ≤ v) × (v ≤ 2))
leftover_decides old v = at (sem_open old)
  where
    to :
        (n : ℕ)
        → CanPrint shared named_sem_bin n v
        → (n ≡ 1) × (v ≡ 2) ⊎ (2 ≤ n) × (1 ≤ v) × (v ≤ 2)
    to zero (w, (k, r), e) = ground (arith, stuck r)
    to (suc zero) (w, (k, r), e) =
        inl (refl, log_2 w w.father refl e (Reach-Inv named_sem_bin r).log)
    to (suc (suc m)) c = let b = prints_within named_sem_bin c in inr (omega arith, b.0, b.1)

    from :
        (n : ℕ)
        → (n ≡ 1) × (v ≡ 2) ⊎ (2 ≤ n) × (1 ≤ v) × (v ≤ 2)
        → CanPrint shared named_sem_bin n v
    from zero h = absurd (ground (arith, h))
    from (suc zero) (inl (_, e)) = subst (CanPrint shared named_sem_bin 1) (sym e) once_prints_2
    from (suc zero) (inr h) = absurd (omega (arith, h.0))
    from (suc (suc m)) (inl h) = absurd (omega (arith, h.0))
    from (suc (suc m)) (inr h) =
        (prints_both shared named_sem_bin (suc (suc m)) (loose_prints_1 m) (loose_prints_2 m) v).1
          (h.1, h.2)

    at :
        (n : ℕ)
        → CanPrint shared named_sem_bin n v ↔ ((n ≡ 1) × (v ≡ 2) ⊎ (2 ≤ n) × (1 ≤ v) × (v ≤ 2))
    at n = (to n, from n)

-- Without a semaphore left under its name, the two processes of named_sem_bin end after at most 18
-- steps, one of them can step until both have ended, and then 2 is printed, no name is left and
-- neither process holds anything.
pub named_sem_bin_adds_two :
    {k : ℕ} {w : Pair}
    → Reach shared named_sem_bin (sem_open none) k w
    → (BothEnded w ⊎ CanStep shared named_sem_bin w) × (k ≤ 18) × (BothEnded w → Finished w)
named_sem_bin_adds_two {k} {w} r =
    let e = ends named_sem_bin named_sem_bin-IsTidy r in
    (e.0, omega (arith, Reach-size named_sem_bin r), e.1)
