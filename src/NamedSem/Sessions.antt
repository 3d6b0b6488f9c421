-- ===== src/NamedSem/Sessions.antt =====
-- What a session leaves under the name, and which program can run next.
use linux_application_layer.Common.{
  ℕ, ◌≡◌, refl, ◌↔◌, ◌⊎◌, inl, inr, Option, none, some, List, [], ◌∷◌, subst, sym, arith,
}
use linux_application_layer.Pair as Pair
use linux_application_layer.Pair.Ends as PairEnds
use linux_application_layer.Pair.Leftover.{stuck, no_step}
use linux_application_layer.Counter.Lock.{sem_wait}
use linux_application_layer.SonFirst as SonFirst
use linux_application_layer.SonFirst.Ends as SonFirstEnds
use linux_application_layer.NamedSem.{
  opened, left, Named, bin, count, no_unlink, Session, fresh, ran_bin, ran_count, ran_no_unlink,
}

-- The specification, by the latest program alone.
abbrev pub value_after : List Named → Option ℕ
value_after (no_unlink ∷ ps) = some 0
value_after _ = none

-- The session ended with named_sem_no_unlink.
abbrev pub EndsUnremoved : List Named → Type 0
EndsUnremoved (no_unlink ∷ ps) = Unit
EndsUnremoved _ = ⊥

-- Both processes of named_sem_bin, started now, wait for ever.
abbrev pub Blocks : Option ℕ → Type 0
Blocks o =
    ¬ PairEnds.CanStep Pair.shared Pair.named_sem_bin (Pair.forked Pair.named_sem_bin (opened 1 o))

none_or_zero : (ps : List Named) → (value_after ps ≡ none) ⊎ (value_after ps ≡ some 0)
none_or_zero [] = inl refl
none_or_zero (bin ∷ ps) = inl refl
none_or_zero (count ∷ ps) = inl refl
none_or_zero (no_unlink ∷ ps) = inr refl

opens_at_zero : (o : Option ℕ) → (o ≡ none) ⊎ (o ≡ some 0) → opened 0 o ≡ 0
opens_at_zero o h = ground arith

bin_leaves :
    (o : Option ℕ) {k : ℕ} {w : Pair.Pair}
    → (o ≡ none) ⊎ (o ≡ some 0)
    → Pair.Reach Pair.shared Pair.named_sem_bin (opened 1 o) k w
    → PairEnds.BothEnded w
    → left w.names w.sem ≡ none
bin_leaves none h r b =
    let f = (PairEnds.ends Pair.named_sem_bin PairEnds.named_sem_bin-IsTidy r).1 b in
    rw (f.names_gone) refl
bin_leaves (some v) {k} {w} h r b =
    let z : v ≡ 0 = ground arith in
    let w_start = stuck (subst (λ n. Pair.Reach Pair.shared Pair.named_sem_bin n k w) z r) in
    absurd (ground (arith, w_start))

count_leaves :
    {v k : ℕ} {w : SonFirst.Pair}
    → SonFirst.Reach SonFirst.named_sem_count v k w
    → SonFirstEnds.BothEnded w
    → left w.names w.sem ≡ none
count_leaves r b =
    let l = (SonFirstEnds.son_first-Ends SonFirstEnds.count r).2 b in rw (l.names_are) refl

no_unlink_leaves :
    {v k : ℕ} {w : SonFirst.Pair}
    → v ≡ 0
    → SonFirst.Reach SonFirst.named_sem_no_unlink v k w
    → SonFirstEnds.BothEnded w
    → left w.names w.sem ≡ some 0
no_unlink_leaves z r b =
    let l = (SonFirstEnds.son_first-Ends SonFirstEnds.no_unlink r).2 b in
    ground (arith, l.names_are, l.sem, z)

leaves : {o : Option ℕ} {ps : List Named} → Session o ps → o ≡ value_after ps
leaves fresh = refl
leaves (ran_bin {o} {ps} h r b) = bin_leaves o (ground (arith, leaves h, none_or_zero ps)) r b
leaves (ran_count h r b) = count_leaves r b
leaves (ran_no_unlink {o} {ps} h r b) =
    no_unlink_leaves (opens_at_zero o (ground (arith, leaves h, none_or_zero ps))) r b

runs_unless_left : ¬ Blocks none
unfolding Pair.father_at sem_wait
runs_unless_left h = h (_, Pair.by_father refl)

Blocks-iff : (ps : List Named) → Blocks (value_after ps) ↔ EndsUnremoved ps
Blocks-iff [] = (runs_unless_left, λ u. absurd u)
Blocks-iff (bin ∷ ps) = (runs_unless_left, λ u. absurd u)
Blocks-iff (count ∷ ps) = (runs_unless_left, λ u. absurd u)
Blocks-iff (no_unlink ∷ ps) = (λ h. tt, λ u. no_step refl)

-- After complete runs of the three programs, on a system that did not have the name: what stands
-- under it depends on the latest run alone. named_sem_no_unlink leaves a semaphore of value zero,
-- whether it made it or found it, and the two others leave none. So of named_sem_bin, started next,
-- both processes wait for ever exactly after named_sem_no_unlink.
pub latest_decides :
    {o : Option ℕ} {ps : List Named}
    → Session o ps
    → (o ≡ value_after ps) × (Blocks o ↔ EndsUnremoved ps)
latest_decides {o} {ps} h =
    (leaves h, subst (λ x. Blocks x ↔ EndsUnremoved ps) (sym (leaves h)) (Blocks-iff ps))
