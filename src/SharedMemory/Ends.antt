-- ===== src/SharedMemory/Ends.antt =====
-- Both processes of shared_memory.c end, and leave no name.
use linux_application_layer.Common.{
  get_or_beyond, ℕ, ◌+◌, ◌-◌, ◌<◌, ◌≤◌, ◌≡◌, refl, subst, ◌≢◌, ◌⊎◌, inl, inr, Bool, length, get_or,
  ◌++◌, ℕ_discrete, dec_lt, true, false, some, none, List, [], ◌∷◌, arith, Option,
}
use linux_application_layer.SharedMemory.{
  wait, SonPc, copying, telling, unlinking, ended, never, FatherPc, sleeping, reading, waiting,
  unmapping, unlinking_too, finished, Letter, son_at, father_at, after_fork, Step, by_son,
  by_father, Run, here, next,
}
use linux_application_layer.SharedMemory.Filled.{Run-Filled, father-Apart}
use linux_application_layer.SharedMemory.Prints.{son-Aside}

-- Who has unlinked and unmapped what.
record Tidy (s : Letter) : Type 0 where
  by_the_son : s.son ≡ ended → s.named ≡ false
  by_the_father : s.father ≡ finished → s.named ≡ false
  unmapped : s.father ≡ unlinking_too → s.mapped ≡ false
  unmapped_too : s.father ≡ finished → s.mapped ≡ false
  waited :
      (s.father ≡ unmapping) ⊎ (s.father ≡ unlinking_too) ⊎ (s.father ≡ finished)
      → (s.son ≡ ended) ⊎ (s.son ≡ never)

after_fork-Tidy : (old : List ℕ) (b : Bool) → Tidy (after_fork old b)
after_fork-Tidy old true = ground arith
after_fork-Tidy old false = ground arith

son-Tidy : {s t : Letter} (p : SonPc) → s.son ≡ p → son_at p s ≡ some t → Tidy s → Tidy t
unfolding son_at
son-Tidy (copying i) q e h = ground arith
son-Tidy telling q e h = ground arith
son-Tidy unlinking q e h = ground arith
son-Tidy ended q e h = ground arith
son-Tidy never q e h = ground arith

wait-Tidy : {s t : Letter} (p : SonPc) → s.son ≡ p → wait p s ≡ some t → Tidy s → Tidy t
wait-Tidy (copying i) q e h = ground arith
wait-Tidy telling q e h = ground arith
wait-Tidy unlinking q e h = ground arith
wait-Tidy ended q e h = ground arith
wait-Tidy never q e h = ground arith

father-Tidy :
    {s t : Letter} (p : FatherPc) → s.father ≡ p → father_at p s ≡ some t → Tidy s → Tidy t
unfolding father_at
father-Tidy sleeping q e h = ground arith
father-Tidy (reading i seen) q e h = ground arith
father-Tidy {s} waiting q e h = wait-Tidy s.son refl e h
father-Tidy unmapping q e h = ground arith
father-Tidy unlinking_too q e h = ground arith
father-Tidy finished q e h = ground arith

Run-Tidy : (old : List ℕ) (b : Bool) {k : ℕ} {s : Letter} → Run (after_fork old b) k s → Tidy s
Run-Tidy old b here = after_fork-Tidy old b
Run-Tidy old b (next {t = s} r (by_son e)) = son-Tidy s.son refl e (Run-Tidy old b r)
Run-Tidy old b (next {t = s} r (by_father e)) = father-Tidy s.father refl e (Run-Tidy old b r)

-- The father reads inside the object and its first byte behind, and prints once.
abbrev Once : FatherPc → List (List ℕ) → Type 0
Once sleeping log = log ≡ []
Once (reading i seen) log = (log ≡ []) × (i ≤ 100)
Once _ log = (v : List ℕ) × (log ≡ v ∷ [])

wait-Once :
    (s t : Letter) (p : SonPc)
    → wait p s ≡ some t
    → Once waiting s.printed
    → Once t.father t.printed
wait-Once s t (copying i) e r = ground arith
wait-Once s t telling e r = ground arith
wait-Once s t unlinking e r = ground arith
wait-Once s t ended e r =
    let father : t.father ≡ unmapping = ground arith in
    let printed : t.printed ≡ s.printed = ground arith in rw (father, printed) r
wait-Once s t never e r =
    let father : t.father ≡ unmapping = ground arith in
    let printed : t.printed ≡ s.printed = ground arith in rw (father, printed) r

father-Once :
    (s t : Letter) (p : FatherPc)
    → length s.share ≡ 100
    → Once p s.printed
    → father_at p s ≡ some t
    → Once t.father t.printed
unfolding father_at
father-Once s t sleeping l r e = ground arith
father-Once s t (reading i seen) l r e = elim (ℕ_discrete (get_or s.share i 0) 0) [
  | yes z ↦
      let father : t.father ≡ waiting = ground arith in
      let printed : t.printed ≡ seen ∷ s.printed = ground arith in
      rw (father, printed, r.0) (seen, refl)
  | no n ↦
      let father : t.father ≡ reading (i + 1) (seen ++ (get_or s.share i 0 ∷ [])) = ground arith in
      let printed : t.printed ≡ s.printed = ground arith in
      rw (father, printed) (r.0, before_end s i l n)
]
  where
    before_end : (s : Letter) (i : ℕ) → length s.share ≡ 100 → get_or s.share i 0 ≢ 0 → i + 1 ≤ 100
    before_end s i l n = elim (dec_lt i 100) [
      | yes h ↦ omega arith
      | no h ↦ absurd (n (get_or_beyond s.share i 0 (omega (arith, l, h))))
    ]
father-Once s t waiting l r e = wait-Once s t s.son e r
father-Once s t unmapping l r e =
    let father : t.father ≡ unlinking_too = ground arith in
    let printed : t.printed ≡ s.printed = ground arith in rw (father, printed) r
father-Once s t unlinking_too l r e =
    let father : t.father ≡ finished = ground arith in
    let printed : t.printed ≡ s.printed = ground arith in rw (father, printed) r
father-Once s t finished l r e = ground arith

Run-Once :
    (old : List ℕ) (b : Bool) {k : ℕ} {s : Letter}
    → length old ≡ 100
    → Run (after_fork old b) k s
    → Once s.father s.printed
Run-Once old b l here = refl
Run-Once old b l (next {t = s} {u} r (by_son e)) =
    let a = son-Aside s u s.son e in rw (a.father_kept, a.printed_kept) (Run-Once old b l r)
Run-Once old b l (next {t = s} {u} r (by_father e)) =
    father-Once s u s.father (Run-Filled old b l r).sized (Run-Once old b l r) e

abbrev son_size : SonPc → ℕ
son_size (copying i) = 20 - i
son_size telling = 2
son_size unlinking = 1
son_size ended = 0
son_size never = 0

abbrev father_size : FatherPc → ℕ
father_size sleeping = 105
father_size (reading i seen) = 104 - i
father_size waiting = 3
father_size unmapping = 2
father_size unlinking_too = 1
father_size finished = 0

son_shrinks :
    (s t : Letter) (p : SonPc)
    → s.son ≡ p
    → son_at p s ≡ some t
    → ((i : ℕ) → p ≡ copying i → i ≤ 17)
    → son_size t.son < son_size p
unfolding son_at
son_shrinks s t (copying i) q e h = ground (arith, h i refl)
son_shrinks s t telling q e h = ground arith
son_shrinks s t unlinking q e h = ground arith
son_shrinks s t ended q e h = ground arith
son_shrinks s t never q e h = ground arith

wait_shrinks : (s t : Letter) (p : SonPc) → wait p s ≡ some t → father_size t.father < 3
wait_shrinks s t (copying i) e = ground arith
wait_shrinks s t telling e = ground arith
wait_shrinks s t unlinking e = ground arith
wait_shrinks s t ended e = ground arith
wait_shrinks s t never e = ground arith

father_shrinks :
    (s t : Letter) (p : FatherPc)
    → father_at p s ≡ some t
    → Once p s.printed
    → Once t.father t.printed
    → father_size t.father < father_size p
unfolding father_at
father_shrinks s t sleeping e r q = ground arith
father_shrinks s t (reading i seen) e r q = elim (ℕ_discrete (get_or s.share i 0) 0) [
  | yes z ↦ ground (arith, r.1)
  | no n ↦
      let father : t.father ≡ reading (i + 1) (seen ++ (get_or s.share i 0 ∷ [])) = ground arith in
      let inside = (subst (λ p. Once p t.printed) father q).1 in rw father (omega (arith, inside))
]
father_shrinks s t waiting e r q = wait_shrinks s t s.son e
father_shrinks s t unmapping e r q = ground arith
father_shrinks s t unlinking_too e r q = ground arith
father_shrinks s t finished e r q = ground arith

Run-size :
    (old : List ℕ) (b : Bool) {k : ℕ} {s : Letter}
    → length old ≡ 100
    → Run (after_fork old b) k s
    → k + son_size s.son + father_size s.father ≤ 125
Run-size old true l here = omega arith
Run-size old false l here = omega arith
Run-size old b l (next {t = s} {u} r (by_son e)) =
    let h = Run-Filled old b l r in
    let a = son-Aside s u s.son e in
    ground (arith, Run-size old b l r, son_shrinks s u s.son refl e h.at_work, a.father_kept)
Run-size old b l (next {t = s} {u} r (by_father e)) =
    let shrinks =
      father_shrinks s u s.father e (Run-Once old b l r)
        (Run-Once old b l (next r (by_father e))) in
    let a = father-Apart s.father e in ground (arith, Run-size old b l r, shrinks, a.son_kept)

abbrev pub CanStep : Letter → Type 0
CanStep s = (t : Letter) × Step s t

abbrev pub BothEnded : Letter → Type 0
BothEnded s = (s.father ≡ finished) × ((s.son ≡ ended) ⊎ (s.son ≡ never))

son_steps : (s : Letter) (o : Option Letter) → son_at s.son s ≡ o → o ≢ none → CanStep s
son_steps s (some t) e h = (t, by_son e)
son_steps s none e h = absurd (h refl)

father_steps : (s : Letter) (o : Option Letter) → father_at s.father s ≡ o → o ≢ none → CanStep s
father_steps s (some t) e h = (t, by_father e)
father_steps s none e h = absurd (h refl)

mover : (s : Letter) (f : FatherPc) (p : SonPc) → s.father ≡ f → s.son ≡ p → BothEnded s ⊎ CanStep s
unfolding son_at father_at
mover s f (copying i) q e = inr (son_steps s (son_at s.son s) refl (ground arith))
mover s f telling q e = inr (son_steps s (son_at s.son s) refl (ground arith))
mover s f unlinking q e = inr (son_steps s (son_at s.son s) refl (ground arith))
mover s sleeping ended q e = inr (father_steps s (father_at s.father s) refl (ground arith))
mover s sleeping never q e = inr (father_steps s (father_at s.father s) refl (ground arith))
mover s (reading i seen) ended q e = inr (father_steps s (father_at s.father s) refl (ground arith))
mover s (reading i seen) never q e = inr (father_steps s (father_at s.father s) refl (ground arith))
mover s waiting ended q e = inr (father_steps s (father_at s.father s) refl (ground arith))
mover s waiting never q e = inr (father_steps s (father_at s.father s) refl (ground arith))
mover s unmapping ended q e = inr (father_steps s (father_at s.father s) refl (ground arith))
mover s unmapping never q e = inr (father_steps s (father_at s.father s) refl (ground arith))
mover s unlinking_too ended q e = inr (father_steps s (father_at s.father s) refl (ground arith))
mover s unlinking_too never q e = inr (father_steps s (father_at s.father s) refl (ground arith))
mover s finished ended q e = inl (q, inl e)
mover s finished never q e = inl (q, inr e)

-- What the two leave.
pub record Left (s : Letter) : Type 0 where
  pub unlinked : s.named ≡ false
  pub unmapped : s.mapped ≡ false
  pub printed_once : (v : List ℕ) × (s.printed ≡ v ∷ [])

left : (s : Letter) → Tidy s → Once s.father s.printed → BothEnded s → Left s
left s d r b = record {
  unlinked = d.by_the_father b.0;
  unmapped = d.unmapped_too b.0;
  printed_once = subst (λ p. Once p s.printed) b.0 r;
}

-- Where `shm_open` and `mmap` succeed and the object has its 100 bytes, whatever they are and whether
-- `fork` succeeds or not, shared_memory.c ends after at most 125 steps of the two processes, one of
-- them can step until both have ended, and then the name is gone, the father has nothing mapped and
-- has printed once.
pub letter_ends :
    (old : List ℕ) (b : Bool) {k : ℕ} {s : Letter}
    → length old ≡ 100
    → Run (after_fork old b) k s
    → (BothEnded s ⊎ CanStep s) × (k ≤ 125) × (BothEnded s → Left s)
letter_ends old b {k} {s} l r = (
  mover s s.father s.son refl refl,
  omega (arith, Run-size old b l r),
  left s (Run-Tidy old b r) (Run-Once old b l r),
)
