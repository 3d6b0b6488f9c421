-- ===== src/SonFirst/Ends.antt =====
-- The three programs end, and what they leave.
use linux_application_layer.Common.{
  ℕ, suc, ◌+◌, ◌≤◌, ◌≡◌, refl, ◌≢◌, ◌⊎◌, inl, inr, Option, none, some, List, [], ◌∷◌, arith, length,
}
use linux_application_layer.Counter.Lock.{sem_wait, sem_post}
use linux_application_layer.Pair.Resources.{
  Resource, sem_name, Cleanup, sem_destroy, release, unlink, sweep_names, sweep_held, KeepsNames,
}
use linux_application_layer.SonFirst.{
  father_line, son_line, Pc, waiting, printing, reaping, posting, ending, Pair, Program, father_at,
  son_at, Step, by_father, by_son, Reach, start, next, unnamed_sem_count_process, named_sem_count,
  named_sem_no_unlink,
}
use linux_application_layer.SonFirst.Order.{Inv, Reach-Inv}

abbrev pub CanStep : Program → Pair → Type 0
CanStep p w = (t : Pair) × Step p w t

abbrev pub BothEnded : Pair → Type 0
BothEnded w = (w.father ≡ ending []) × (w.son ≡ ending [])

module _ (p : Program) where
  father_steps : {w : Pair} (o : Option Pair) → father_at p w.father w ≡ o → o ≢ none → CanStep p w
  father_steps (some t) e h = (t, by_father e)
  father_steps none e h = absurd (h refl)

  son_steps : {w : Pair} (o : Option Pair) → son_at p w.son w ≡ o → o ≢ none → CanStep p w
  son_steps (some t) e h = (t, by_son e)
  son_steps none e h = absurd (h refl)

  father_runs : (w : Pair) → father_at p w.father w ≢ none → CanStep p w
  father_runs w h = father_steps (father_at p w.father w) refl h

  son_runs : (w : Pair) → son_at p w.son w ≢ none → CanStep p w
  son_runs w h = son_steps (son_at p w.son w) refl h

  mover :
      {v : ℕ} (w : Pair) (f s : Pc) → w.father ≡ f → w.son ≡ s → Inv v w → BothEnded w ⊎ CanStep p w
  unfolding father_at son_at sem_wait
  mover w f printing d e inv = inr (son_runs w (ground arith))
  mover w f posting d e inv = inr (son_runs w (ground arith))
  mover w f (ending (c ∷ cs)) d e inv = inr (son_runs w (ground arith))
  mover w f waiting d e inv = absurd (ground (arith, inv.sons))
  mover w f reaping d e inv = absurd (ground (arith, inv.sons))
  mover w waiting (ending []) d e inv = inr (father_runs w (ground arith))
  mover w printing (ending []) d e inv = inr (father_runs w (ground arith))
  mover w reaping (ending []) d e inv = inr (father_runs w (ground arith))
  mover w posting (ending []) d e inv = absurd (ground (arith, inv.fathers))
  mover w (ending (c ∷ cs)) (ending []) d e inv = inr (father_runs w (ground arith))
  mover w (ending []) (ending []) d e inv = inl (d, e)

  abbrev father_rest : Pc → List Cleanup
  father_rest (ending cs) = cs
  father_rest _ = p.father_end

  abbrev son_rest : Pc → List Cleanup
  son_rest (ending cs) = cs
  son_rest _ = p.son_end

  abbrev father_size : Pc → ℕ
  father_size waiting = 3 + length p.father_end
  father_size printing = 2 + length p.father_end
  father_size reaping = 1 + length p.father_end
  father_size posting = 0
  father_size (ending cs) = length cs

  abbrev son_size : Pc → ℕ
  son_size printing = 2 + length p.son_end
  son_size posting = 1 + length p.son_end
  son_size (ending cs) = length cs
  son_size _ = 0

  record Kept (k : ℕ) (w : Pair) : Type 0 where
    names_left : sweep_names (father_rest w.father) w.names ≡ sweep_names p.father_end p.names
    father_left : sweep_held (father_rest w.father) w.father_held ≡ sweep_held p.father_end p.held
    son_left : sweep_held (son_rest w.son) w.son_held ≡ sweep_held p.son_end p.held
    son_keeps : KeepsNames (son_rest w.son)
    size : k + father_size w.father + son_size w.son ≡ 5 + length p.father_end + length p.son_end

  father-Kept :
      (k : ℕ) {w t : Pair} (pc : Pc)
      → w.father ≡ pc
      → father_at p pc w ≡ some t
      → Kept k w
      → Kept (suc k) t
  unfolding father_at sem_wait
  father-Kept k {w} waiting q e h = ground arith
  father-Kept k {w} printing q e h = ground arith
  father-Kept k {w} reaping q e h = ground arith
  father-Kept k {w} posting q e h = ground arith
  father-Kept k {w} (ending []) q e h = ground arith
  father-Kept k {w} (ending (c ∷ cs)) q e h = ground arith

  son-Kept :
      (k : ℕ) {w t : Pair} (pc : Pc)
      → w.son ≡ pc
      → son_at p pc w ≡ some t
      → Kept k w
      → Kept (suc k) t
  unfolding son_at sem_post
  son-Kept k {w} waiting q e h = ground arith
  son-Kept k {w} printing q e h = ground arith
  son-Kept k {w} reaping q e h = ground arith
  son-Kept k {w} posting q e h = ground arith
  son-Kept k {w} (ending []) q e h = ground arith
  son-Kept k {w} (ending (sem_destroy ∷ cs)) q e h = ground arith
  son-Kept k {w} (ending (release r ∷ cs)) q e h = ground arith
  son-Kept k {w} (ending (unlink r ∷ cs)) q e h = ground arith

  Reach-Kept : {v k : ℕ} {w : Pair} → KeepsNames p.son_end → Reach p v k w → Kept k w
  Reach-Kept keeps start = record {
    names_left = refl;
    father_left = refl;
    son_left = refl;
    son_keeps = keeps;
    size = omega arith;
  }
  Reach-Kept keeps (next {k} {w} r (by_father e)) =
      father-Kept k w.father refl e (Reach-Kept keeps r)
  Reach-Kept keeps (next {k} {w} r (by_son e)) = son-Kept k w.son refl e (Reach-Kept keeps r)

-- What both processes leave that have ended, from a semaphore that started at `v`.
pub record Left (v : ℕ) (names : List Resource) (w : Pair) : Type 0 where
  pub sem : w.sem ≡ v
  pub both : (w.output ≡ father_line ∷ son_line ∷ []) ⊎ (w.output ≡ son_line ∷ father_line ∷ [])
  pub in_order : v ≡ 0 → w.output ≡ father_line ∷ son_line ∷ []
  pub names_are : w.names ≡ names
  pub father_gone : w.father_held ≡ []
  pub son_gone : w.son_held ≡ []

abbrev pub Ends : Program → (v bound : ℕ) → (names : List Resource) → ℕ → Pair → Type 0
Ends p v bound names k w =
    (BothEnded w ⊎ CanStep p w) × (k ≤ bound) × (BothEnded w → Left v names w)

ends :
    (p : Program) {v k : ℕ} {w : Pair}
    → KeepsNames p.son_end
    → sweep_held p.father_end p.held ≡ []
    → sweep_held p.son_end p.held ≡ []
    → Reach p v k w
    → Ends p v (5 + length p.father_end + length p.son_end) (sweep_names p.father_end p.names) k w
ends p {v} {k} {w} keeps hf hs r =
    let inv = Reach-Inv p v r in
    let kept = Reach-Kept p keeps r in
    (
      mover p w w.father w.son refl refl inv,
      omega (arith, kept.size),
      λ (d, e). record {
        sem = ground (arith, inv.permits);
        both = ground (arith, inv.shown);
        in_order = λ z. ground (arith, inv.shown, inv.in_order z);
        names_are = ground (arith, kept.names_left);
        father_gone = ground (arith, kept.father_left, hf);
        son_gone = ground (arith, kept.son_left, hs);
      },
    )

pub data Which : Type 0 where
  count_process count no_unlink : Which

abbrev pub program : Which → Program
program count_process = unnamed_sem_count_process
program count = named_sem_count
program no_unlink = named_sem_no_unlink

abbrev pub most_steps : Which → ℕ
most_steps count_process = 11
most_steps count = 8
most_steps no_unlink = 7

abbrev pub names_after : Which → List Resource
names_after count_process = []
names_after count = []
names_after no_unlink = sem_name ∷ []

-- From a semaphore that starts at any value, the two processes of each of the three programs end,
-- after at most 11, 8 and 7 steps, and until then one of them can step. When both have ended, the
-- semaphore has its first value again, both have printed once, the son first if that value was zero,
-- and neither holds anything; the name is removed, but by named_sem_no_unlink.
pub son_first-Ends :
    (x : Which) {v k : ℕ} {w : Pair}
    → Reach (program x) v k w
    → Ends (program x) v (most_steps x) (names_after x) k w
son_first-Ends count_process r = ends unnamed_sem_count_process tt refl refl r
son_first-Ends count r = ends named_sem_count tt refl refl r
son_first-Ends no_unlink r = ends named_sem_no_unlink tt refl refl r
