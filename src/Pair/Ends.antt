-- ===== src/Pair/Ends.antt =====
-- The programs with a shared semaphore end, with both additions made and everything given back.
use linux_application_layer.Common.{
  ℕ, ◌≤◌, ◌≡◌, refl, ◌≢◌, ◌⊎◌, inl, inr, Option, none, some, [], ◌∷◌, arith,
}
use linux_application_layer.Counter.Lock.{sem_wait, sem_post}
use linux_application_layer.Pair.{
  Guard, shared, Pc, acquiring, reading, releasing, printing, writing, closing, cleaning, Pair,
  Program, father_at, son_at, Step, by_father, by_son, Reach, unnamed_sem_bin_process,
  named_sem_bin,
}
use linux_application_layer.Pair.Invariant.{Inv, Reach-Inv}
use linux_application_layer.Pair.Tidy.{IsTidy, Kept, Reach-Kept, Reach-size}

abbrev pub CanStep : Guard → Program → Pair → Type 0
CanStep g p w = (t : Pair) × Step g p w t

abbrev pub BothEnded : Pair → Type 0
BothEnded w = (w.father ≡ cleaning []) × (w.son ≡ cleaning [])

module _ (g : Guard) (p : Program) where
  father_steps :
      {w : Pair} (o : Option Pair) → father_at g p w.father w ≡ o → o ≢ none → CanStep g p w
  father_steps (some t) e h = (t, by_father e)
  father_steps none e h = absurd (h refl)

  son_steps : {w : Pair} (o : Option Pair) → son_at g p w.son w ≡ o → o ≢ none → CanStep g p w
  son_steps (some t) e h = (t, by_son e)
  son_steps none e h = absurd (h refl)

  pub father_runs : (w : Pair) → father_at g p w.father w ≢ none → CanStep g p w
  father_runs w h = father_steps (father_at g p w.father w) refl h

  pub son_runs : (w : Pair) → son_at g p w.son w ≢ none → CanStep g p w
  son_runs w h = son_steps (son_at g p w.son w) refl h

-- What the processes leave when both have ended.
pub record Finished (w : Pair) : Type 0 where
  pub shown : w.printed ≡ 2 ∷ []
  pub names_gone : w.names ≡ []
  pub father_gone : w.father_held ≡ []
  pub son_gone : w.son_held ≡ []
  pub free : w.sem ≡ 1

module _ (p : Program) where
  mover :
      (w : Pair) (f s : Pc) → w.father ≡ f → w.son ≡ s → Inv w → BothEnded w ⊎ CanStep shared p w
  unfolding father_at son_at sem_wait sem_post
  mover w f reading d e inv = inr (son_runs shared p w (ground arith))
  mover w f (writing tmp) d e inv = inr (son_runs shared p w (ground arith))
  mover w f releasing d e inv = inr (son_runs shared p w (ground arith))
  mover w f (cleaning (c ∷ cs)) d e inv = inr (son_runs shared p w (ground arith))
  mover w f printing d e inv = absurd (ground (arith, inv.sons))
  mover w f (closing cs) d e inv = absurd (ground (arith, inv.sons))
  mover w reading s d e inv = inr (father_runs shared p w (ground arith))
  mover w (writing tmp) s d e inv = inr (father_runs shared p w (ground arith))
  mover w releasing s d e inv = inr (father_runs shared p w (ground arith))
  mover w printing s d e inv = inr (father_runs shared p w (ground arith))
  mover w (closing (c ∷ cs)) s d e inv = inr (father_runs shared p w (ground arith))
  mover w (cleaning (c ∷ cs)) s d e inv = inr (father_runs shared p w (ground arith))
  mover w acquiring acquiring d e inv = inr (father_runs shared p w (ground arith))
  mover w acquiring (cleaning []) d e inv = inr (father_runs shared p w (ground arith))
  mover w (closing []) acquiring d e inv = inr (son_runs shared p w (ground arith))
  mover w (closing []) (cleaning []) d e inv = inr (father_runs shared p w (ground arith))
  mover w (cleaning []) acquiring d e inv = absurd (ground (arith, inv.reaped))
  mover w (cleaning []) (cleaning []) d e inv = inl (d, e)

  finish : {w : Pair} → Inv w → Kept p w → BothEnded w → Finished w
  finish inv h (d, e) = ground (arith, inv.log, h.names_left, h.father_left, h.son_left, inv.token)

  pub ends :
      {k : ℕ} {w : Pair}
      → IsTidy p
      → Reach shared p 1 k w
      → (BothEnded w ⊎ CanStep shared p w) × (BothEnded w → Finished w)
  ends {w = w} d r =
      (mover w w.father w.son refl refl (Reach-Inv p r), finish (Reach-Inv p r) (Reach-Kept p d r))

bin_process-IsTidy : IsTidy unnamed_sem_bin_process
bin_process-IsTidy = record {
  names_gone = refl;
  father_gone = refl;
  son_gone = refl;
  son_keeps = tt;
}

pub named_sem_bin-IsTidy : IsTidy named_sem_bin
named_sem_bin-IsTidy = record {
  names_gone = refl;
  father_gone = refl;
  son_gone = refl;
  son_keeps = tt;
}

-- After a `fork` that succeeds, the two processes of unnamed_sem_bin_process end, after at most 21
-- steps, however they interleave: one of them can step until both have ended, and then the father
-- has printed 2 and nothing else, both names of shared memory are removed, neither process has a
-- mapping or a descriptor left, and the semaphore is free.
pub bin_process_adds_two :
    {k : ℕ} {w : Pair}
    → Reach shared unnamed_sem_bin_process 1 k w
    → (BothEnded w ⊎ CanStep shared unnamed_sem_bin_process w)
      × (k ≤ 21)
      × (BothEnded w → Finished w)
bin_process_adds_two {k} {w} r =
    let e = ends unnamed_sem_bin_process bin_process-IsTidy r in
    (e.0, omega (arith, Reach-size unnamed_sem_bin_process r), e.1)
