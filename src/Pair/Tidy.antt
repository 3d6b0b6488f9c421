-- ===== src/Pair/Tidy.antt =====
-- Under any guard: how far the two processes still have to go, and what they leave behind.
use linux_application_layer.Common.{ℕ, ◌+◌, ◌≡◌, refl, some, List, [], ◌∷◌, ◌++◌, arith, length}
use linux_application_layer.Counter.Lock.{sem_wait, sem_post}
use linux_application_layer.Pair.Resources.{
  Cleanup, sem_destroy, release, unlink, sweep_names, sweep_held, KeepsNames,
}
use linux_application_layer.Pair.{
  Guard, shared, own, absent, Pc, acquiring, reading, releasing, printing, writing, closing,
  cleaning, Pair, Program, father_at, son_at, by_father, by_son, Reach, start, next,
}

-- The calls of a program give back all that it has made before `fork`.
pub record IsTidy (p : Program) : Type 0 where
  pub names_gone : sweep_names (p.before_wait ++ p.father_end) p.names ≡ []
  pub father_gone : sweep_held (p.before_wait ++ p.father_end) p.held ≡ []
  pub son_gone : sweep_held p.son_end p.held ≡ []
  pub son_keeps : KeepsNames p.son_end

module _ (p : Program) where
  -- The clean-up calls that are still to come.
  abbrev pub father_rest : Pc → List Cleanup
  father_rest (closing cs) = cs ++ p.father_end
  father_rest (cleaning cs) = cs
  father_rest printing = p.father_end
  father_rest _ = p.before_wait ++ p.father_end

  abbrev pub son_rest : Pc → List Cleanup
  son_rest (cleaning cs) = cs
  son_rest _ = p.son_end

  pub record Kept (w : Pair) : Type 0 where
    pub names_left : sweep_names (father_rest w.father) w.names ≡ []
    pub father_left : sweep_held (father_rest w.father) w.father_held ≡ []
    pub son_left : sweep_held (son_rest w.son) w.son_held ≡ []
    pub son_keeps : KeepsNames (son_rest w.son)

  abbrev pub father_size : Pc → ℕ
  father_size acquiring = 6 + length p.before_wait + length p.father_end
  father_size reading = 5 + length p.before_wait + length p.father_end
  father_size (writing _) = 4 + length p.before_wait + length p.father_end
  father_size releasing = 3 + length p.before_wait + length p.father_end
  father_size (closing cs) = 2 + length cs + length p.father_end
  father_size printing = 1 + length p.father_end
  father_size (cleaning cs) = length cs

  abbrev pub son_size : Pc → ℕ
  son_size acquiring = 4 + length p.son_end
  son_size reading = 3 + length p.son_end
  son_size (writing _) = 2 + length p.son_end
  son_size releasing = 1 + length p.son_end
  son_size (cleaning cs) = length cs
  son_size _ = 0

  father-Kept :
      (g : Guard) (w : Pair) {t : Pair} (pc : Pc)
      → w.father ≡ pc
      → father_at g p pc w ≡ some t
      → Kept w
      → Kept t
  unfolding father_at sem_wait sem_post
  father-Kept shared w acquiring q e h = ground arith
  father-Kept own w acquiring q e h = ground arith
  father-Kept absent w acquiring q e h = ground arith
  father-Kept g w reading q e h = ground arith
  father-Kept g w (writing tmp) q e h = ground arith
  father-Kept shared w releasing q e h = ground arith
  father-Kept own w releasing q e h = ground arith
  father-Kept absent w releasing q e h = ground arith
  father-Kept g w (closing []) q e h = ground arith
  father-Kept g w (closing (c ∷ cs)) q e h = ground arith
  father-Kept g w printing q e h = ground arith
  father-Kept g w (cleaning []) q e h = ground arith
  father-Kept g w (cleaning (c ∷ cs)) q e h = ground arith

  son-Kept :
      (g : Guard) (w : Pair) {t : Pair} (pc : Pc)
      → w.son ≡ pc
      → son_at g p pc w ≡ some t
      → Kept w
      → Kept t
  unfolding son_at sem_wait sem_post
  son-Kept shared w acquiring q e h = ground arith
  son-Kept own w acquiring q e h = ground arith
  son-Kept absent w acquiring q e h = ground arith
  son-Kept g w reading q e h = ground arith
  son-Kept g w (writing tmp) q e h = ground arith
  son-Kept shared w releasing q e h = ground arith
  son-Kept own w releasing q e h = ground arith
  son-Kept absent w releasing q e h = ground arith
  son-Kept g w (closing cs) q e h = ground arith
  son-Kept g w printing q e h = ground arith
  son-Kept g w (cleaning []) q e h = ground arith
  son-Kept g w (cleaning (sem_destroy ∷ cs)) q e h = ground arith
  son-Kept g w (cleaning (release r ∷ cs)) q e h = ground arith
  son-Kept g w (cleaning (unlink r ∷ cs)) q e h = ground arith

  pub Reach-Kept : {g : Guard} {n k : ℕ} {w : Pair} → IsTidy p → Reach g p n k w → Kept w
  Reach-Kept d start = record {
    names_left = d.names_gone;
    father_left = d.father_gone;
    son_left = d.son_gone;
    son_keeps = d.son_keeps;
  }
  Reach-Kept d (next {w = w} r (by_father e)) = father-Kept _ w w.father refl e (Reach-Kept d r)
  Reach-Kept d (next {w = w} r (by_son e)) = son-Kept _ w w.son refl e (Reach-Kept d r)

  father_shrinks :
      (g : Guard) (w : Pair) {t : Pair} (pc : Pc)
      → w.father ≡ pc
      → father_at g p pc w ≡ some t
      → father_size w.father + son_size w.son ≡ 1 + father_size t.father + son_size t.son
  unfolding father_at sem_wait sem_post
  father_shrinks shared w acquiring q e = ground arith
  father_shrinks own w acquiring q e = ground arith
  father_shrinks absent w acquiring q e = ground arith
  father_shrinks g w reading q e = ground arith
  father_shrinks g w (writing tmp) q e = ground arith
  father_shrinks shared w releasing q e = ground arith
  father_shrinks own w releasing q e = ground arith
  father_shrinks absent w releasing q e = ground arith
  father_shrinks g w (closing []) q e = ground arith
  father_shrinks g w (closing (c ∷ cs)) q e = ground arith
  father_shrinks g w printing q e = ground arith
  father_shrinks g w (cleaning []) q e = ground arith
  father_shrinks g w (cleaning (c ∷ cs)) q e = ground arith

  son_shrinks :
      (g : Guard) (w : Pair) {t : Pair} (pc : Pc)
      → w.son ≡ pc
      → son_at g p pc w ≡ some t
      → father_size w.father + son_size w.son ≡ 1 + father_size t.father + son_size t.son
  unfolding son_at sem_wait sem_post
  son_shrinks shared w acquiring q e = ground arith
  son_shrinks own w acquiring q e = ground arith
  son_shrinks absent w acquiring q e = ground arith
  son_shrinks g w reading q e = ground arith
  son_shrinks g w (writing tmp) q e = ground arith
  son_shrinks shared w releasing q e = ground arith
  son_shrinks own w releasing q e = ground arith
  son_shrinks absent w releasing q e = ground arith
  son_shrinks g w (closing cs) q e = ground arith
  son_shrinks g w printing q e = ground arith
  son_shrinks g w (cleaning []) q e = ground arith
  son_shrinks g w (cleaning (c ∷ cs)) q e = ground arith

  -- Each step brings the two nearer to their end by one.
  pub Reach-size :
      {g : Guard} {n k : ℕ} {w : Pair}
      → Reach g p n k w
      → k + father_size w.father + son_size w.son ≡ father_size acquiring + son_size acquiring
  Reach-size start = omega arith
  Reach-size (next {w = w} r (by_father e)) =
      omega (arith, Reach-size r, father_shrinks _ w w.father refl e)
  Reach-size (next {w = w} r (by_son e)) = omega (arith, Reach-size r, son_shrinks _ w w.son refl e)
