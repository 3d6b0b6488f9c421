-- ===== src/Pair/Invariant.antt =====
-- With a semaphore that both processes see and that starts at one: they add one after the other.
use linux_application_layer.Common.{ℕ, ◌+◌, ◌≡◌, refl, some, List, [], ◌∷◌, arith}
use linux_application_layer.Counter.Lock.{sem_wait, sem_post}
use linux_application_layer.Pair.{
  shared, Pc, acquiring, reading, releasing, printing, writing, closing, cleaning, Pair, Program,
  father_at, son_at, forked, by_father, by_son, Reach, start, next,
}

abbrev pub inside : Pc → ℕ
inside reading = 1
inside (writing _) = 1
inside releasing = 1
inside _ = 0

abbrev pub to_add : Pc → ℕ
to_add acquiring = 1
to_add reading = 1
to_add (writing _) = 1
to_add _ = 0

abbrev pub to_print : Pc → ℕ
to_print (cleaning _) = 0
to_print _ = 1

-- What `tmp` is to hold.
abbrev pub TmpIs : ℕ → Pc → Type 0
TmpIs v (writing tmp) = tmp ≡ v + 1
TmpIs v _ = Unit

abbrev pub Sons : Pc → Type 0
Sons (closing _) = ⊥
Sons printing = ⊥
Sons _ = Unit

-- After its `waitpid` the father knows that the son has ended.
abbrev pub Reaped : Pc → Pc → Type 0
Reaped printing son = son ≡ cleaning []
Reaped (cleaning _) son = son ≡ cleaning []
Reaped _ son = Unit

abbrev pub Printed : Pc → List ℕ → Type 0
Printed (cleaning _) log = log ≡ 2 ∷ []
Printed _ log = log ≡ []

pub record Inv (w : Pair) : Type 0 where
  pub token : w.sem + inside w.father + inside w.son ≡ 1
  pub sum : w.value + to_add w.father + to_add w.son ≡ 2
  pub father_tmp : TmpIs w.value w.father
  pub son_tmp : TmpIs w.value w.son
  pub sons : Sons w.son
  pub reaped : Reaped w.father w.son
  pub log : Printed w.father w.printed

module _ (p : Program) where
  Inv-forked : Inv (forked p 1)
  Inv-forked = ground arith

  father-Inv :
      {w t : Pair} (pc : Pc) → w.father ≡ pc → father_at shared p pc w ≡ some t → Inv w → Inv t
  unfolding father_at sem_wait sem_post
  father-Inv {w} acquiring q e inv = ground arith
  father-Inv {w} reading q e inv = ground arith
  father-Inv {w} (writing tmp) q e inv = ground arith
  father-Inv {w} releasing q e inv = ground arith
  father-Inv {w} (closing []) q e inv = ground arith
  father-Inv {w} (closing (c ∷ cs)) q e inv = ground arith
  father-Inv {w} printing q e inv = ground arith
  father-Inv {w} (cleaning []) q e inv = ground arith
  father-Inv {w} (cleaning (c ∷ cs)) q e inv = ground arith

  son-Inv : {w t : Pair} (pc : Pc) → w.son ≡ pc → son_at shared p pc w ≡ some t → Inv w → Inv t
  unfolding son_at sem_wait sem_post
  son-Inv {w} acquiring q e inv = ground arith
  son-Inv {w} reading q e inv = ground arith
  son-Inv {w} (writing tmp) q e inv = ground arith
  son-Inv {w} releasing q e inv = ground arith
  son-Inv {w} (closing cs) q e inv = ground arith
  son-Inv {w} printing q e inv = ground arith
  son-Inv {w} (cleaning []) q e inv = ground arith
  son-Inv {w} (cleaning (c ∷ cs)) q e inv = ground arith

  pub Reach-Inv : {k : ℕ} {w : Pair} → Reach shared p 1 k w → Inv w
  Reach-Inv start = Inv-forked
  Reach-Inv (next {w = w} r (by_father e)) = father-Inv w.father refl e (Reach-Inv r)
  Reach-Inv (next {w = w} r (by_son e)) = son-Inv w.son refl e (Reach-Inv r)
