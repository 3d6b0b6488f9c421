-- ===== src/SonFirst/Order.antt =====
-- Who prints first.
use linux_application_layer.Common.{
  ℕ, zero, suc, ◌+◌, ◌≡◌, refl, ◌≢◌, ◌⊎◌, ◌↔◌, some, List, [], ◌∷◌, arith,
}
use linux_application_layer.Counter.Lock.{sem_wait, sem_post}
use linux_application_layer.SonFirst.{
  Line, father_line, son_line, Pc, waiting, printing, reaping, posting, ending, Pair, Program,
  father_at, son_at, by_father, by_son, Reach, start, next,
}

-- The permits that the father has taken, and those that the son has given.
abbrev pub taken : Pc → ℕ
taken waiting = 0
taken _ = 1

abbrev pub given : Pc → ℕ
given (ending _) = 1
given _ = 0

-- What stands in the output, with the father and the son at these points.
abbrev pub Shown : Pc → Pc → List Line → Type 0
Shown waiting printing out = out ≡ []
Shown printing printing out = out ≡ []
Shown waiting _ out = out ≡ son_line ∷ []
Shown printing _ out = out ≡ son_line ∷ []
Shown _ printing out = out ≡ father_line ∷ []
Shown _ _ out = (out ≡ father_line ∷ son_line ∷ []) ⊎ (out ≡ son_line ∷ father_line ∷ [])

abbrev pub Fathers : Pc → Type 0
Fathers posting = ⊥
Fathers _ = Unit

abbrev pub Sons : Pc → Type 0
Sons waiting = ⊥
Sons reaping = ⊥
Sons _ = Unit

abbrev pub Reaped : Pc → Pc → Type 0
Reaped (ending _) son = son ≡ ending []
Reaped _ son = Unit

pub record Inv (v : ℕ) (w : Pair) : Type 0 where
  pub permits : w.sem + taken w.father ≡ v + given w.son
  pub shown : Shown w.father w.son w.output
  pub fathers : Fathers w.father
  pub sons : Sons w.son
  pub reaped : Reaped w.father w.son
  pub in_order :
      v ≡ 0 → (taken w.father ≡ 1 → given w.son ≡ 1) × (w.output ≢ son_line ∷ father_line ∷ [])

module _ (p : Program) (v : ℕ) where
  father-Inv :
      {w t : Pair} (pc : Pc) → w.father ≡ pc → father_at p pc w ≡ some t → Inv v w → Inv v t
  unfolding father_at sem_wait sem_post
  father-Inv {w} waiting q e inv = ground arith
  father-Inv {w} printing q e inv = ground arith
  father-Inv {w} reaping q e inv = ground arith
  father-Inv {w} posting q e inv = ground arith
  father-Inv {w} (ending []) q e inv = ground arith
  father-Inv {w} (ending (c ∷ cs)) q e inv = ground arith

  son-Inv : {w t : Pair} (pc : Pc) → w.son ≡ pc → son_at p pc w ≡ some t → Inv v w → Inv v t
  unfolding son_at sem_wait sem_post
  son-Inv {w} waiting q e inv = ground arith
  son-Inv {w} printing q e inv = ground arith
  son-Inv {w} reaping q e inv = ground arith
  son-Inv {w} posting q e inv = ground arith
  son-Inv {w} (ending []) q e inv = ground arith
  son-Inv {w} (ending (c ∷ cs)) q e inv = ground arith

  pub Reach-Inv : {k : ℕ} {w : Pair} → Reach p v k w → Inv v w
  Reach-Inv start = ground arith
  Reach-Inv (next {w = w} r (by_father e)) = father-Inv w.father refl e (Reach-Inv r)
  Reach-Inv (next {w = w} r (by_son e)) = son-Inv w.son refl e (Reach-Inv r)

-- In some run the father prints before the son.
abbrev pub FatherFirst : Program → (v : ℕ) → Type 0
FatherFirst p v = (k : ℕ) × (w : Pair) × Reach p v k w × (w.output ≡ father_line ∷ [])

taken_once :
    (w : Pair) (f s : Pc) → w.father ≡ f → w.son ≡ s → Inv 0 w → w.output ≢ father_line ∷ []
taken_once w waiting s d e inv h = ground (arith, inv.shown)
taken_once w printing s d e inv h = ground (arith, inv.shown)
taken_once w posting s d e inv h = absurd (ground (arith, inv.fathers))
taken_once w reaping s d e inv h = ground (arith, inv.shown, inv.in_order)
taken_once w (ending cs) s d e inv h = ground (arith, inv.shown, inv.in_order)

-- In each of the three programs the father can print before the son exactly if the semaphore does
-- not start at zero, as it may where one of its name was left in the system.
pub FatherFirst-iff : (p : Program) (v : ℕ) → FatherFirst p v ↔ (v ≢ 0)
unfolding father_at sem_wait
FatherFirst-iff p zero = (
  λ (k, w, r, e) z. taken_once w w.father w.son refl refl (Reach-Inv p 0 r) e,
  λ h. absurd (h refl),
)
FatherFirst-iff p (suc m) =
    (λ f z. ground arith, λ h. (2, _, next (next start (by_father refl)) (by_father refl), refl))
