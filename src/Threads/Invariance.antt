-- ===== src/Threads/Invariance.antt =====
-- A relation between memory and program points that thread creation and every thread step keep holds
-- in each state that a run reaches.
use linux_application_layer.Common.{ℕ, ◌<◌, ◌≡◌, some, arith, update}
use linux_application_layer.Threads.{
  Program, System, create, created, run, join, print, Reach, here, next,
}
use linux_application_layer.Threads.Joined.{Reach-Joined}

module _ {ℓ} {Mem Pc : Type 0} (P : Program Mem Pc) (n : ℕ) (Holds : Mem → (ℕ → Pc) → Type ℓ)
    (on_create : (m : Mem) (pc : ℕ → Pc) (i : ℕ)
      → i < n
      → pc i ≡ P.unborn
      → Holds m pc
      → Holds m (update pc i (P.start i)))
    (on_run : (m m' : Mem) (pc : ℕ → Pc) (i : ℕ) (p : Pc)
      → i < n
      → P.body m (pc i) ≡ some (m', p)
      → Holds m pc
      → Holds m' (update pc i p)) where
  pub Reach-holds :
      {m₀ : Mem} {k : ℕ} {s : System Mem Pc}
      → Holds m₀ (λ _. P.unborn)
      → Reach P n m₀ k s
      → Holds s.mem s.pc
  Reach-holds h here = h
  Reach-holds h (next {s = s} r (create {i} e lt)) =
      on_create s.mem s.pc i lt ((Reach-Joined P n r).unborn_above i i e (omega arith))
        (Reach-holds h r)
  Reach-holds h (next r (created e le)) = Reach-holds h r
  Reach-holds h (next {s = s} r (run i {m = m} {p = p} lt e)) =
      on_run s.mem m s.pc i p lt e (Reach-holds h r)
  Reach-holds h (next r (join e lt d)) = Reach-holds h r
  Reach-holds h (next r (print e le)) = Reach-holds h r
