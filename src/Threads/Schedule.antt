-- ===== src/Threads/Schedule.antt =====
-- Reachable states by evaluation: `main` and the threads take turns in a given order.
use linux_application_layer.Common.{
  ℕ, ◌<◌, ◌≡◌, refl, Option, none, some, List, [], ◌∷◌, arith, dec_lt,
}
use linux_application_layer.Threads.{
  Program, Main, creating, joining, finished, System, create, created, run, join, print, init,
  Reach, here, next,
}

pub data Turn : Type 0 where
  main : Turn
  thread : ℕ → Turn

module _ {Mem Pc : Type 0} (P : Program Mem Pc) (same : (p : Pc) → Dec (p ≡ P.done)) (n : ℕ) where
  pub record Run (m₀ : Mem) : Type 0 where
    pub steps : ℕ
    pub last : System Mem Pc
    pub reach : Reach P n m₀ steps last

  main_turn : {m₀ : Mem} (r : Run m₀) (m : Main) → r.last.main ≡ m → Run m₀
  unfolding dec_lt
  main_turn r (creating i) e = elim (dec_lt i n) [
    | yes lt ↦ record { steps = _; last = _; reach = next r.reach (create e lt) }
    | no ge ↦ record { steps = _; last = _; reach = next r.reach (created e (omega arith)) }
  ]
  main_turn r (joining i) e = elim (dec_lt i n) [
    | yes lt ↦ elim (same (r.last.pc i)) [
      | yes d ↦ record { steps = _; last = _; reach = next r.reach (join e lt d) }
      | no _ ↦ r
    ]
    | no ge ↦ record { steps = _; last = _; reach = next r.reach (print e (omega arith)) }
  ]
  main_turn r (finished v) e = r

  thread_turn :
      {m₀ : Mem} (r : Run m₀) (i : ℕ) (o : Option (Mem × Pc))
      → i < n
      → P.body r.last.mem (r.last.pc i) ≡ o
      → Run m₀
  thread_turn r i none lt e = r
  thread_turn r i (some (m, p)) lt e = record {
    steps = _;
    last = _;
    reach = next r.reach (run i lt e);
  }

  turn : {m₀ : Mem} → Turn → Run m₀ → Run m₀
  unfolding main_turn thread_turn dec_lt
  turn main r = main_turn r r.last.main refl
  turn (thread i) r = elim (dec_lt i n) [
    | yes lt ↦ thread_turn r i (P.body r.last.mem (r.last.pc i)) lt refl
    | no _ ↦ r
  ]

  play : {m₀ : Mem} → Run m₀ → List Turn → Run m₀
  unfolding turn
  play r [] = r
  play r (t ∷ ts) = play (turn t r) ts

  unfoldable pub schedule : (m₀ : Mem) → List Turn → Run m₀
  unfolding play
  schedule m₀ ts = play (record { steps = 0; last = init P n m₀; reach = here }) ts
