-- ===== src/Threads/Joined.antt =====
-- What `main` knows of the threads that it has created and joined.
use linux_application_layer.Common.{ℕ, ◌+◌, ◌≤◌, ◌<◌, ◌≡◌, refl, ◌≢◌, some, arith, update}
use linux_application_layer.Threads.{
  Program, creating, joining, finished, System, Step, create, created, run, join, print, init,
  Reach, here, next,
}

module _ {Mem Pc : Type 0} (P : Program Mem Pc) (n : ℕ) where
  open P use {unborn, start, done, body, output, done_stuck, unborn_stuck, stays_born, start_born}

  pub record Joined (s : System Mem Pc) : Type 0 where
    pub unborn_above : (i j : ℕ) → s.main ≡ creating j → j ≤ i → s.pc i ≡ unborn
    pub born_below : (i j : ℕ) → s.main ≡ creating j → i < j → s.pc i ≢ unborn
    pub all_born : (i j : ℕ) → s.main ≡ joining j → i < n → s.pc i ≢ unborn
    pub reaped : (i j : ℕ) → s.main ≡ joining j → i < j → s.pc i ≡ done
    pub all_done : (i v : ℕ) → s.main ≡ finished v → i < n → s.pc i ≡ done
    pub printed : (v : ℕ) → s.main ≡ finished v → v ≡ output s.mem

  Joined-init : (m : Mem) → Joined (init P n m)
  Joined-init m = record {
    unborn_above = λ i j e h. refl;
    born_below = λ i j e h. ground arith;
    all_born = λ i j e h. ground arith;
    reaped = λ i j e h. ground arith;
    all_done = λ i v e h. ground arith;
    printed = λ v e. ground arith;
  }

  Joined-create :
      {s : System Mem Pc} {i : ℕ}
      → s.main ≡ creating i
      → i < n
      → Joined s
      → Joined (record { mem = s.mem; main = creating (i + 1); pc = update s.pc i (start i) })
  Joined-create {s} {i} e lt inv = record {
    unborn_above = λ k j q h. ground (arith, inv.unborn_above k i e);
    born_below = λ k j q h. ground (arith, inv.born_below k i e, start_born i);
    all_born = λ k j q h. ground arith;
    reaped = λ k j q h. ground arith;
    all_done = λ k v q h. ground arith;
    printed = λ v q. ground arith;
  }

  Joined-created :
      {s : System Mem Pc} {i : ℕ}
      → s.main ≡ creating i
      → n ≤ i
      → Joined s
      → Joined (record { mem = s.mem; main = joining 0; pc = s.pc })
  Joined-created {s} {i} e le inv = record {
    unborn_above = λ k j q h. ground arith;
    born_below = λ k j q h. ground arith;
    all_born = λ k j q h. inv.born_below k i e (omega arith);
    reaped = λ k j q h. ground arith;
    all_done = λ k v q h. ground arith;
    printed = λ v q. ground arith;
  }

  Joined-run :
      {s : System Mem Pc} (i : ℕ) {m : Mem} {p : Pc}
      → i < n
      → body s.mem (s.pc i) ≡ some (m, p)
      → Joined s
      → Joined (record { mem = m; main = s.main; pc = update s.pc i p })
  Joined-run {s} i {m} {p} lt e inv = record {
    unborn_above = λ k j q h. ground (arith, inv.unborn_above k j q h, unborn_stuck s.mem);
    born_below = λ k j q h. ground (arith, inv.born_below k j q h, stays_born s.mem m (s.pc i) p e);
    all_born = λ k j q h. ground (arith, inv.all_born k j q h, stays_born s.mem m (s.pc i) p e);
    reaped = λ k j q h. ground (arith, inv.reaped k j q h, done_stuck s.mem);
    all_done = λ k v q h. ground (arith, inv.all_done k v q h, done_stuck s.mem);
    printed = λ v q. ground (arith, inv.printed v q, inv.all_done i v q lt, done_stuck s.mem);
  }

  Joined-join :
      {s : System Mem Pc} {i : ℕ}
      → s.main ≡ joining i
      → i < n
      → s.pc i ≡ done
      → Joined s
      → Joined (record { mem = s.mem; main = joining (i + 1); pc = s.pc })
  Joined-join {s} {i} e lt d inv = record {
    unborn_above = λ k j q h. ground arith;
    born_below = λ k j q h. ground arith;
    all_born = λ k j q h. inv.all_born k i e h;
    reaped = λ k j q h. ground (arith, inv.reaped k i e);
    all_done = λ k v q h. ground arith;
    printed = λ v q. ground arith;
  }

  Joined-print :
      {s : System Mem Pc} {i : ℕ}
      → s.main ≡ joining i
      → n ≤ i
      → Joined s
      → Joined (record { mem = s.mem; main = finished (output s.mem); pc = s.pc })
  Joined-print {s} {i} e le inv = record {
    unborn_above = λ k j q h. ground arith;
    born_below = λ k j q h. ground arith;
    all_born = λ k j q h. ground arith;
    reaped = λ k j q h. ground arith;
    all_done = λ k v q h. inv.reaped k i e (omega arith);
    printed = λ v q. ground arith;
  }

  -- What `main` knows of its threads is kept by every step, of `main` or of a thread.
  pub Step-Joined : {s t : System Mem Pc} → Step P n s t → Joined s → Joined t
  Step-Joined {s} (create e lt) inv = Joined-create {s = s} e lt inv
  Step-Joined {s} (created e le) inv = Joined-created {s = s} e le inv
  Step-Joined {s} (run i lt e) inv = Joined-run {s = s} i lt e inv
  Step-Joined {s} (join e lt d) inv = Joined-join {s = s} e lt d inv
  Step-Joined {s} (print e le) inv = Joined-print {s = s} e le inv

  pub Reach-Joined : {m₀ : Mem} {k : ℕ} {s : System Mem Pc} → Reach P n m₀ k s → Joined s
  Reach-Joined {m₀} here = Joined-init m₀
  Reach-Joined (next r st) = Step-Joined st (Reach-Joined r)
