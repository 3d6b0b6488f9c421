-- ===== src/Counter/Racy/Attained.antt =====
-- Without a lock every number from 1 to the number of threads is printed in some schedule: `k - 1`
-- threads run alone, the others all read, and then all write.
use linux_application_layer.Common.{
  ℕ, ◌+◌, ◌-◌, ◌^◌, ◌≤◌, ◌<◌, ◌≡◌, refl, arith, update, ltb, if◌then◌else◌, climb,
}
use linux_application_layer.Threads.{
  Reach, System, Main, creating, joining, finished, create, created, run, join, print, here, next,
}
use linux_application_layer.Counter.Racy.{Pc, unborn, start, loaded, done, add_one, program}

-- Threads below `a` have returned, those below `b` have read, those below `c` are created.
abbrev shape : (k a b c : ℕ) → ℕ → Pc
shape k a b c i =
    if ltb i a then done else if ltb i b then loaded k else if ltb i c then start else unborn

module _ (n k : ℕ) (pos : 0 < k) (le : k ≤ n) (few : n < 2 ^ 32) where
  -- A state of that shape is reached.
  record Shaped (m : Main) (num a b c : ℕ) : Type 0 where
    steps : ℕ
    pc : ℕ → Pc
    reach : Reach program n 0 steps (record { mem = num; main = m; pc = pc })
    shaped : (i : ℕ) → pc i ≡ shape k a b c i

  create_one :
      (j : ℕ) → j < n → Shaped (creating j) 0 0 0 j → Shaped (creating (j + 1)) 0 0 0 (j + 1)
  create_one j lt r = record {
    steps = r.steps + 1;
    pc = update r.pc j start;
    reach = next r.reach (create refl lt);
    shaped = λ i. ground (arith, r.shaped i);
  }

  none_created : Shaped (creating 0) 0 0 0 0
  none_created = record { steps = 0; pc = λ _. unborn; reach = here; shaped = λ i. ground arith }

  all_created : Shaped (joining 0) 0 0 0 n
  all_created =
      let r = climb (λ j. Shaped (creating j) 0 0 0 j) n create_one 0 (omega arith) none_created in
      record {
        steps = r.steps + 1;
        pc = r.pc;
        reach = next r.reach (created refl (omega arith));
        shaped = r.shaped;
      }

  -- Thread `a` reads and writes with no other between.
  alone :
      (a : ℕ)
      → a < k - 1
      → Shaped (joining 0) a a a n
      → Shaped (joining 0) (a + 1) (a + 1) (a + 1) n
  unfolding add_one
  alone a lt r = record {
    steps = r.steps + 1 + 1;
    pc = update (update r.pc a (loaded (a + 1))) a done;
    reach =
        next
          (next r.reach
            (run a {m = a} {p = loaded (a + 1)} (omega arith) (ground (arith, r.shaped a))))
          (run a {m = a + 1} {p = done} (omega arith) (ground arith));
    shaped = λ i. ground (arith, r.shaped i);
  }

  some_alone : Shaped (joining 0) (k - 1) (k - 1) (k - 1) n
  some_alone = climb (λ a. Shaped (joining 0) a a a n) (k - 1) alone 0 (omega arith) all_created

  abbrev AllAfter : ℕ → Type 0
  AllAfter b = (k - 1 ≤ b) × Shaped (joining 0) (k - 1) (k - 1) b n

  read_one : (b : ℕ) → b < n → AllAfter b → AllAfter (b + 1)
  unfolding add_one
  read_one b lt (ge, r) = (
    omega arith,
    record {
      steps = r.steps + 1;
      pc = update r.pc b (loaded k);
      reach = next r.reach (run b {m = k - 1} {p = loaded k} lt (ground (arith, r.shaped b)));
      shaped = λ i. ground (arith, r.shaped i);
    },
  )

  all_read : Shaped (joining 0) (k - 1) (k - 1) n n
  all_read = (climb AllAfter n read_one (k - 1) (omega arith) (omega arith, some_alone)).1

  write_first : Shaped (joining 0) k k n n
  unfolding add_one
  write_first =
      let r = all_read in
      record {
        steps = r.steps + 1;
        pc = update r.pc (k - 1) done;
        reach =
            next r.reach
              (run (k - 1) {m = k} {p = done} (omega arith) (ground (arith, r.shaped (k - 1))));
        shaped = λ i. ground (arith, r.shaped i);
      }

  write_one : (a : ℕ) → a < n → Shaped (joining 0) k a n n → Shaped (joining 0) k (a + 1) n n
  unfolding add_one
  write_one a lt r = record {
    steps = r.steps + 1;
    pc = update r.pc a done;
    reach = next r.reach (run a {m = k} {p = done} lt (ground (arith, r.shaped a)));
    shaped = λ i. ground (arith, r.shaped i);
  }

  join_one : (j : ℕ) → j < n → Shaped (joining j) k n n n → Shaped (joining (j + 1)) k n n n
  join_one j lt r = record {
    steps = r.steps + 1;
    pc = r.pc;
    reach = next r.reach (join refl lt (ground (arith, r.shaped j)));
    shaped = r.shaped;
  }

  -- Some schedule makes `main` print `k`, whatever `k` between 1 and the number of threads.
  pub prints_any :
      (steps : ℕ) × (s : System ℕ Pc) × Reach program n 0 steps s × (s.main ≡ finished k)
  prints_any =
      let w = climb (λ a. Shaped (joining 0) k a n n) n write_one k le write_first in
      let r = climb (λ j. Shaped (joining j) k n n n) n join_one 0 (omega arith) w in
      (r.steps + 1, _, next r.reach (print refl (omega arith)), refl)
