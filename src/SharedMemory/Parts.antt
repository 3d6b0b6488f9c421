-- ===== src/SharedMemory/Parts.antt =====
-- What the father of shared_memory.c prints in any case: a beginning of the letter.
use linux_application_layer.Common.{
  ℕ, zero, suc, ◌+◌, ◌<◌, ◌≤◌, ◌≡◌, refl, sym, subst, ◌≢◌, inl, inr, Bool, true, some, List, [],
  ◌∷◌, ◌++◌, arith, ◌∙◌, dec_lt, length, get_or, replicate, take, ◌↔◌, climb,
}
use linux_application_layer.SharedMemory.{
  letter, SonPc, copying, FatherPc, sleeping, reading, waiting, unmapping, unlinking_too, finished,
  Letter, son_at, father_at, after_fork, zeroed, Step, by_son, by_father, Run, here, next,
}
use linux_application_layer.SharedMemory.Filled.{copied, Filled, Run-Filled}
use linux_application_layer.SharedMemory.Prints.{Prefix, Part, Reads, Step-Reads}

get_or-replicate {ℓ} : {A : Type ℓ} (n : ℕ) (a : A) (j : ℕ) → get_or (replicate n a) j a ≡ a
get_or-replicate zero a j = refl
get_or-replicate (suc n) a zero = refl
get_or-replicate (suc n) a (suc j) = get_or-replicate n a j

-- No byte of the letter is a NUL.
abbrev IsText : List ℕ → Type 0
IsText [] = Unit
IsText (b ∷ bs) = (0 < b) × IsText bs

text_byte : (xs : List ℕ) → IsText xs → (j : ℕ) → j < length xs → get_or xs j 0 ≢ 0
text_byte [] t j h = absurd (omega arith)
text_byte (b ∷ bs) (p, t) zero h = λ e. ground arith
text_byte (b ∷ bs) (p, t) (suc j) h = text_byte bs t j (omega arith)

pub letter_byte : (j : ℕ) → j < 17 → get_or letter j 0 ≢ 0
letter_byte = text_byte letter (ground arith)

pub fresh-Prefix : {s : Letter} → Filled zeroed s → Prefix 0 s
fresh-Prefix {s} h = record {
  bytes = λ j l. elim (dec_lt j (copied s.son)) [
    | yes d ↦ inr (h.done j d)
    | no n ↦ inl (h.ahead j (omega (arith, n)) ∙ get_or-replicate 100 0 j)
  ];
  stop = elim (dec_lt 17 (copied s.son)) [
    | yes d ↦ h.done 17 d
    | no n ↦ h.ahead 17 (omega (arith, n)) ∙ get_or-replicate 100 0 17
  ];
  full = λ j l. absurd (omega arith);
}

abbrev pub fresh : Letter
fresh = after_fork zeroed true

pub fresh-Reads :
    (b : Bool) {k : ℕ} {s : Letter} → Run (after_fork zeroed b) k s → Reads 0 s.father s.printed
fresh-Reads b here = refl
fresh-Reads b (next r st) =
    Step-Reads 0 st (fresh-Prefix (Run-Filled zeroed b refl r)) (fresh-Reads b r)

-- The father has printed `v`, and nothing else.
abbrev pub CanPrint : List ℕ → Type 0
CanPrint v = (s : Letter) × (((k : ℕ) × Run fresh k s) × (s.printed ≡ v ∷ []))

printed_beginning :
    (p : FatherPc) {log : List (List ℕ)} (v : List ℕ) → Reads 0 p log → log ≡ v ∷ [] → Part 0 v
printed_beginning sleeping v r e = absurd (ground (arith, r))
printed_beginning (reading i seen) v r e = absurd (ground (arith, r))
printed_beginning waiting v (u, (p, q)) e = subst (Part 0) (ground arith) p
printed_beginning unmapping v (u, (p, q)) e = subst (Part 0) (ground arith) p
printed_beginning unlinking_too v (u, (p, q)) e = subst (Part 0) (ground arith) p
printed_beginning finished v (u, (p, q)) e = subst (Part 0) (ground arith) p

son_step : {s t : Letter} (p : SonPc) → s.son ≡ p → son_at p s ≡ some t → Step s t
son_step {s} {t} p q e = by_son (subst (λ x. son_at x s ≡ some t) (sym q) e)

father_step : {s t : Letter} (p : FatherPc) → s.father ≡ p → father_at p s ≡ some t → Step s t
father_step {s} {t} p q e = by_father (subst (λ x. father_at x s ≡ some t) (sym q) e)

-- The son has copied `i` bytes, and the father sleeps.
record Copied (i : ℕ) : Type 0 where
  steps : ℕ
  last : Letter
  run : Run fresh steps last
  son : last.son ≡ copying i
  father : last.father ≡ sleeping

copy_one : (j : ℕ) → j < 17 → Copied j → Copied (j + 1)
unfolding son_at
copy_one j l c = record {
  steps = suc c.steps;
  last = _;
  run = next c.run (son_step (copying j) c.son refl);
  son = ground arith;
  father = c.father;
}

copy_to : (i : ℕ) → i ≤ 17 → Copied i
copy_to i h =
    climb Copied i (λ j l c. copy_one j (omega arith) c) 0 (omega arith)
      (record { steps = 0; last = fresh; run = here; son = refl; father = refl })

-- The son has copied `i` bytes, and the father has read `j` of them.
record Seen (i j : ℕ) : Type 0 where
  steps : ℕ
  last : Letter
  seen : List ℕ
  run : Run fresh steps last
  son : last.son ≡ copying i
  father : last.father ≡ reading j seen

wake_up : (i : ℕ) → Copied i → Seen i 0
unfolding father_at
wake_up i c = record {
  steps = suc c.steps;
  last = _;
  seen = [];
  run = next c.run (father_step sleeping c.father refl);
  son = c.son;
  father = refl;
}

see_one : (i j : ℕ) → i ≤ 17 → j < i → Seen i j → Seen i (j + 1)
unfolding father_at
see_one i j h l c =
    let f = Run-Filled zeroed true refl c.run in
    let byte : get_or c.last.share j 0 ≡ get_or letter j 0 = f.done j (rw c.son l) in
    let there : get_or c.last.share j 0 ≢ 0 = rw byte (letter_byte j (omega arith)) in
    record {
      steps = suc c.steps;
      last = _;
      seen = c.seen ++ (get_or c.last.share j 0 ∷ []);
      run = next c.run (father_step (reading j c.seen) c.father refl);
      son = ground arith;
      father = ground arith;
    }

see_all : (i : ℕ) → i ≤ 17 → Seen i i
see_all i h =
    climb (Seen i) i (λ j l c. see_one i j h l c) 0 (omega arith) (wake_up i (copy_to i h))

-- The next byte is a zero: the one that follows the letter, or one that the son has not reached.
prints_seen : (i : ℕ) → i ≤ 17 → CanPrint (take i letter)
unfolding father_at
prints_seen i h =
    let c = see_all i h in
    let f = Run-Filled zeroed true refl c.run in
    let nul : get_or c.last.share i 0 ≡ 0 =
      f.ahead i (rw c.son (omega arith)) ∙ get_or-replicate 100 0 i in
    let reads = subst (λ p. Reads 0 p c.last.printed) c.father (fresh-Reads true c.run) in
    let run = next c.run (father_step (reading i c.seen) c.father refl) in
    (_, ((_, run), ground (arith, nul, reads)))

-- The father of shared_memory.c, on a new object and after a `fork` that succeeds, prints a beginning
-- of the letter of at most 17 bytes, and each of them in some run: its `sleep` orders nothing.
pub prints_parts : (v : List ℕ) → CanPrint v ↔ Part 0 v
prints_parts v = (
  λ c. printed_beginning c.0.father v (fresh-Reads true c.1.0.1) c.1.1,
  λ p. subst CanPrint (sym p.1.2) (prints_seen p.0 p.1.1),
)
