-- ===== src/SharedMemory/Whole.antt =====
-- What the father of shared_memory.c prints where its second was long enough: the whole letter.
use linux_application_layer.Common.{
  ℕ, ◌≤◌, ◌≡◌, refl, sym, subst, ap, ◌≢◌, inr, true, some, List, [], ◌∷◌, arith, ◌∙◌, length, take,
}
use linux_application_layer.SharedMemory.{
  letter, wait, SonPc, copying, telling, unlinking, ended, never, FatherPc, sleeping, reading,
  waiting, unmapping, unlinking_too, finished, Letter, son_at, father_at, after_fork, Step, by_son,
  by_father, Run, here, next,
}
use linux_application_layer.SharedMemory.Filled.{
  copied, Filled, Run-Filled, Step-Filled, father-Apart,
}
use linux_application_layer.SharedMemory.Parts.{letter_byte}
use linux_application_layer.SharedMemory.Prints.{Prefix, Reads, Step-Reads, son-Aside}

done-Prefix : (old : List ℕ) {s : Letter} → copied s.son ≡ 18 → Filled old s → Prefix 17 s
done-Prefix old {s} q h = record {
  bytes = λ j l. inr (h.done j (omega arith));
  stop = h.done 17 (omega arith);
  full = λ j l e. letter_byte j l (sym (h.done j (omega arith)) ∙ e);
}

-- Once the son has copied all, it stays so.
son_done :
    (s t : Letter) (p : SonPc)
    → copied p ≡ 18
    → ((i : ℕ) → p ≡ copying i → i ≤ 17)
    → son_at p s ≡ some t
    → copied t.son ≡ 18
unfolding son_at
son_done s t (copying i) d h e = absurd (ground (arith, h i refl))
son_done s t telling d h e = ground arith
son_done s t unlinking d h e = ground arith
son_done s t ended d h e = ground arith
son_done s t never d h e = ground arith

record Late (old : List ℕ) (s : Letter) : Type 0 where
  filled : Filled old s
  done : copied s.son ≡ 18
  reads : Reads 17 s.father s.printed

Step-Late : (old : List ℕ) {s t : Letter} → Step s t → Late old s → Late old t
Step-Late old {s} {t} st h = record {
  filled = Step-Filled old st h.filled;
  done = stays st;
  reads = Step-Reads 17 st (done-Prefix old h.done h.filled) h.reads;
}
  where
    stays : Step s t → copied t.son ≡ 18
    stays (by_son e) = son_done s t s.son h.done h.filled.at_work e
    stays (by_father e) = ap copied (father-Apart s.father e).son_kept ∙ h.done

Run-Late : (old : List ℕ) {s : Letter} {k : ℕ} {t : Letter} → Run s k t → Late old s → Late old t
Run-Late old here h = h
Run-Late old (next r st) h = Step-Late old st (Run-Late old r h)

-- What a father has printed that started to read after `strcpy` returned.
abbrev pub HasLetter : FatherPc → List (List ℕ) → Type 0
HasLetter sleeping log = log ≡ []
HasLetter (reading i seen) log = log ≡ []
HasLetter _ log = log ≡ letter ∷ []

all_of_it : (log : List (List ℕ)) → Reads 17 waiting log → log ≡ letter ∷ []
all_of_it log (v, ((i, (a, b, e)), q)) =
    let i17 : i ≡ 17 = omega (arith, a, b) in q ∙ ap (λ x. x ∷ []) (e ∙ ap (λ n. take n letter) i17)

at_any_point : (p : FatherPc) (log : List (List ℕ)) → Reads 17 p log → HasLetter p log
at_any_point sleeping log r = r
at_any_point (reading i seen) log r = r.0
at_any_point waiting log r = all_of_it log r
at_any_point unmapping log r = all_of_it log r
at_any_point unlinking_too log r = all_of_it log r
at_any_point finished log r = all_of_it log r

wakes_once : (s t : Letter) (p : FatherPc) → father_at p s ≡ some t → t.father ≢ sleeping
unfolding father_at
wakes_once s t sleeping e = ground arith
wakes_once s t (reading i seen) e = ground arith
wakes_once s t waiting e = wait_on s.son e
  where
    wait_on : (p : SonPc) → wait p s ≡ some t → t.father ≢ sleeping
    wait_on (copying i) e = ground arith
    wait_on telling e = ground arith
    wait_on unlinking e = ground arith
    wait_on ended e = ground arith
    wait_on never e = ground arith
wakes_once s t unmapping e = ground arith
wakes_once s t unlinking_too e = ground arith
wakes_once s t finished e = ground arith

-- A father that sleeps has printed nothing.
sleeper_silent :
    (old : List ℕ) {k : ℕ} {s : Letter}
    → Run (after_fork old true) k s
    → s.father ≡ sleeping
    → s.printed ≡ []
sleeper_silent old here q = refl
sleeper_silent old (next {t} r (by_father e)) q = absurd (wakes_once t _ t.father e q)
sleeper_silent old (next {t} {u} r (by_son e)) q =
    let a = son-Aside t u t.son e in a.printed_kept ∙ sleeper_silent old r (sym a.father_kept ∙ q)

-- A letter goes through the shared bytes unchanged: where the father wakes up after the son's
-- `strcpy` has returned, it prints the whole letter, once, whatever an object of that name held
-- before.
pub whole_letter :
    (old : List ℕ) {j k : ℕ} {s t : Letter}
    → length old ≡ 100
    → Run (after_fork old true) j s
    → copied s.son ≡ 18
    → s.father ≡ sleeping
    → Run s k t
    → HasLetter t.father t.printed
whole_letter old {s} {t} l r d q run =
    let empty = sleeper_silent old r q in
    let late : Late old s = record {
      filled = Run-Filled old true l r;
      done = d;
      reads = subst (λ p. Reads 17 p s.printed) (sym q) empty;
    } in
    at_any_point t.father t.printed (Run-Late old run late).reads
