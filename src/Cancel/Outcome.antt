-- ===== src/Cancel/Outcome.antt =====
-- What `main` reports agrees with what the thread printed, and a request that comes in time works.
use linux_application_layer.Common.{
  ℕ, ◌+◌, ◌≡◌, refl, ◌≢◌, ◌⊎◌, ◌||◌, true, inl, inr, Bool, none, some, List, [], ◌∷◌, arith,
}
use linux_application_layer.Cancel.{
  Message, after_cancelled, Call, printf, setcancelstate_disable, setcanceltype_asynchronous, sleep,
  testcancel, at_point, Exit, null, canceled, reported, Program, make, Step, call, return, act,
  cancel, join, Reach, here, next, start,
}

abbrev pub is_after : Message → ℕ
is_after after_cancelled = 1
is_after _ = 0

-- How often "After Cancelled" was printed.
abbrev pub afters : List Message → ℕ
afters [] = 0
afters (m ∷ ms) = is_after m + afters ms

abbrev says_after : Call → ℕ
says_after (printf m) = is_after m
says_after _ = 0

-- The calls end with the print of "After Cancelled", which stands nowhere else.
abbrev pub EndsAfter : List Call → Type 0
EndsAfter [] = ⊥
EndsAfter (c ∷ []) = c ≡ printf after_cancelled
EndsAfter (c ∷ d ∷ cs) = (says_after c ≡ 0) × EndsAfter (d ∷ cs)

abbrev Unfinished : List Call → List Message → Type 0
Unfinished [] log = afters log ≡ 1
Unfinished (c ∷ cs) log = EndsAfter (c ∷ cs) × (afters log ≡ 0)

record Agrees (s : Program) : Type 0 where
  running : s.exit ≡ none → Unfinished s.rest s.log
  finished : s.exit ≡ some null → afters s.log ≡ 1
  killed : s.exit ≡ some canceled → (afters s.log ≡ 0) ⊎ (s.asynchronous ≡ true)
  told : (e : Exit) → s.main ≡ reported e → s.exit ≡ some e

Unfinished-printf :
    (m : Message) (cs : List Call) (log : List Message)
    → Unfinished (printf m ∷ cs) log
    → Unfinished cs (m ∷ log)
Unfinished-printf m [] log h = ground arith
Unfinished-printf m (c ∷ cs) log h = ground arith

Unfinished-other :
    (c : Call) (cs : List Call) (log : List Message)
    → says_after c ≡ 0
    → c ≢ printf after_cancelled
    → Unfinished (c ∷ cs) log
    → Unfinished cs log
Unfinished-other c [] log z n h = absurd (n h.0)
Unfinished-other c (d ∷ cs) log z n h = (h.0.1, h.1)

Unfinished-make :
    (s : Program) (c : Call) (cs : List Call)
    → Unfinished (c ∷ cs) s.log
    → Unfinished cs (make c (record s { rest = cs })).log
unfolding make
Unfinished-make s (printf m) cs h = Unfinished-printf m cs s.log h
Unfinished-make s setcancelstate_disable cs h =
    Unfinished-other setcancelstate_disable cs s.log refl (λ e. ground arith) h
Unfinished-make s setcanceltype_asynchronous cs h =
    Unfinished-other setcanceltype_asynchronous cs s.log refl (λ e. ground arith) h
Unfinished-make s sleep cs h = Unfinished-other sleep cs s.log refl (λ e. ground arith) h
Unfinished-make s testcancel cs h = Unfinished-other testcancel cs s.log refl (λ e. ground arith) h

-- A call leaves `main`, the exit value, the request and the calls after it alone.
pub record SameEnd (s t : Program) : Type 0 where
  pub main : t.main ≡ s.main
  pub exit : t.exit ≡ s.exit
  pub rest : t.rest ≡ s.rest
  pub pending : t.pending ≡ s.pending

pub make-SameEnd : (c : Call) (s : Program) → SameEnd s (make c s)
unfolding make
make-SameEnd (printf m) s = ground arith
make-SameEnd c s = ground arith

call-Agrees :
    {s : Program} (c : Call) (cs : List Call)
    → s.exit ≡ none
    → s.rest ≡ c ∷ cs
    → Agrees s
    → Agrees (make c (record s { rest = cs }))
call-Agrees {s} c cs e r a =
    let same = make-SameEnd c (record s { rest = cs }) in
    record {
      running = λ x. rw same.rest (Unfinished-make s c cs (rw r at (a.running e)));
      finished = λ x. absurd (ground (arith, same.exit));
      killed = λ x. absurd (ground (arith, same.exit));
      told = λ k q. ground (arith, same.exit, same.main, a.told k);
    }

Unfinished-nil :
    (cs : List Call) (log : List Message) → cs ≡ [] → Unfinished cs log → afters log ≡ 1
Unfinished-nil [] log e h = h
Unfinished-nil (c ∷ cs) log e h = ground arith

Unfinished-cons :
    (c : Call) (cs ds : List Call) (log : List Message)
    → ds ≡ c ∷ cs
    → Unfinished ds log
    → afters log ≡ 0
Unfinished-cons c cs [] log e h = ground arith
Unfinished-cons c cs (d ∷ ds) log e h = h.1

module _ (printf_cancels : Bool) where
  acted :
      (s : Program) (cs : List Call)
      → s.rest ≡ cs
      → (s.asynchronous || at_point printf_cancels s.rest) ≡ true
      → Unfinished s.rest s.log
      → (afters s.log ≡ 0) ⊎ (s.asynchronous ≡ true)
  acted s [] r m u = inr (ground arith)
  acted s (c ∷ cs) r m u = inl (Unfinished-cons c cs s.rest s.log r u)

  Step-Agrees : {s t : Program} → Step printf_cancels s t → Agrees s → Agrees t
  Step-Agrees (call {c = c} {cs = cs} e r p) a = call-Agrees c cs e r a
  Step-Agrees {s} (return e r) a = record {
    running = λ x. ground arith;
    finished = λ x. Unfinished-nil s.rest s.log r (a.running e);
    killed = λ x. ground arith;
    told = λ k q. ground (arith, a.told k);
  }
  Step-Agrees {s} (act e p d m) a = record {
    running = λ x. ground arith;
    finished = λ x. ground arith;
    killed = λ x. acted s s.rest refl m (a.running e);
    told = λ k q. ground (arith, a.told k);
  }
  Step-Agrees (cancel m) a = record {
    running = a.running;
    finished = a.finished;
    killed = a.killed;
    told = λ k q. ground arith;
  }
  Step-Agrees (join m x) a = record {
    running = a.running;
    finished = a.finished;
    killed = a.killed;
    told = λ k q. ground arith;
  }

  Reach-Agrees : {s t : Program} → Agrees s → Reach printf_cancels s t → Agrees t
  Reach-Agrees a here = a
  Reach-Agrees a (next r st) = Step-Agrees st (Reach-Agrees a r)

  start-Agrees : (task : List Call) → EndsAfter task → Agrees (start task)
  start-Agrees [] h = absurd h
  start-Agrees (c ∷ cs) h = record {
    running = λ x. (h, refl);
    finished = λ x. ground arith;
    killed = λ x. ground arith;
    told = λ k q. ground arith;
  }

  -- For each of the three tasks, and any that ends in the print of "After Cancelled": where `main`
  -- reports a thread that was not cancelled, that line was printed once; where it reports a cancelled
  -- one, the line was not printed, or the thread could be cancelled anywhere, behind that print too.
  pub report_agrees :
      (task : List Call) {s : Program} (e : Exit)
      → EndsAfter task
      → Reach printf_cancels (start task) s
      → s.main ≡ reported e
      → ((e ≡ canceled) × ((afters s.log ≡ 0) ⊎ (s.asynchronous ≡ true)))
        ⊎ ((e ≡ null) × (afters s.log ≡ 1))
  report_agrees task {s} e h r m = by_exit e refl
    where
      a : Agrees s
      a = Reach-Agrees (start-Agrees task h) r

      by_exit :
          (x : Exit)
          → e ≡ x
          → ((e ≡ canceled) × ((afters s.log ≡ 0) ⊎ (s.asynchronous ≡ true)))
            ⊎ ((e ≡ null) × (afters s.log ≡ 1))
      by_exit null q = inr (q, a.finished (ground (arith, a.told e m)))
      by_exit canceled q = inl (q, a.killed (ground (arith, a.told e m)))
