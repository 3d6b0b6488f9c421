-- ===== src/Cancel/Shield.antt =====
-- pthread_cancel_disabled_test.c disables cancellation only after its first `printf`.
use linux_application_layer.Common.{
  ◌≡◌, refl, ◌≢◌, ◌↔◌, ◌∙◌, ◌||◌, Bool, true, false, some, List, [], ◌∷◌, arith,
}
use linux_application_layer.Cancel.{
  shielded, working, after_cancelled, Call, printf, setcancelstate_disable,
  setcanceltype_asynchronous, sleep, testcancel, canceled, Program, make, Step, call, return, act,
  cancel, joining, join, at_point, Reach, here, next, start, disabled_task,
}

-- Cancellation is disabled, or the thread is before the call that disables it.
data Shielded (s : Program) : Type 0 where
  raised : s.disabled ≡ true → Shielded s
  first : s.asynchronous ≡ false → s.rest ≡ disabled_task → Shielded s
  second :
      s.asynchronous ≡ false
      → s.rest
        ≡ setcancelstate_disable
          ∷ printf shielded
          ∷ setcanceltype_asynchronous
          ∷ printf working
          ∷ sleep
          ∷ printf after_cancelled
          ∷ []
      → Shielded s

record Safe (s : Program) : Type 0 where
  shield : Shielded s
  alive : s.exit ≢ some canceled

call-Shielded :
    {s : Program} (c : Call) (cs : List Call)
    → s.rest ≡ c ∷ cs
    → Shielded s
    → Shielded (make c (record s { rest = cs }))
unfolding make
call-Shielded (printf m) cs r (raised d) = raised d
call-Shielded setcancelstate_disable cs r (raised d) = raised refl
call-Shielded setcanceltype_asynchronous cs r (raised d) = raised d
call-Shielded sleep cs r (raised d) = raised d
call-Shielded testcancel cs r (raised d) = raised d
call-Shielded (printf m) cs r (first a e) = second a (ground arith)
call-Shielded setcancelstate_disable cs r (first a e) = raised refl
call-Shielded setcanceltype_asynchronous cs r (first a e) = ground arith
call-Shielded sleep cs r (first a e) = ground arith
call-Shielded testcancel cs r (first a e) = ground arith
call-Shielded setcancelstate_disable cs r (second a e) = raised refl
call-Shielded (printf m) cs r (second a e) = ground arith
call-Shielded setcanceltype_asynchronous cs r (second a e) = ground arith
call-Shielded sleep cs r (second a e) = ground arith
call-Shielded testcancel cs r (second a e) = ground arith

make-exit : (c : Call) (s : Program) → (make c s).exit ≡ s.exit
unfolding make
make-exit (printf m) s = refl
make-exit c s = refl

Shielded-same :
    {s t : Program}
    → t.disabled ≡ s.disabled
    → t.asynchronous ≡ s.asynchronous
    → t.rest ≡ s.rest
    → Shielded s
    → Shielded t
Shielded-same d a r (raised x) = raised (d ∙ x)
Shielded-same d a r (first y x) = first (a ∙ y) (r ∙ x)
Shielded-same d a r (second y x) = second (a ∙ y) (r ∙ x)

unhurt :
    (s : Program)
    → s.disabled ≡ false
    → (s.asynchronous || at_point false s.rest) ≡ true
    → Shielded s
    → ⊥
unhurt s d m (raised x) = ground arith
unhurt s d m (first a x) = ground arith
unhurt s d m (second a x) = ground arith

Step-Safe : {s t : Program} → Step false s t → Safe s → Safe t
Step-Safe {s} (call {c = c} {cs = cs} e r p) h = record {
  shield = call-Shielded c cs r h.shield;
  alive = λ x. ground (arith, make-exit c (record s { rest = cs }));
}
Step-Safe (return e r) h = record {
  shield = Shielded-same refl refl refl h.shield;
  alive = λ x. ground arith;
}
Step-Safe {s} (act e p d m) h = absurd (unhurt s d m h.shield)
Step-Safe (cancel m) h = record { shield = Shielded-same refl refl refl h.shield; alive = h.alive }
Step-Safe (join m x) h = record { shield = Shielded-same refl refl refl h.shield; alive = h.alive }

Reach-Safe : {s : Program} → Reach false (start disabled_task) s → Safe s
Reach-Safe here = record { shield = first refl refl; alive = λ x. ground arith }
Reach-Safe (next r st) = Step-Safe st (Reach-Safe r)

-- The request is sent before the thread runs, and its first `printf` acts upon it.
hurt : Program
hurt = record (start disabled_task) { main = joining; pending = true; exit = some canceled }

Reach-hurt : Reach true (start disabled_task) hurt
unfolding hurt
Reach-hurt = next (next here (cancel refl)) (act refl refl refl refl)

abbrev pub NeverCanceled : Bool → Type 0
NeverCanceled printf_cancels =
    (s : Program) → Reach printf_cancels (start disabled_task) s → s.exit ≢ some canceled

-- The thread that disables cancellation is never cancelled, in any schedule, exactly if `printf` is
-- no cancellation point: otherwise the first `printf`, before the shield, may act upon the request.
pub shield_iff : (printf_cancels : Bool) → NeverCanceled printf_cancels ↔ (printf_cancels ≡ false)
unfolding hurt
shield_iff false = (λ h. refl, λ e s r. (Reach-Safe r).alive)
shield_iff true = (λ h. absurd (h hurt Reach-hurt refl), λ e. ground arith)
