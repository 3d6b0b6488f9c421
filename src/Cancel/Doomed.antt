-- ===== src/Cancel/Doomed.antt =====
-- A request that comes before a cancellation point, with cancellation enabled, ends the thread there
-- at the latest.
use linux_application_layer.Common.{
  ◌≡◌, refl, ◌⊎◌, inl, inr, Bool, true, false, none, some, List, [], ◌∷◌, arith,
}
use linux_application_layer.Cancel.{
  Call, printf, setcancelstate_disable, setcanceltype_asynchronous, sleep, testcancel, Exit,
  canceled, Program, make, is_point, Step, call, return, act, cancel, join, Reach, here, next,
}

-- A cancellation point stands before any call that disables cancellation.
abbrev pub HasPoint : List Call → Type 0
HasPoint [] = ⊥
HasPoint (sleep ∷ cs) = Unit
HasPoint (testcancel ∷ cs) = Unit
HasPoint (setcancelstate_disable ∷ cs) = ⊥
HasPoint (printf m ∷ cs) = HasPoint cs
HasPoint (setcanceltype_asynchronous ∷ cs) = HasPoint cs

-- The request was sent, and the thread has yet to come to such a point.
pub record Caught (s : Program) : Type 0 where
  pub running : s.exit ≡ none
  pub requested : s.pending ≡ true
  pub enabled : s.disabled ≡ false
  pub point : HasPoint s.rest

abbrev Doomed : Program → Type 0
Doomed s = Caught s ⊎ (s.exit ≡ some canceled)

call-Caught :
    {s : Program} (c : Call) (cs : List Call)
    → s.rest ≡ c ∷ cs
    → (is_point c ≡ true → s.pending ≡ true → s.disabled ≡ true)
    → Caught s
    → Caught (make c (record s { rest = cs }))
unfolding make
call-Caught (printf m) cs r p h = record {
  running = h.running;
  requested = h.requested;
  enabled = h.enabled;
  point = rw r at h.point;
}
call-Caught setcanceltype_asynchronous cs r p h = record {
  running = h.running;
  requested = h.requested;
  enabled = h.enabled;
  point = rw r at h.point;
}
call-Caught setcancelstate_disable cs r p h = absurd (rw r at h.point)
call-Caught sleep cs r p h = ground (arith, p refl h.requested, h.enabled)
call-Caught testcancel cs r p h = ground (arith, p refl h.requested, h.enabled)

module _ (printf_cancels : Bool) where
  Step-Doomed : {s t : Program} → Step printf_cancels s t → Doomed s → Doomed t
  Step-Doomed (call {c = c} {cs = cs} e r p) (inl h) = inl (call-Caught c cs r p h)
  Step-Doomed (return e r) (inl h) = absurd (rw r at h.point)
  Step-Doomed (act e p d m) (inl h) = inr refl
  Step-Doomed (cancel m) (inl h) =
      inl (record { running = h.running; requested = refl; enabled = h.enabled; point = h.point })
  Step-Doomed (join m x) (inl h) = ground (arith, h.running)
  Step-Doomed (call e r p) (inr h) = ground arith
  Step-Doomed (return e r) (inr h) = ground arith
  Step-Doomed (act e p d m) (inr h) = ground arith
  Step-Doomed (cancel m) (inr h) = inr h
  Step-Doomed (join m x) (inr h) = inr h

  Reach-Doomed : {s t : Program} → Doomed s → Reach printf_cancels s t → Doomed t
  Reach-Doomed h here = h
  Reach-Doomed h (next r st) = Step-Doomed st (Reach-Doomed h r)

  -- Once the request was sent, and while the thread, with cancellation enabled, has a `sleep` or a
  -- `pthread_testcancel` before it, the thread never returns: it can only end cancelled.
  pub ends_canceled :
      {s t : Program} (e : Exit)
      → Caught s
      → Reach printf_cancels s t
      → t.exit ≡ some e
      → e ≡ canceled
  ends_canceled e h r x = elim (Reach-Doomed (inl h) r) [
    | inl c ↦ ground (arith, c.running)
    | inr k ↦ ground arith
  ]
