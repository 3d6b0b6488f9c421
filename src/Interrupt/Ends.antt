-- ===== src/Interrupt/Ends.antt =====
-- signal_test.c runs until SIGINT arrives.
use linux_application_layer.Common.{
  ℕ, zero, suc, ◌<◌, ◌≡◌, refl, ◌⊎◌, inl, inr, true, none, some, List, [], ◌∷◌, ◌++◌, arith, ap,
}
use linux_application_layer.Interrupt.{
  Line, hello, stopped, Pc, registering, sleeping, printing, handling, leaving, exited, killed,
  State, sigint, main_at, interrupt, Reach, start, call, signal,
}

-- The line of the loop, `n` times.
abbrev pub hellos : ℕ → List Line
hellos zero = []
hellos (suc n) = hello ∷ hellos n

hellos_next : (n : ℕ) → hellos n ++ (hello ∷ []) ≡ hellos (suc n)
hellos_next zero = refl
hellos_next (suc n) = ap (λ ls. hello ∷ ls) (hellos_next n)

-- What stands behind the lines of the loop, by the place of the process.
abbrev pub At : ℕ → ℕ → Pc → List Line → Type 0
At n i registering ls = (n ≡ 0) × (i ≡ 0) × (ls ≡ [])
At n i sleeping ls = (i ≡ 0) × (ls ≡ hellos n)
At n i printing ls = (i ≡ 0) × (ls ≡ hellos n)
At n i (handling signum) ls = (signum ≡ sigint) × (0 < i) × (ls ≡ hellos n)
At n i (leaving signum) ls = (signum ≡ sigint) × (0 < i) × (ls ≡ hellos n ++ (stopped sigint ∷ []))
At n i (exited status) ls = (status ≡ sigint) × (0 < i) × (ls ≡ hellos n ++ (stopped sigint ∷ []))
At n i killed ls = (n ≡ 0) × (0 < i) × (ls ≡ [])

-- How often the loop has printed after a call.
abbrev after : Pc → ℕ → ℕ
after printing n = suc n
after _ n = n

call-At :
    (s t : State) (n i : ℕ) (pc : Pc)
    → s.pc ≡ pc
    → At n i pc s.printed
    → main_at true pc s ≡ some t
    → At (after pc n) i t.pc t.printed
unfolding main_at
call-At s t n i registering q a e = ground arith
call-At s t n i sleeping q a e = ground arith
call-At s t n i printing q a e = ground (arith, hellos_next n)
call-At s t n i (handling signum) q a e = ground arith
call-At s t n i (leaving signum) q a e = ground arith
call-At s t n i (exited status) q a e = ground arith
call-At s t n i killed q a e = ground arith

signal-At :
    (s t : State) (n i : ℕ) (pc : Pc)
    → s.pc ≡ pc
    → At n i pc s.printed
    → interrupt pc s ≡ some t
    → At n (suc i) t.pc t.printed
unfolding interrupt
signal-At s t n i registering q a e = ground arith
signal-At s t n i sleeping q a e = ground arith
signal-At s t n i printing q a e = ground arith
signal-At s t n i (handling signum) q a e = ground arith
signal-At s t n i (leaving signum) q a e = ground arith
signal-At s t n i (exited status) q a e = ground arith
signal-At s t n i killed q a e = ground arith

Reach-At : {i : ℕ} {s : State} → Reach true i s → (n : ℕ) × At n i s.pc s.printed
Reach-At start = (0, (refl, refl, refl))
Reach-At (call {i} {s} {t} r e) =
    let h = Reach-At r in (after s.pc h.0, call-At s t h.0 i s.pc refl h.1 e)
Reach-At (signal {i} {s} {t} r e) = let h = Reach-At r in (h.0, signal-At s t h.0 i s.pc refl h.1 e)

-- The process has not ended and can make its next call.
abbrev pub GoesOn : State → Type 0
GoesOn s = (t : State) × (main_at true s.pc s ≡ some t)

-- Ended by the handler, with the number of the signal as its status, or killed before `signal`.
abbrev pub Ended : State → Type 0
Ended s =
    ((s.pc ≡ exited sigint) × ((n : ℕ) × (s.printed ≡ hellos n ++ (stopped sigint ∷ []))))
    ⊎ ((s.pc ≡ killed) × (s.printed ≡ []))

-- The next calls of the process, none where it has ended.
abbrev pub calls : ℕ → State → State
calls zero s = s
calls (suc n) s = elim (main_at true s.pc s) [ none ↦ s | some t ↦ calls n t ]

stands :
    (s : State) (n i : ℕ) (pc : Pc)
    → s.pc ≡ pc
    → At n i pc s.printed
    → ((i ≡ 0) × GoesOn s) ⊎ ((0 < i) × Ended (calls 2 s))
unfolding main_at
stands s n i registering q a = inl (a.1, (_, ap (λ pc. main_at true pc s) q))
stands s n i sleeping q a = inl (a.0, (_, ap (λ pc. main_at true pc s) q))
stands s n i printing q a = inl (a.0, (_, ap (λ pc. main_at true pc s) q))
stands s n i (handling signum) q a =
    let (g, l, p) = a in inr (l, rw q (inl (ground (arith, g), (n, ground (arith, g, p)))))
stands s n i (leaving signum) q a =
    let (g, l, p) = a in inr (l, rw q (inl (ground (arith, g), (n, ground (arith, g, p)))))
stands s n i (exited status) q a =
    let (g, l, p) = a in inr (l, rw q (inl (ground (arith, g), (n, ground (arith, g, p)))))
stands s n i killed q a = let (g, l, p) = a in inr (l, rw q (inr (refl, p)))

-- Where `signal` succeeds: until SIGINT has arrived signal_test.c makes its next call in every state;
-- once it has arrived, the process has ended two calls later at most, whether or not more signals
-- have come: with the status 2, the lines of its loop and behind them the line of the handler, once;
-- or killed without a line, by a signal before `signal`.
pub runs_until_interrupted :
    {i : ℕ} {s : State} → Reach true i s → ((i ≡ 0) × GoesOn s) ⊎ ((0 < i) × Ended (calls 2 s))
runs_until_interrupted {i} {s} r = let h = Reach-At r in stands s h.0 i s.pc refl h.1
