-- ===== src/Pipe/Ends.antt =====
-- Father and child end, however small the pipe is, and the child has then shown the whole message.
use linux_application_layer.Common.{
  ℕ, suc, ◌+◌, ◌*◌, ◌≤◌, ◌<◌, ◌≡◌, refl, ◌≢◌, ◌⊎◌, inl, inr, none, some, Option, List, [], ◌∷◌,
  ◌++◌, arith, length, length-append,
}
use linux_application_layer.Pipe.{
  FatherPc, closing_read, telling, waiting, finished, writing, ChildPc, closing_write, greeting,
  reading, breaking, closing, ended, showing, Pair, father_at, wait, read, child_at, Step,
  by_father, by_child, Reach, start, next,
}
use linux_application_layer.Pipe.Delivery.{Inv, Reach-Inv}

-- A byte in the pipe is read and shown; one that is not written is written first.
abbrev father_size : List ℕ → FatherPc → ℕ
father_size message closing_read = 4 + 3 * length message
father_size message telling = 3 + 3 * length message
father_size message (writing bs) = 2 + 3 * length bs
father_size message waiting = 1
father_size message finished = 0

abbrev child_size : ChildPc → ℕ
child_size closing_write = 5
child_size greeting = 4
child_size reading = 3
child_size (showing b) = 4
child_size breaking = 2
child_size closing = 1
child_size ended = 0

abbrev size : List ℕ → Pair → ℕ
size message s = father_size message s.father + 2 * length s.pipe + child_size s.child

abbrev pub BothEnded : Pair → Type 0
BothEnded s = (s.father ≡ finished) × (s.child ≡ ended)

module _ (room : ℕ) (message : List ℕ) where
  wait_shrinks :
      (s t : Pair) (c : ChildPc)
      → s.father ≡ waiting
      → wait c s ≡ some t
      → suc (size message t) ≡ size message s
  wait_shrinks s t closing_write q e = ground arith
  wait_shrinks s t greeting q e = ground arith
  wait_shrinks s t reading q e = ground arith
  wait_shrinks s t (showing b) q e = ground arith
  wait_shrinks s t breaking q e = ground arith
  wait_shrinks s t closing q e = ground arith
  wait_shrinks s t ended q e = ground arith

  father_shrinks :
      (s t : Pair) (p : FatherPc)
      → s.father ≡ p
      → father_at room message p s ≡ some t
      → suc (size message t) ≡ size message s
  unfolding father_at
  father_shrinks s t closing_read q e = ground arith
  father_shrinks s t telling q e = ground arith
  father_shrinks s t (writing []) q e = ground arith
  father_shrinks s t (writing (b ∷ bs)) q e = ground (arith, length-append s.pipe (b ∷ []))
  father_shrinks s t waiting q e = wait_shrinks s t s.child q e
  father_shrinks s t finished q e = ground arith

  read_shrinks :
      (s t : Pair) (bytes : List ℕ)
      → s.child ≡ reading
      → s.pipe ≡ bytes
      → read bytes s ≡ some t
      → suc (size message t) ≡ size message s
  read_shrinks s t [] c q e = ground arith
  read_shrinks s t (b ∷ bs) c q e = ground arith

  child_shrinks :
      (s t : Pair) (c : ChildPc)
      → s.child ≡ c
      → child_at c s ≡ some t
      → suc (size message t) ≡ size message s
  unfolding child_at
  child_shrinks s t closing_write q e = ground arith
  child_shrinks s t greeting q e = ground arith
  child_shrinks s t reading q e = read_shrinks s t s.pipe q refl e
  child_shrinks s t (showing b) q e = ground arith
  child_shrinks s t breaking q e = ground arith
  child_shrinks s t closing q e = ground arith
  child_shrinks s t ended q e = ground arith

  Reach-size :
      {k : ℕ} {s : Pair} → Reach room message k s → k + size message s ≡ 9 + 3 * length message
  Reach-size start = omega arith
  Reach-size (next {s} {t} r (by_father e)) =
      omega (arith, Reach-size r, father_shrinks s t s.father refl e)
  Reach-size (next {s} {t} r (by_child e)) =
      omega (arith, Reach-size r, child_shrinks s t s.child refl e)

  abbrev pub CanStep : Pair → Type 0
  CanStep s = (t : Pair) × Step room message s t

  father_runs :
      (s : Pair) (o : Option Pair) → father_at room message s.father s ≡ o → o ≢ none → CanStep s
  father_runs s (some t) e h = (t, by_father e)
  father_runs s none e h = absurd (h refl)

  child_runs : (s : Pair) (o : Option Pair) → child_at s.child s ≡ o → o ≢ none → CanStep s
  child_runs s (some t) e h = (t, by_child e)
  child_runs s none e h = absurd (h refl)

  -- The child waits only for a father that writes into an empty pipe.
  reader :
      (s : Pair) (f : FatherPc) (bytes : List ℕ)
      → 0 < room
      → s.father ≡ f
      → s.child ≡ reading
      → s.pipe ≡ bytes
      → Inv message s
      → CanStep s
  unfolding father_at child_at
  reader s f (b ∷ bs) h q c p inv = child_runs s (child_at s.child s) refl (ground arith)
  reader s closing_read [] h q c p inv =
      father_runs s (father_at room message s.father s) refl (ground arith)
  reader s telling [] h q c p inv =
      father_runs s (father_at room message s.father s) refl (ground arith)
  reader s (writing []) [] h q c p inv =
      father_runs s (father_at room message s.father s) refl (ground arith)
  reader s (writing (b ∷ bs)) [] h q c p inv =
      father_runs s (father_at room message s.father s) refl (ground arith)
  reader s waiting [] h q c p inv =
      child_runs s (child_at s.child s) refl (ground (arith, inv.fathers_end, inv.childs_end))
  reader s finished [] h q c p inv = absurd (ground (arith, inv.reaped q))

  mover :
      (s : Pair) (c : ChildPc) (f : FatherPc)
      → 0 < room
      → s.child ≡ c
      → s.father ≡ f
      → Inv message s
      → BothEnded s ⊎ CanStep s
  unfolding father_at child_at
  mover s closing_write f h c q inv = inr (child_runs s (child_at s.child s) refl (ground arith))
  mover s greeting f h c q inv = inr (child_runs s (child_at s.child s) refl (ground arith))
  mover s reading f h c q inv = inr (reader s f s.pipe h q c refl inv)
  mover s (showing b) f h c q inv = inr (child_runs s (child_at s.child s) refl (ground arith))
  mover s breaking f h c q inv = inr (child_runs s (child_at s.child s) refl (ground arith))
  mover s closing f h c q inv = inr (child_runs s (child_at s.child s) refl (ground arith))
  mover s ended waiting h c q inv =
      inr (father_runs s (father_at room message s.father s) refl (ground arith))
  mover s ended finished h c q inv = inl (q, c)
  mover s ended closing_read h c q inv = absurd (ground (arith, inv.flow, inv.fathers_end))
  mover s ended telling h c q inv = absurd (ground (arith, inv.flow, inv.fathers_end))
  mover s ended (writing bs) h c q inv = absurd (ground (arith, inv.flow, inv.fathers_end))

  -- However small the pipe is, the two processes of unnamed_pipe_test.c end after three steps for each
  -- byte of the message and nine more, one of them can step until both have ended, and then the child
  -- has shown the message and a line break.
  pub pipe_delivers :
      {k : ℕ} {s : Pair}
      → 0 < room
      → Reach room message k s
      → (BothEnded s ⊎ CanStep s)
        × (k ≤ 9 + 3 * length message)
        × (BothEnded s → s.shown ≡ message ++ (10 ∷ []))
  pipe_delivers {k} {s} h r = (
    mover s s.child s.father h refl refl (Reach-Inv room message r),
    omega (arith, Reach-size r),
    λ b. ground (arith, (Reach-Inv room message r).flow, b),
  )
