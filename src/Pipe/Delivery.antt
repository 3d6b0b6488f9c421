-- ===== src/Pipe/Delivery.antt =====
-- The bytes go through the pipe in order, and the child ends its line only after the last.
use linux_application_layer.Common.{
  ℕ, ◌≡◌, refl, subst, sym, Bool, true, false, some, List, [], ◌∷◌, ◌++◌, arith,
}
use linux_application_layer.Pipe.{
  FatherPc, closing_read, telling, waiting, finished, writing, ChildPc, closing_write, greeting,
  reading, breaking, closing, ended, showing, Pair, father_at, wait, read, child_at, by_father,
  by_child, Reach, start, next,
}
use mathlib.Core.List.{append_assoc, append-nil}

-- The bytes that the father has not written.
abbrev pub unwritten : List ℕ → FatherPc → List ℕ
unwritten message closing_read = message
unwritten message telling = message
unwritten message (writing bs) = bs
unwritten message _ = []

-- The byte that the child has in its buffer.
abbrev pub in_hand : ChildPc → List ℕ
in_hand (showing b) = b ∷ []
in_hand _ = []

abbrev pub has_end : ChildPc → Bool
has_end closing_write = true
has_end _ = false

abbrev pub holds_end : FatherPc → Bool
holds_end waiting = false
holds_end finished = false
holds_end _ = true

-- Every byte is on its way or shown; after the end of the bytes all are shown, nothing is in the
-- pipe, and the father writes no more.
abbrev pub Flow : List ℕ → ChildPc → Pair → Type 0
Flow message breaking s = (s.shown ≡ message) × (s.pipe ≡ []) × (s.father_writes ≡ false)
Flow message closing s =
    (s.shown ≡ message ++ (10 ∷ [])) × (s.pipe ≡ []) × (s.father_writes ≡ false)
Flow message ended s = (s.shown ≡ message ++ (10 ∷ [])) × (s.pipe ≡ []) × (s.father_writes ≡ false)
Flow message (showing b) s = s.shown ++ (b ∷ s.pipe ++ unwritten message s.father) ≡ message
Flow message _ s = s.shown ++ (s.pipe ++ unwritten message s.father) ≡ message

pub record Inv (message : List ℕ) (s : Pair) : Type 0 where
  pub flow : Flow message s.child s
  pub childs_end : s.child_writes ≡ has_end s.child
  pub fathers_end : s.father_writes ≡ holds_end s.father
  pub reaped : s.father ≡ finished → s.child ≡ ended

module _ (room : ℕ) (message : List ℕ) where
  -- What a step of the father keeps.
  record Kept (s t : Pair) : Type 0 where
    child : t.child ≡ s.child
    child_writes : t.child_writes ≡ s.child_writes
    shown : t.shown ≡ s.shown
    way : t.pipe ++ unwritten message t.father ≡ s.pipe ++ unwritten message s.father
    closed : s.father_writes ≡ false → (t.pipe ≡ s.pipe) × (t.father_writes ≡ false)

  wait-Kept : (s t : Pair) (c : ChildPc) → s.father ≡ waiting → wait c s ≡ some t → Kept s t
  wait-Kept s t closing_write q e = ground arith
  wait-Kept s t greeting q e = ground arith
  wait-Kept s t reading q e = ground arith
  wait-Kept s t (showing b) q e = ground arith
  wait-Kept s t breaking q e = ground arith
  wait-Kept s t closing q e = ground arith
  wait-Kept s t ended q e = ground arith

  father-Kept :
      {s t : Pair} (p : FatherPc)
      → s.father ≡ p
      → s.father_writes ≡ holds_end s.father
      → father_at room message p s ≡ some t
      → Kept s t
  unfolding father_at
  father-Kept closing_read q h e = ground arith
  father-Kept telling q h e = ground arith
  father-Kept (writing []) q h e = ground arith
  father-Kept {s} (writing (b ∷ bs)) q h e = ground (arith, append_assoc s.pipe (b ∷ []) bs)
  father-Kept {s} {t} waiting q h e = wait-Kept s t s.child q e
  father-Kept finished q h e = ground arith

  father-Flow : (s t : Pair) (c : ChildPc) → Kept s t → Flow message c s → Flow message c t
  father-Flow s t closing_write k f = rw (k.shown, k.way) f
  father-Flow s t greeting k f = rw (k.shown, k.way) f
  father-Flow s t reading k f = rw (k.shown, k.way) f
  father-Flow s t (showing b) k f = rw (k.shown, k.way) f
  father-Flow s t breaking k f = ground (arith, k.shown, k.closed f.2, f)
  father-Flow s t closing k f = ground (arith, k.shown, k.closed f.2, f)
  father-Flow s t ended k f = ground (arith, k.shown, k.closed f.2, f)

  wait_ends :
      (s t : Pair) (c : ChildPc)
      → s.father ≡ waiting
      → s.child ≡ c
      → s.father_writes ≡ false
      → wait c s ≡ some t
      → (t.father_writes ≡ holds_end t.father) × (t.father ≡ finished → t.child ≡ ended)
  wait_ends s t closing_write q d h e = ground arith
  wait_ends s t greeting q d h e = ground arith
  wait_ends s t reading q d h e = ground arith
  wait_ends s t (showing b) q d h e = ground arith
  wait_ends s t breaking q d h e = ground arith
  wait_ends s t closing q d h e = ground arith
  wait_ends s t ended q d h e = ground arith

  father_ends :
      (s t : Pair) (p : FatherPc)
      → s.father ≡ p
      → s.father_writes ≡ holds_end s.father
      → father_at room message p s ≡ some t
      → (t.father_writes ≡ holds_end t.father) × (t.father ≡ finished → t.child ≡ ended)
  unfolding father_at
  father_ends s t closing_read q h e = ground arith
  father_ends s t telling q h e = ground arith
  father_ends s t (writing []) q h e = ground arith
  father_ends s t (writing (b ∷ bs)) q h e = ground arith
  father_ends s t waiting q h e = wait_ends s t s.child q refl (ground arith) e
  father_ends s t finished q h e = ground arith

  father-Inv :
      {s t : Pair} → father_at room message s.father s ≡ some t → Inv message s → Inv message t
  father-Inv {s} {t} e inv =
      let k = father-Kept s.father refl inv.fathers_end e in
      let d = father_ends s t s.father refl inv.fathers_end e in
      record {
        flow = subst (λ c. Flow message c t) (sym k.child) (father-Flow s t s.child k inv.flow);
        childs_end = rw (k.child, k.child_writes) inv.childs_end;
        fathers_end = d.0;
        reaped = d.1;
      }

  read_end :
      (s : Pair) (f : FatherPc)
      → s.father ≡ f
      → s.father_writes ≡ holds_end f
      → s.father_writes ≡ false
      → unwritten message f ≡ []
  read_end s closing_read q h e = ground arith
  read_end s telling q h e = ground arith
  read_end s (writing bs) q h e = ground arith
  read_end s waiting q h e = refl
  read_end s finished q h e = refl

  read-Inv :
      (s t : Pair) (bytes : List ℕ)
      → s.child ≡ reading
      → s.pipe ≡ bytes
      → read bytes s ≡ some t
      → Inv message s
      → Inv message t
  read-Inv s t (b ∷ bs) c q e inv = ground arith
  read-Inv s t [] c q e inv =
      let rest = read_end s s.father refl inv.fathers_end in
      ground (arith, rest, append-nil s.shown)

  child-Inv :
      (s t : Pair) (c : ChildPc)
      → s.child ≡ c
      → child_at c s ≡ some t
      → Inv message s
      → Inv message t
  unfolding child_at
  child-Inv s t closing_write q e inv = ground arith
  child-Inv s t greeting q e inv = ground arith
  child-Inv s t reading q e inv = read-Inv s t s.pipe q refl e inv
  child-Inv s t (showing b) q e inv =
      let moved = append_assoc s.shown (b ∷ []) (s.pipe ++ unwritten message s.father) in
      ground (arith, moved)
  child-Inv s t breaking q e inv = ground arith
  child-Inv s t closing q e inv = ground arith
  child-Inv s t ended q e inv = ground arith

  -- In every run the message is what the child has shown, followed by what is on its way.
  pub Reach-Inv : {k : ℕ} {s : Pair} → Reach room message k s → Inv message s
  Reach-Inv start = ground arith
  Reach-Inv (next {s} r (by_father e)) = father-Inv e (Reach-Inv r)
  Reach-Inv (next {s} {t} r (by_child e)) = child-Inv s t s.child refl e (Reach-Inv r)
