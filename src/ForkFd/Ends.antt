-- ===== src/ForkFd/Ends.antt =====
-- The two processes end, and the file has both pieces behind what it held.
use linux_application_layer.Common.{
  ℕ, suc, ◌+◌, ◌≡◌, ◌≤◌, refl, sym, subst, ◌⊎◌, inl, inr, false, some, List, [], ◌∷◌, ◌++◌, arith,
}
use linux_application_layer.ForkFd.{
  Who, child, father, write_failed, written, released, Pc, sleeping, copying, writing, telling,
  closing, releasing, reporting, shutting, exited, failed, Process, System, Turn, process_at, Step,
  by_child, by_father, Reach, start, next,
}
use linux_application_layer.ForkFd.Appended.{Wrote, At, piece, left, process-Moved}
use mathlib.Core.List.{append_assoc, append-nil}

-- The file holds what it held and the two pieces, in one order or the other.
abbrev pub Appended : List ℕ → System → Type 0
Appended before s =
    (s.file ≡ before ++ (piece child s.childs ++ piece father s.fathers))
    ⊎ (s.file ≡ before ++ (piece father s.fathers ++ piece child s.childs))

record Inv (before : List ℕ) (k : ℕ) (s : System) : Type 0 where
  at_child : At child s.childs.pc s.childs
  at_father : At father s.fathers.pc s.fathers
  steps : k + (left s.childs.pc + left s.fathers.pc) ≤ 11
  appended : Appended before s

other_way : {A B : Type 0} → A ⊎ B → B ⊎ A
other_way (inl a) = inr a
other_way (inr b) = inl b

-- What is there holds the piece of one process, in front of or behind the piece `p` of the other, and
-- then that one's new piece `t` comes behind it.
appends :
    (before other p t : List ℕ) {file after : List ℕ}
    → (file ≡ before ++ (p ++ other)) ⊎ (file ≡ before ++ (other ++ p))
    → ((after ≡ file) × (t ≡ p)) ⊎ ((p ≡ []) × (after ≡ file ++ t))
    → (after ≡ before ++ (t ++ other)) ⊎ (after ≡ before ++ (other ++ t))
appends before other p t h (inl (e, q)) = rw (e, q) h
appends before other p t (inl h) (inr (z, e)) =
    inr (ground (arith, h, z, e, append_assoc before other t))
appends before other p t (inr h) (inr (z, e)) =
    inr (ground (arith, h, z, e, append-nil other, append_assoc before other t))

Step-Inv :
    {before : List ℕ} {k : ℕ} {s t : System} → Step s t → Inv before k s → Inv before (suc k) t
Step-Inv {before} {k} {s} (by_child result {t} e) inv =
    let m = process-Moved child result s.childs.pc refl inv.at_child e in
    record {
      at_child = m.at;
      at_father = inv.at_father;
      steps = omega (arith, inv.steps, m.down);
      appended =
          appends before (piece father s.fathers) (piece child s.childs) (piece child t.process)
            inv.appended m.grown;
    }
Step-Inv {before} {k} {s} (by_father result {t} e) inv =
    let m = process-Moved father result s.fathers.pc refl inv.at_father e in
    record {
      at_child = inv.at_child;
      at_father = m.at;
      steps = omega (arith, inv.steps, m.down);
      appended = other_way (
          appends before (piece child s.childs) (piece father s.fathers) (piece father t.process)
            (other_way inv.appended) m.grown);
    }

Reach-Inv : {before : List ℕ} {k : ℕ} {s : System} → Reach before k s → Inv before k s
Reach-Inv {before} start = record {
  at_child = (refl, refl);
  at_father = (refl, refl);
  steps = omega arith;
  appended = inl (sym (append-nil before));
}
Reach-Inv (next r st) = Step-Inv st (Reach-Inv r)

abbrev pub BothExited : System → Type 0
BothExited s = ((m : ℕ) × (s.childs.pc ≡ exited m)) × ((n : ℕ) × (s.fathers.pc ≡ exited n))

-- From here a process can step, whatever `write` does.
abbrev pub CanStep : System → Type 0
CanStep s = (t : System) × Step s t

-- A process that has ended has closed the file; it has told of success and returned 0 if `write` has
-- written any number of bytes, else it has reported the error and returned 1.
abbrev pub Told : Who → Process → Type 0
Told who p =
    (p.holds_fd ≡ false)
    × (((p.pc ≡ exited 0) × Wrote p.bytes_write × (p.printed ≡ written ∷ released who ∷ []))
        ⊎ ((p.pc ≡ exited 1) × (p.bytes_write ≡ some failed) × (p.printed ≡ write_failed ∷ [])))

At-Told : (who : Who) (m : ℕ) (p : Process) → p.pc ≡ exited m → At who (exited m) p → Told who p
At-Told who m p q (h, inl (z, w, d)) = (h, inl (ground (arith, q, z), w, d))
At-Told who m p q (h, inr (z, w, d)) = (h, inr (ground (arith, q, z), w, d))

exited_or_moves :
    (who : Who) (pc : Pc) (p : Process) (file : List ℕ)
    → ((m : ℕ) × (pc ≡ exited m)) ⊎ ((t : Turn) × (process_at who failed pc p file ≡ some t))
unfolding process_at
exited_or_moves who sleeping p file = inr (_, refl)
exited_or_moves who copying p file = inr (_, refl)
exited_or_moves who writing p file = inr (_, refl)
exited_or_moves who telling p file = inr (_, refl)
exited_or_moves who closing p file = inr (_, refl)
exited_or_moves who releasing p file = inr (_, refl)
exited_or_moves who reporting p file = inr (_, refl)
exited_or_moves who shutting p file = inr (_, refl)
exited_or_moves who (exited m) p file = inl (m, refl)

progress : (s : System) → BothExited s ⊎ CanStep s
progress s = elim (exited_or_moves child s.childs.pc s.childs s.file) [
  | inr (t, e) ↦ inr (_, by_child failed e)
  | inl c ↦ elim (exited_or_moves father s.fathers.pc s.fathers s.file) [
    | inr (t, e) ↦ inr (_, by_father failed e)
    | inl f ↦ inl (c, f)
  ]
]

both_told :
    (s : System)
    → BothExited s
    → At child s.childs.pc s.childs
    → At father s.fathers.pc s.fathers
    → Told child s.childs × Told father s.fathers
both_told s ((m, c), (n, f)) a b = (
  At-Told child m s.childs c (subst (λ pc. At child pc s.childs) c a),
  At-Told father n s.fathers f (subst (λ pc. At father pc s.fathers) f b),
)

-- The two processes of fork_fd_test.c, whatever `write` does and however they are scheduled, end
-- after at most 11 steps, and one of them can step until both have ended. In every state the file
-- holds what it held at the beginning, and behind it what each of the two has written, a beginning
-- of its text, one behind the other in either order. A process that has ended has closed the file;
-- where `write` wrote, be it only a part of the text, it has told of success and returned 0, else it
-- has reported the error and returned 1.
pub both_append :
    {before : List ℕ} {k : ℕ} {s : System}
    → Reach before k s
    → (BothExited s ⊎ CanStep s)
      × (k ≤ 11)
      × Appended before s
      × (BothExited s → Told child s.childs × Told father s.fathers)
both_append {s} r =
    let inv = Reach-Inv r in
    (
      progress s,
      omega (arith, inv.steps),
      inv.appended,
      λ b. both_told s b inv.at_child inv.at_father,
    )
