-- ===== src/SharedMemory/Filled.antt =====
-- What the shared bytes are, while the son copies and after it.
use linux_application_layer.Common.{
  ℕ, ◌+◌, ◌<◌, ◌≤◌, ◌≡◌, refl, ◌⊎◌, inl, inr, Bool, true, false, some, List, arith, ltb, length,
  get_or, set, sym, ℕ_discrete, length-set, get_or-set_self, get_or-set_ne,
}
use linux_application_layer.SharedMemory.{
  letter, wait, SonPc, copying, telling, unlinking, ended, never, FatherPc, sleeping, reading,
  waiting, unmapping, unlinking_too, finished, Letter, son_at, father_at, after_fork, Step, by_son,
  by_father, Run, here, next,
}

-- How many bytes the son has copied.
abbrev pub copied : SonPc → ℕ
copied (copying i) = i
copied never = 0
copied _ = 18

pub record Filled (old : List ℕ) (s : Letter) : Type 0 where
  pub sized : length s.share ≡ 100
  pub progress : copied s.son ≤ 18
  pub at_work : (i : ℕ) → s.son ≡ copying i → i ≤ 17
  pub done : (j : ℕ) → j < copied s.son → get_or s.share j 0 ≡ get_or letter j 0
  pub ahead : (j : ℕ) → copied s.son ≤ j → get_or s.share j 0 ≡ get_or old j 0

after_fork-Filled : (old : List ℕ) (b : Bool) → length old ≡ 100 → Filled old (after_fork old b)
after_fork-Filled old true h = ground arith
after_fork-Filled old false h = ground arith

zero_or_done : (i : ℕ) → i ≤ 17 → (ltb i 17 ≡ true) ⊎ ((ltb i 17 ≡ false) × (i ≡ 17))
zero_or_done i h = ground arith

-- What a step of `strcpy` does at index `i`.
record Copied (i : ℕ) (s t : Letter) : Type 0 where
  share : t.share ≡ set s.share i (get_or letter i 0)
  son : copied t.son ≡ i + 1
  bound : (j : ℕ) → t.son ≡ copying j → j ≤ 17

copies : {s t : Letter} (i : ℕ) → i ≤ 17 → son_at (copying i) s ≡ some t → Copied i s t
unfolding son_at
copies i h e = elim (zero_or_done i h) [ inl b ↦ ground arith | inr b ↦ ground arith ]

copy-Filled :
    (old : List ℕ) {s t : Letter} (i : ℕ)
    → s.son ≡ copying i
    → Copied i s t
    → Filled old s
    → Filled old t
copy-Filled old {s} {t} i q c h =
    let len = length-set s.share i (get_or letter i 0) in
    let work = h.at_work i q in
    record {
      sized = ground (arith, c.share, len, h.sized);
      progress = ground (arith, c.son, work);
      at_work = c.bound;
      done = λ j l. elim (ℕ_discrete j i) [
        | yes e ↦
            rw (c.share, e)
              (get_or-set_self s.share i (get_or letter i 0) 0 (ground (arith, work, h.sized)))
        | no n ↦
            rw (c.share, get_or-set_ne s.share i j (get_or letter i 0) 0 (λ e. n (sym e)))
              (h.done j (ground (arith, c.son, l, n)))
      ];
      ahead = λ j l.
          rw (c.share, get_or-set_ne s.share i j (get_or letter i 0) 0 (ground (arith, c.son, l)))
            (h.ahead j (ground (arith, c.son, l)));
    }

son-Filled :
    (old : List ℕ) {s t : Letter} (p : SonPc)
    → s.son ≡ p
    → son_at p s ≡ some t
    → Filled old s
    → Filled old t
unfolding son_at
son-Filled old (copying i) q e h = copy-Filled old i q (copies i (h.at_work i q) e) h
son-Filled old telling q e h = ground arith
son-Filled old unlinking q e h = ground arith
son-Filled old ended q e h = ground arith
son-Filled old never q e h = ground arith

-- The father changes neither the bytes nor the son.
pub record Apart (s t : Letter) : Type 0 where
  pub share_kept : t.share ≡ s.share
  pub son_kept : t.son ≡ s.son

wait-Apart : (s t : Letter) (p : SonPc) → wait p s ≡ some t → Apart s t
wait-Apart s t (copying i) e = ground arith
wait-Apart s t telling e = ground arith
wait-Apart s t unlinking e = ground arith
wait-Apart s t ended e = ground arith
wait-Apart s t never e = ground arith

pub father-Apart : {s t : Letter} (p : FatherPc) → father_at p s ≡ some t → Apart s t
unfolding father_at
father-Apart sleeping e = ground arith
father-Apart (reading i seen) e = ground arith
father-Apart {s} {t} waiting e = wait-Apart s t s.son e
father-Apart unmapping e = ground arith
father-Apart unlinking_too e = ground arith
father-Apart finished e = ground arith

Apart-Filled : (old : List ℕ) {s t : Letter} → Apart s t → Filled old s → Filled old t
Apart-Filled old {s} {t} a h = ground (arith, a.share_kept, a.son_kept, h)

pub Step-Filled : (old : List ℕ) {s t : Letter} → Step s t → Filled old s → Filled old t
Step-Filled old {s} (by_son e) h = son-Filled old s.son refl e h
Step-Filled old {s} (by_father e) h = Apart-Filled old (father-Apart s.father e) h

pub Run-Filled :
    (old : List ℕ) (b : Bool) {k : ℕ} {t : Letter}
    → length old ≡ 100
    → Run (after_fork old b) k t
    → Filled old t
Run-Filled old b h here = after_fork-Filled old b h
Run-Filled old b h (next r s) = Step-Filled old s (Run-Filled old b h r)
