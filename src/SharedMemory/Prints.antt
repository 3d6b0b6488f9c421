-- ===== src/SharedMemory/Prints.antt =====
-- What the father prints, while the son may still be copying and after it.
use linux_application_layer.Common.{
  ℕ, zero, suc, ◌+◌, ◌<◌, ◌≤◌, ◌≡◌, refl, ◌≢◌, ◌⊎◌, some, List, [], ◌∷◌, ◌++◌, arith, length,
  get_or, take, ℕ_discrete,
}
use linux_application_layer.SharedMemory.{
  letter, wait, SonPc, copying, telling, unlinking, ended, never, FatherPc, sleeping, reading,
  waiting, unmapping, unlinking_too, finished, Letter, son_at, father_at, Step, by_son, by_father,
}

-- The bytes are the letter's with zeros from somewhere at or after `low`.
pub record Prefix (low : ℕ) (s : Letter) : Type 0 where
  pub bytes : (j : ℕ) → j ≤ 17 → (get_or s.share j 0 ≡ 0) ⊎ (get_or s.share j 0 ≡ get_or letter j 0)
  pub stop : get_or s.share 17 0 ≡ 0
  pub full : (j : ℕ) → j < low → get_or s.share j 0 ≢ 0

abbrev pub Part : ℕ → List ℕ → Type 0
Part low v = (i : ℕ) × ((low ≤ i) × (i ≤ 17) × (v ≡ take i letter))

abbrev pub Reads : ℕ → FatherPc → List (List ℕ) → Type 0
Reads low sleeping log = log ≡ []
Reads low (reading i seen) log = (log ≡ []) × (i ≤ 17) × (seen ≡ take i letter)
Reads low _ log = (v : List ℕ) × (Part low v × (log ≡ v ∷ []))

take-suc {ℓ} :
    {A : Type ℓ} (xs : List A) (i : ℕ) (d : A)
    → i < length xs
    → take (i + 1) xs ≡ take i xs ++ (get_or xs i d ∷ [])
take-suc [] i d h = absurd (omega arith)
take-suc (x ∷ xs) zero d h = refl
take-suc (x ∷ xs) (suc i) d h =
    let e : suc i + 1 ≡ suc (i + 1) = omega arith in rw (e, take-suc xs i d (omega arith)) refl

reads_nul :
    (low : ℕ) {s t : Letter} (i : ℕ) (seen : List ℕ)
    → get_or s.share i 0 ≡ 0
    → Prefix low s
    → Reads low (reading i seen) s.printed
    → father_at (reading i seen) s ≡ some t
    → Reads low t.father t.printed
unfolding father_at
reads_nul low {s} {t} i seen z p r e =
    let at_least : low ≤ i = ground (arith, z, p.full i) in
    let father : t.father ≡ waiting = ground arith in
    let printed : t.printed ≡ seen ∷ s.printed = ground arith in
    rw (father, printed, r.0) (seen, ((i, (at_least, r.1, r.2)), refl))

reads_byte :
    (low : ℕ) {s t : Letter} (i : ℕ) (seen : List ℕ)
    → get_or s.share i 0 ≢ 0
    → Prefix low s
    → Reads low (reading i seen) s.printed
    → father_at (reading i seen) s ≡ some t
    → Reads low t.father t.printed
unfolding father_at
reads_byte low {s} {t} i seen n p r e =
    let byte : get_or s.share i 0 ≡ get_or letter i 0 = ground (arith, n, p.bytes i r.1) in
    let inside : i < 17 = ground (arith, n, p.stop, r.1) in
    let father : t.father ≡ reading (i + 1) (seen ++ (get_or s.share i 0 ∷ [])) = ground arith in
    let printed : t.printed ≡ s.printed = ground arith in
    rw (father, printed) (r.0, omega (arith, inside), cc (take-suc letter i 0 inside, byte, r.2))

wait_reads :
    (low : ℕ) (s t : Letter) (p : SonPc)
    → Reads low waiting s.printed
    → wait p s ≡ some t
    → Reads low t.father t.printed
wait_reads low s t (copying i) r e = ground arith
wait_reads low s t telling r e = ground arith
wait_reads low s t unlinking r e = ground arith
wait_reads low s t ended r e =
    let father : t.father ≡ unmapping = ground arith in
    let printed : t.printed ≡ s.printed = ground arith in rw (father, printed) r
wait_reads low s t never r e =
    let father : t.father ≡ unmapping = ground arith in
    let printed : t.printed ≡ s.printed = ground arith in rw (father, printed) r

father_reads :
    (low : ℕ) {s t : Letter} (p : FatherPc)
    → Prefix low s
    → Reads low p s.printed
    → father_at p s ≡ some t
    → Reads low t.father t.printed
unfolding father_at
father_reads low {s} {t} sleeping h r e =
    let father : t.father ≡ reading 0 [] = ground arith in
    let printed : t.printed ≡ s.printed = ground arith in
    rw (father, printed) (r, omega arith, refl)
father_reads low {s} {t} (reading i seen) h r e = elim (ℕ_discrete (get_or s.share i 0) 0) [
  | yes z ↦ reads_nul low i seen z h r e
  | no n ↦ reads_byte low i seen n h r e
]
father_reads low {s} {t} waiting h r e = wait_reads low s t s.son r e
father_reads low {s} {t} unmapping h r e =
    let father : t.father ≡ unlinking_too = ground arith in
    let printed : t.printed ≡ s.printed = ground arith in rw (father, printed) r
father_reads low {s} {t} unlinking_too h r e =
    let father : t.father ≡ finished = ground arith in
    let printed : t.printed ≡ s.printed = ground arith in rw (father, printed) r
father_reads low {s} {t} finished h r e = ground arith

-- The son leaves the father alone.
pub record Aside (s t : Letter) : Type 0 where
  pub father_kept : t.father ≡ s.father
  pub printed_kept : t.printed ≡ s.printed

pub son-Aside : (s t : Letter) (p : SonPc) → son_at p s ≡ some t → Aside s t
unfolding son_at
son-Aside s t (copying i) e = ground arith
son-Aside s t telling e = ground arith
son-Aside s t unlinking e = ground arith
son-Aside s t ended e = ground arith
son-Aside s t never e = ground arith

pub Step-Reads :
    (low : ℕ) {s t : Letter}
    → Step s t
    → Prefix low s
    → Reads low s.father s.printed
    → Reads low t.father t.printed
Step-Reads low {s} (by_father e) h r = father_reads low s.father h r e
Step-Reads low {s} {t} (by_son e) h r =
    let a = son-Aside s t s.son e in rw (a.father_kept, a.printed_kept) r
