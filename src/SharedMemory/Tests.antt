-- ===== src/SharedMemory/Tests.antt =====
-- Runs of shared_memory.c, and the theorems there.
use linux_application_layer.Common.{
  ℕ, suc, ◌≤◌, zero, ◌≡◌, refl, ◌⊎◌, ◌↔◌, true, false, Option, none, some, List, [], ◌∷◌, replicate,
  take,
}
use linux_application_layer.SharedMemory.{
  letter, telling, Letter, son_at, father_at, after_fork, zeroed, main, exits, block_main,
  block_next, by_son, by_father, Run, here, next,
}
use linux_application_layer.SharedMemory.Prints.{Part}
use linux_application_layer.SharedMemory.Parts.{CanPrint, prints_parts}
use linux_application_layer.SharedMemory.Whole.{HasLetter, whole_letter}
use linux_application_layer.SharedMemory.Ends.{CanStep, BothEnded, Left, letter_ends}

record To (s : Letter) : Type 0 where
  steps : ℕ
  last : Letter
  run : Run s steps last

step_son : {s : Letter} (r : To s) (o : Option Letter) → son_at r.last.son r.last ≡ o → To s
step_son r none e = r
step_son r (some t) e = record { steps = suc r.steps; last = t; run = next r.run (by_son e) }

step_father :
    {s : Letter} (r : To s) (o : Option Letter) → father_at r.last.father r.last ≡ o → To s
step_father r none e = r
step_father r (some t) e = record { steps = suc r.steps; last = t; run = next r.run (by_father e) }

sons : {s : Letter} → ℕ → To s → To s
unfolding step_son
sons zero r = r
sons (suc n) r = sons n (step_son r (son_at r.last.son r.last) refl)

fathers : {s : Letter} → ℕ → To s → To s
unfolding step_father
fathers zero r = r
fathers (suc n) r = fathers n (step_father r (father_at r.last.father r.last) refl)

abbrev stand : (s : Letter) → To s
stand s = record { steps = 0; last = s; run = here }

-- An object that another process with this number has left.
abbrev left_over : List ℕ
left_over = replicate 100 88

abbrev copied_over : To (after_fork left_over true)
copied_over = sons 18 (stand (after_fork left_over true))

abbrev read_after : To copied_over.last
read_after = fathers 19 (stand copied_over.last)

reads_all : (copied_over.last.son ≡ telling) × (read_after.last.printed ≡ letter ∷ [])
unfolding sons fathers son_at father_at
reads_all = (refl, refl)

-- The father reads five bytes, with the son at its fourth.
abbrev early : To (after_fork zeroed true)
early = sons 20 (fathers 5 (sons 3 (stand (after_fork zeroed true))))

early_reads : (early.last.printed ≡ take 3 letter ∷ []) × (early.steps ≡ 25)
unfolding sons fathers son_at father_at
early_reads = (refl, refl)

-- On that object a father that wakes up before `strcpy` reads all that the object held.
abbrev read_over : To (after_fork left_over true)
read_over = sons 20 (fathers 102 (stand (after_fork left_over true)))

reads_over : (read_over.last.printed ≡ left_over ∷ []) × (read_over.steps ≡ 122)
unfolding sons fathers son_at father_at
reads_over = (refl, refl)

-- Where `mmap` fails the name stays.
mmap_fails : main true false true zeroed ≡ exits 1 true
mmap_fails = refl

block_loops : block_next (block_main true) ≡ some (block_main true)
block_loops = refl

abbrev a_pid : ℕ
a_pid = 4321

prints_parts_example : CanPrint letter ↔ Part 0 letter
prints_parts_example = prints_parts letter

whole_letter_example : HasLetter read_after.last.father read_after.last.printed
unfolding sons son_at
whole_letter_example = whole_letter left_over refl copied_over.run refl refl read_after.run

letter_ends_example :
    (BothEnded read_over.last ⊎ CanStep read_over.last)
    × (read_over.steps ≤ 125)
    × (BothEnded read_over.last → Left read_over.last)
letter_ends_example = letter_ends left_over true refl read_over.run
