-- ===== src/Processes/Lines.antt =====
-- What a program and those that it starts print, by the text of the program: the specification, which
-- knows no order of processes.
use mathlib.Core.Quot
use mathlib.Core.Quot.{Quot}
use linux_application_layer.Common.{
  ℕ, suc, ◌+◌, ◌≡◌, true, false, none, some, List, [], ◌∷◌, ◌++◌, arith,
}
use linux_application_layer.Processes.{
  Text, Line, Code, print, report, fork, execve, wait, pause, exit, gone, Env,
}
use linux_application_layer.Processes.Family.{Family, nobody, process}

module _ (env : Env) where
  -- `Prints code buffer lines n`: a process that still does `code`, with `buffer`, and all processes
  -- that it is still to start print `lines` in `n` steps.
  pub data Prints : Code → (buffer : List Line) → (lines : List Line) → ℕ → Type 0 where
    ended : {status : ℕ} → Prints (gone status) [] [] 0
    flushes : {status : ℕ} {buffer : List Line} → Prints (exit status) buffer buffer 1
    prints_now :
        {line : Line} {k : Code} {buffer lines : List Line} {n : ℕ}
        → env.terminal ≡ true
        → Prints k buffer lines n
        → Prints (print line k) buffer (line ∷ lines) (suc n)
    prints_later :
        {line : Line} {k : Code} {buffer lines : List Line} {n : ℕ}
        → env.terminal ≡ false
        → Prints k (buffer ++ (line ∷ [])) lines n
        → Prints (print line k) buffer lines (suc n)
    reports :
        {line : Line} {k : Code} {buffer lines : List Line} {n : ℕ}
        → Prints k buffer lines n
        → Prints (report line k) buffer (line ∷ lines) (suc n)
    forks :
        {failed child father : Code} {buffer childs fathers : List Line} {m n : ℕ}
        → env.forks ≡ true
        → Prints child buffer childs m
        → Prints father buffer fathers n
        → Prints (fork failed child father) buffer (fathers ++ childs) (suc (m + n))
    cannot_fork :
        {failed child father : Code} {buffer lines : List Line} {n : ℕ}
        → env.forks ≡ false
        → Prints failed buffer lines n
        → Prints (fork failed child father) buffer lines (suc n)
    runs :
        {path : Text} {args : List Text} {failed : Code} {main : List Text → Code}
        {buffer lines : List Line} {n : ℕ}
        → env.file path ≡ some main
        → Prints (main args) [] lines n
        → Prints (execve path args failed) buffer lines (suc n)
    cannot_run :
        {path : Text} {args : List Text} {failed : Code} {buffer lines : List Line} {n : ℕ}
        → env.file path ≡ none
        → Prints failed buffer lines n
        → Prints (execve path args failed) buffer lines (suc n)
    waits :
        {k : Code} {buffer lines : List Line} {n : ℕ}
        → Prints k buffer lines n
        → Prints (wait k) buffer lines (suc n)
    pauses :
        {k : Code} {buffer lines : List Line} {n : ℕ}
        → Prints k buffer lines n
        → Prints (pause k) buffer lines (suc n)

  pub data AllPrint : Family → (lines : List Line) → ℕ → Type 0 where
    empty : AllPrint nobody [] 0
    family :
        {code : Code} {buffer : List Line} {children siblings : Family} {ls ms ns : List Line}
        {a b c : ℕ}
        → Prints code buffer ls a
        → AllPrint children ms b
        → AllPrint siblings ns c
        → AllPrint (process code buffer children siblings) (ls ++ (ms ++ ns)) (a + (b + c))

-- The weight of some lines, where `w` gives each line its own: with one for a line and zero for all
-- others it is how often that line is there.
abbrev pub weigh : (w : Line → ℕ) → List Line → ℕ
weigh w [] = 0
weigh w (x ∷ xs) = w x + weigh w xs

pub weigh-append : (w : Line → ℕ) (xs ys : List Line) → weigh w (xs ++ ys) ≡ weigh w xs + weigh w ys
weigh-append w [] ys = omega arith
weigh-append w (x ∷ xs) ys = omega (arith, weigh-append w xs ys)

-- The same lines, each as often, in any order.
abbrev pub SameLines : List Line → List Line → Type 0
SameLines xs ys = (w : Line → ℕ) → weigh w xs ≡ weigh w ys

-- Lines without their order.
abbrev pub Bag : Type 0
Bag = Quot SameLines

abbrev pub bag : List Line → Bag
bag lines = Quot.mk lines

pub bag-eq : (xs ys : List Line) → SameLines xs ys → bag xs ≡ bag ys
bag-eq xs ys h = Quot.sound h
