-- ===== src/Processes/AnyOrder.antt =====
-- Whatever the order in which processes run, they print the lines of the specification, in its
-- number of steps, and none waits for ever.
use linux_application_layer.Common.{
  ℕ, ◌+◌, ◌≤◌, ◌≡◌, refl, ◌⊎◌, inl, inr, true, false, none, some, List, [], ◌++◌, arith, Option,
  ◌≢◌, Bool-cases, both_true, ◌&&◌,
}
use linux_application_layer.Processes.{
  Line, Code, print, report, fork, execve, wait, pause, exit, gone, Env,
}
use linux_application_layer.Processes.Family.{
  Family, nobody, process, Move, move, Step, here, below, beside, Run, is_gone, all_gone, all_ended,
  alone,
}
use linux_application_layer.Processes.Lines.{
  Prints, AllPrint, empty, family, weigh, weigh-append, bag, bag-eq,
}
use linux_application_layer.Processes.Moves.{Run-Onward, gone_rest}

all_gone-all_ended : (f : Family) → all_gone f ≡ true → all_ended f ≡ true
all_gone-all_ended nobody h = refl
all_gone-all_ended (process code buffer children siblings) h =
    let a = both_true (is_gone code) (all_gone children && all_gone siblings) h in
    let b = both_true (all_gone children) (all_gone siblings) a.1 in
    rw (a.0, all_gone-all_ended siblings b.1) refl

module _ (env : Env) where
  abbrev pub CanStep : Family → Type 0
  CanStep f = (shown : List Line) × ((g : Family) × Step env f shown g)

  -- `log` is what a run has shown after `k` steps that leave `f`: the run ends after `n` steps and has
  -- then shown `lines`, each as often, in some order; until then a process can step.
  abbrev pub EndsWith : (k : ℕ) (log : List Line) (f : Family) (n : ℕ) (lines : List Line) → Type 0
  EndsWith k log f n lines =
      ((all_gone f ≡ true) ⊎ CanStep f)
      × (k ≤ n)
      × (all_gone f ≡ true → (k ≡ n) × (bag log ≡ bag lines))

  by_move :
      {code : Code} {buffer : List Line} {children siblings : Family} (o : Option Move)
      → move env code buffer children ≡ o
      → o ≢ none
      → CanStep (process code buffer children siblings)
  by_move (some m) e h = (_, (_, here e))
  by_move none e h = absurd (h refl)

  code_moves :
      (code : Code) (buffer : List Line) (children : Family)
      → all_ended children ≡ true
      → is_gone code ≡ false
      → move env code buffer children ≢ none
  unfolding move
  code_moves (print line k) buffer children h g = ground arith
  code_moves (report line k) buffer children h g = ground arith
  code_moves (fork failed child father) buffer children h g = ground arith
  code_moves (execve path args failed) buffer children h g = ground arith
  code_moves (wait k) buffer children h g = ground arith
  code_moves (pause k) buffer children h g = ground arith
  code_moves (exit status) buffer children h g = ground arith
  code_moves (gone status) buffer children h g = ground arith

  progress : (f : Family) → (all_gone f ≡ true) ⊎ CanStep f
  progress nobody = inl refl
  progress (process code buffer children siblings) = elim (progress children) [
    | inr (_, (_, st)) ↦ inr (_, (_, below st))
    | inl c ↦ elim (Bool-cases (is_gone code)) [
      | inr g ↦ inr (
          by_move (move env code buffer children) refl
            (code_moves code buffer children (all_gone-all_ended children c) g))
      | inl g ↦ elim (progress siblings) [
        | inr (_, (_, st)) ↦ inr (_, (_, beside st))
        | inl s ↦ inl (rw (g, c, s) refl)
      ]
    ]
  ]

  finished :
      (w : Line → ℕ) {code : Code} {ls log : List Line} {g : Family} {k n : ℕ}
      → Prints env code [] ls n
      → Run env (alone code) k log g
      → all_gone g ≡ true
      → (weigh w log ≡ weigh w ls) × (k ≡ n)
  finished w {ls} {n} p r h =
      let all : AllPrint env _ (ls ++ ([] ++ [])) (n + (0 + 0)) = family p empty empty in
      let o = Run-Onward env w r all in
      let z = gone_rest env w o.all h in
      (omega (arith, o.same, z, weigh-append w ls []), omega (arith, o.sum, z))

  -- Whatever the order in which they run, a process and those that it starts end after the number of
  -- steps of the specification, one of them can step until all have ended, and then they have shown
  -- the lines of the specification, each as often, in some order.
  pub any_order :
      {code : Code} {ls log : List Line} {g : Family} {k n : ℕ}
      → Prints env code [] ls n
      → Run env (alone code) k log g
      → EndsWith k log g n ls
  any_order {ls} {log} {g} {k} {n} p r =
      let all : AllPrint env _ (ls ++ ([] ++ [])) (n + (0 + 0)) = family p empty empty in
      let o = Run-Onward env (λ l. 0) r all in
      (
        progress g,
        omega (arith, o.sum),
        λ h. ((finished (λ l. 0) p r h).1, bag-eq log ls (λ w. (finished w p r h).0)),
      )
