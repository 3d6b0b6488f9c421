-- ===== src/Processes/Moves.antt =====
-- How a step of one process changes what is still printed, and in how many steps.
use mathlib.Core.Option.{some-injective}
use linux_application_layer.Common.{
  ℕ, suc, ◌+◌, ◌≡◌, refl, inl, inr, true, some, List, ◌++◌, arith, ◌&&◌, Bool-cases, both_true,
  subst,
}
use linux_application_layer.Processes.{Line, Code, Env}
use linux_application_layer.Processes.Family.{
  Family, Move, move, Step, here, below, beside, Run, still, next, is_gone, all_ended, all_gone,
}
use linux_application_layer.Processes.Lines.{
  Prints, ended, flushes, prints_now, prints_later, reports, forks, cannot_fork, runs, cannot_run,
  waits, pauses, AllPrint, empty, family, weigh, weigh-append,
}

module _ (env : Env) (w : Line → ℕ) where
  -- What is still printed after a move, and in how many steps.
  record Follows (m : Move) (weight steps : ℕ) : Type 0 where
    ls : List Line
    ms : List Line
    a : ℕ
    b : ℕ
    code : Prints env m.code m.buffer ls a
    children : AllPrint env m.children ms b
    same : weigh w m.shown + weigh w ls + weigh w ms ≡ weight
    nearer : suc (a + b) ≡ steps

  follows :
      {m n : Move} {ls ms : List Line} {a b weight steps : ℕ}
      → some n ≡ some m
      → Prints env n.code n.buffer ls a
      → AllPrint env n.children ms b
      → weigh w n.shown + weigh w ls + weigh w ms ≡ weight
      → suc (a + b) ≡ steps
      → Follows m weight steps
  follows {weight} {steps} e p c same nearer =
      subst (λ z. Follows z weight steps) (some-injective _ _ e)
        (record {
          ls = _;
          ms = _;
          a = _;
          b = _;
          code = p;
          children = c;
          same = same;
          nearer = nearer;
        })

  moves :
      {code : Code} {buffer ls ms : List Line} {children : Family} {m : Move} {a b : ℕ}
      → move env code buffer children ≡ some m
      → Prints env code buffer ls a
      → AllPrint env children ms b
      → Follows m (weigh w ls + weigh w ms) (a + b)
  unfolding move
  moves e ended c = absurd (ground (arith, e))
  moves e flushes c = follows e ended c (omega arith) (omega arith)
  moves e (prints_now t p) c = follows (rw t at e) p c (omega arith) (omega arith)
  moves e (prints_later t p) c = follows (rw t at e) p c (omega arith) (omega arith)
  moves e (reports p) c = follows e p c (omega arith) (omega arith)
  moves e (forks {childs = ls} {fathers = fs} t p q) c =
      follows (rw t at e) q (family p empty c)
        (omega (arith, weigh-append w ls _, weigh-append w fs ls)) (omega arith)
  moves e (cannot_fork t p) c = follows (rw t at e) p c (omega arith) (omega arith)
  moves e (runs t p) c = follows (rw t at e) p c (omega arith) (omega arith)
  moves e (cannot_run t p) c = follows (rw t at e) p c (omega arith) (omega arith)
  moves {children} e (waits p) c = elim (Bool-cases (all_ended children)) [
    | inl t ↦ follows (rw t at e) p c (omega arith) (omega arith)
    | inr t ↦ absurd (ground (arith, t, e))
  ]
  moves e (pauses p) c = follows e p c (omega arith) (omega arith)

  record After (g : Family) (shown : List Line) (weight steps : ℕ) : Type 0 where
    rest : List Line
    left : ℕ
    all : AllPrint env g rest left
    same : weigh w shown + weigh w rest ≡ weight
    nearer : suc left ≡ steps

  Step-After :
      {f g : Family} {shown ls : List Line} {n : ℕ}
      → Step env f shown g
      → AllPrint env f ls n
      → After g shown (weigh w ls) n
  Step-After (here e) (family {ls} {ms} {ns} p c s) =
      let f = moves e p c in
      let before = weigh-append w ls (ms ++ ns) in
      let before_too = weigh-append w ms ns in
      let now = weigh-append w f.ls (f.ms ++ ns) in
      let now_too = weigh-append w f.ms ns in
      record {
        rest = _;
        left = _;
        all = family f.code f.children s;
        same = omega (arith, before, before_too, now, now_too, f.same);
        nearer = omega (arith, f.nearer);
      }
  Step-After (below st) (family {ls} {ms} {ns} p c s) =
      let a = Step-After st c in
      let before = weigh-append w ls (ms ++ ns) in
      let before_too = weigh-append w ms ns in
      let now = weigh-append w ls (a.rest ++ ns) in
      let now_too = weigh-append w a.rest ns in
      record {
        rest = _;
        left = _;
        all = family p a.all s;
        same = omega (arith, before, before_too, now, now_too, a.same);
        nearer = omega (arith, a.nearer);
      }
  Step-After (beside st) (family {ls} {ms} {ns} p c s) =
      let a = Step-After st s in
      let before = weigh-append w ls (ms ++ ns) in
      let before_too = weigh-append w ms ns in
      let now = weigh-append w ls (ms ++ a.rest) in
      let now_too = weigh-append w ms a.rest in
      record {
        rest = _;
        left = _;
        all = family p c a.all;
        same = omega (arith, before, before_too, now, now_too, a.same);
        nearer = omega (arith, a.nearer);
      }

  pub record Onward (g : Family) (log : List Line) (k weight steps : ℕ) : Type 0 where
    pub rest : List Line
    pub left : ℕ
    pub all : AllPrint env g rest left
    pub same : weigh w log + weigh w rest ≡ weight
    pub sum : k + left ≡ steps

  pub Run-Onward :
      {f g : Family} {log ls : List Line} {k n : ℕ}
      → Run env f k log g
      → AllPrint env f ls n
      → Onward g log k (weigh w ls) n
  Run-Onward still c = record { rest = _; left = _; all = c; same = omega arith; sum = omega arith }
  Run-Onward (next {log} {shown} r st) c =
      let o = Run-Onward r c in
      let a = Step-After st o.all in
      record {
        rest = a.rest;
        left = a.left;
        all = a.all;
        same = omega (arith, weigh-append w log shown, o.same, a.same);
        sum = omega (arith, o.sum, a.nearer);
      }

  gone_prints :
      {code : Code} {buffer ls : List Line} {n : ℕ}
      → Prints env code buffer ls n
      → is_gone code ≡ true
      → (weigh w ls ≡ 0) × (n ≡ 0)
  gone_prints ended h = (refl, refl)
  gone_prints flushes h = absurd (ground (arith, h))
  gone_prints (prints_now t p) h = absurd (ground (arith, h))
  gone_prints (prints_later t p) h = absurd (ground (arith, h))
  gone_prints (reports p) h = absurd (ground (arith, h))
  gone_prints (forks t p q) h = absurd (ground (arith, h))
  gone_prints (cannot_fork t p) h = absurd (ground (arith, h))
  gone_prints (runs t p) h = absurd (ground (arith, h))
  gone_prints (cannot_run t p) h = absurd (ground (arith, h))
  gone_prints (waits p) h = absurd (ground (arith, h))
  gone_prints (pauses p) h = absurd (ground (arith, h))

  pub gone_rest :
      {g : Family} {ls : List Line} {n : ℕ}
      → AllPrint env g ls n
      → all_gone g ≡ true
      → (weigh w ls ≡ 0) × (n ≡ 0)
  gone_rest empty h = (refl, refl)
  gone_rest (family {code} {children} {siblings} {ls} {ms} {ns} p c s) h =
      let (own, others) = both_true (is_gone code) (all_gone children && all_gone siblings) h in
      let (children_gone, siblings_gone) =
        both_true (all_gone children) (all_gone siblings) others in
      let ls_0 = gone_prints p own in
      let ms_0 = gone_rest c children_gone in
      let ns_0 = gone_rest s siblings_gone in
      let sum = weigh-append w ls (ms ++ ns) in
      let sum_too = weigh-append w ms ns in
      (omega (arith, sum, sum_too, ls_0, ms_0, ns_0), omega (arith, ls_0, ms_0, ns_0))
