-- ===== src/Processes/Still.antt =====
-- Processes that start no other, and processes that have ended.
use linux_application_layer.Common.{◌≡◌, ◌≢◌, true, false, some, List, arith, ◌&&◌, both_true}
use linux_application_layer.Processes.{
  Line, Code, print, report, fork, execve, wait, pause, exit, gone, Env,
}
use linux_application_layer.Processes.Family.{
  Family, nobody, Move, move, Step, here, below, beside, is_gone, all_gone,
}

-- A program that starts no other.
abbrev pub StartsNone : Code → Type 0
StartsNone (print line k) = StartsNone k
StartsNone (report line k) = StartsNone k
StartsNone (fork failed child father) = ⊥
StartsNone (execve path args failed) = ⊥
StartsNone (wait k) = StartsNone k
StartsNone (pause k) = StartsNone k
StartsNone (exit status) = Unit
StartsNone (gone status) = Unit

module _ (env : Env) where
  pub single_move :
      (c : Code) (b : List Line) (m : Move)
      → move env c b nobody ≡ some m
      → StartsNone c
      → StartsNone m.code × (m.children ≡ nobody) × (is_gone c ≡ false)
  unfolding move
  single_move (print line k) b m e h = ground (arith, h)
  single_move (report line k) b m e h = ground (arith, h)
  single_move (fork failed child father) b m e h = absurd h
  single_move (execve path args failed) b m e h = absurd h
  single_move (wait k) b m e h = ground (arith, h)
  single_move (pause k) b m e h = ground (arith, h)
  single_move (exit status) b m e h = ground (arith, h)
  single_move (gone status) b m e h = ground (arith, e)

  gone_code :
      (c : Code) (b : List Line) (cs : Family) (m : Move)
      → move env c b cs ≡ some m
      → is_gone c ≢ true
  unfolding move
  gone_code (print line k) b cs m e h = ground (arith, h)
  gone_code (report line k) b cs m e h = ground (arith, h)
  gone_code (fork failed child father) b cs m e h = ground (arith, h)
  gone_code (execve path args failed) b cs m e h = ground (arith, h)
  gone_code (wait k) b cs m e h = ground (arith, h)
  gone_code (pause k) b cs m e h = ground (arith, h)
  gone_code (exit status) b cs m e h = ground (arith, h)
  gone_code (gone status) b cs m e h = ground (arith, e)

  -- Where all have ended, nothing moves.
  pub gone_still : {f g : Family} {shown : List Line} → Step env f shown g → all_gone f ≢ true
  gone_still (here {code} {children} {siblings} e) h =
      gone_code code _ _ _ e (both_true (is_gone code) (all_gone children && all_gone siblings) h).0
  gone_still (below {code} {children} {siblings} st) h =
      let others = both_true (is_gone code) (all_gone children && all_gone siblings) h in
      gone_still st (both_true (all_gone children) (all_gone siblings) others.1).0
  gone_still (beside {code} {children} {siblings} st) h =
      let others = both_true (is_gone code) (all_gone children && all_gone siblings) h in
      gone_still st (both_true (all_gone children) (all_gone siblings) others.1).1

  pub nobody_still : {g : Family} {shown : List Line} → ¬ Step env nobody shown g
  nobody_still st = elim st [ ]
