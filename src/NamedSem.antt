-- ===== src/NamedSem.antt =====
-- The three programs that open the semaphore "/named_sem", run one after another
-- (thread_test/named_sem_bin.c, named_sem_count.c and named_sem_no_unlink.c).
pub mod Sessions
mod Tests
use linux_application_layer.Common.{ℕ, ◌≡◌, Option, none, some, List, [], ◌∷◌, ◌==◌, if◌then◌else◌}
use linux_application_layer.Pair as Pair
use linux_application_layer.Pair.Ends as PairEnds
use linux_application_layer.Pair.Resources.{Resource, sem_name, code}
use linux_application_layer.SonFirst as SonFirst
use linux_application_layer.SonFirst.Ends as SonFirstEnds

-- `sem_open("/named_sem", O_CREAT, 0666, initial)`, given the value of a semaphore of that name.
abbrev pub opened : (initial : ℕ) → Option ℕ → ℕ
opened initial none = initial
opened initial (some v) = v

-- What stands under the name after a run that leaves these names and this value.
abbrev pub left : List Resource → ℕ → Option ℕ
left [] v = none
left (r ∷ rs) v = let rest = left rs v in if code r == code sem_name then some v else rest

pub data Named : Type 0 where
  bin count no_unlink : Named

-- `Session o ps`: the programs `ps`, the latest first, have run to their ends one after another on a
-- system that had no such name, and `o` is what stands under it.
pub data Session : Option ℕ → List Named → Type 0 where
  fresh : Session none []
  ran_bin :
      {o : Option ℕ} {ps : List Named} {k : ℕ} {w : Pair.Pair}
      → Session o ps
      → Pair.Reach Pair.shared Pair.named_sem_bin (opened 1 o) k w
      → PairEnds.BothEnded w
      → Session (left w.names w.sem) (bin ∷ ps)
  ran_count :
      {o : Option ℕ} {ps : List Named} {k : ℕ} {w : SonFirst.Pair}
      → Session o ps
      → SonFirst.Reach SonFirst.named_sem_count (opened 0 o) k w
      → SonFirstEnds.BothEnded w
      → Session (left w.names w.sem) (count ∷ ps)
  ran_no_unlink :
      {o : Option ℕ} {ps : List Named} {k : ℕ} {w : SonFirst.Pair}
      → Session o ps
      → SonFirst.Reach SonFirst.named_sem_no_unlink (opened 0 o) k w
      → SonFirstEnds.BothEnded w
      → Session (left w.names w.sem) (no_unlink ∷ ps)
