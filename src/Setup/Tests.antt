-- ===== src/Setup/Tests.antt =====
-- The object of the integer does not open, or `fork` fails: named_sem_bin crashes or waits, and leaves
-- its semaphore.
use linux_application_layer.Common.{◌≡◌, refl, Bool, true, false}
use linux_application_layer.Setup.{Results, begun, named_sem_bin, named_sem_count}
use linux_application_layer.Setup.Monad.{ok, err, crashed, hangs, returned}
use linux_application_layer.Setup.Outcomes.{named_bin, Outcome, starts_or_leaves}

abbrev all_but : (value sem : Bool) → Results
all_but value sem = record {
  sem_opens = sem;
  sem_object_opens = true;
  value_object_opens = value;
  sem_object_grows = true;
  value_object_grows = true;
  sem_maps = true;
  value_maps = true;
  sem_object_had_size = false;
  value_object_had_size = false;
  forks = true;
  sem_value = 1;
}

crash : ((named_sem_bin (all_but false true) begun).0 ≡ err crashed)
unfolding named_sem_bin
crash = refl

checked : (named_sem_bin (all_but true false) begun).0 ≡ err (returned 255)
unfolding named_sem_bin
checked = refl

unchecked : (named_sem_count (all_but true false) begun).0 ≡ err crashed
unfolding named_sem_count
unchecked = refl

-- `fork` fails, and an earlier run has left its semaphore at zero.
abbrev no_fork : Results
no_fork = record (all_but true true) { forks = false; sem_value = 0 }

waits : (named_sem_bin no_fork begun).0 ≡ err hangs
unfolding named_sem_bin
waits = refl

-- `ftruncate` fails on objects that another run has left.
abbrev no_growth : Results
no_growth = record (all_but true true) { value_object_grows = false; value_object_had_size = true }

starts : (named_sem_bin no_growth begun).0 ≡ ok true
unfolding named_sem_bin
starts = refl

starts_or_leaves_example : Outcome named_bin no_fork
starts_or_leaves_example = starts_or_leaves named_bin no_fork
