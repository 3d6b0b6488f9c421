-- ===== src/Rwlock/Turns.antt =====
-- Whether a thread has returned, which a run in a given order of turns asks at each join.
use linux_application_layer.Common.{◌≡◌, refl, arith}
use linux_application_layer.Rwlock.{
  Pc, unborn, done, rd_start, rd_entered, rd_printed, wr_start, wr_asleep, wr_entered, wr_stored,
  wr_printed, wr_loaded,
}

unfoldable pub Pc-same : (p : Pc) → Dec (p ≡ done)
Pc-same done = yes refl
Pc-same unborn = no (λ e. ground arith)
Pc-same rd_start = no (λ e. ground arith)
Pc-same rd_entered = no (λ e. ground arith)
Pc-same rd_printed = no (λ e. ground arith)
Pc-same wr_start = no (λ e. ground arith)
Pc-same wr_asleep = no (λ e. ground arith)
Pc-same wr_entered = no (λ e. ground arith)
Pc-same wr_stored = no (λ e. ground arith)
Pc-same wr_printed = no (λ e. ground arith)
Pc-same (wr_loaded t) = no (λ e. ground arith)
