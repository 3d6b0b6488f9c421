-- ===== src/Counter.antt =====
-- The programs that add one to a shared `int` from many threads (race_condition_test.c, mutex_test.c,
-- unnamed_sem_bin_thread.c and unnamed_sem_bin_thread_condition.c, all under thread_test).
pub mod Lock
pub mod Guarded
pub mod Racy
pub mod MutexTest
pub mod SemBinThread
pub mod RaceConditionTest
pub mod SemBinThreadCondition
mod Tests
