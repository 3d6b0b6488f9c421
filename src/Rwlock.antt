-- ===== src/Rwlock.antt =====
-- Readers and writers of one shared integer (thread_test/rwlock_test.c,
-- rwlock_test_writer_unlock.c, rwlock_write_hungry.c, rwlock_hungry_solved.c and
-- rwlock_rw_alternate.c): six readers and two writers, which `main` creates in some order and joins.
pub mod Lock
pub mod Invariant
pub mod Moves
pub mod Counted
pub mod Exact
pub mod Turns
pub mod Preference
pub mod Bounds
pub mod Unguarded
mod Tests
use mathlib.Core.Option
use linux_application_layer.Common.{
  ℕ, ◌+◌, ◌-◌, ◌≡◌, refl, ◌≢◌, Bool, true, false, Option, none, some, List, [], ◌∷◌, ◌==◌, ◌&&◌,
  ◌||◌, not, if◌then◌else◌, get_or, arith, int_suc, Option-cases, ltb,
}
use linux_application_layer.Threads.{Program, System, Step, Reach}

pub data Role : Type 0 where
  reader writer : Role

-- Where a thread stands: not created; before `rdlock` or `wrlock`; a writer asleep in `wrlock`;
-- with the lock; the writer with its `tmp`, and after the store; after the print; returned.
pub data Pc : Type 0 where
  unborn done : Pc
  rd_start rd_entered rd_printed : Pc
  wr_start wr_asleep wr_entered wr_stored wr_printed : Pc
  wr_loaded : ℕ → Pc

-- What a thread prints.
pub data Line : Type 0 where
  value_is : ℕ → Line
  incremented : Line

-- `pthread_rwlock_t`: the threads that hold it for reading, whether one holds it for writing, and
-- the writers asleep.
pub record RwLock : Type 0 where
  pub readers : ℕ
  pub writing : ℕ
  pub asleep : ℕ

pub record Mem : Type 0 where
  pub rwlock : RwLock
  pub shared_data : ℕ
  pub output : List Line  -- the latest first

-- One of the programs: whether its lock prefers writers, whether its writers take the lock, and
-- which function each thread runs, in the order of the calls of `pthread_create`.
pub record Config : Type 0 where
  pub prefer_writer : Bool
  pub writers_lock : Bool
  pub plan : List Role

-- `pthread_rwlock_rdlock`; `none`: the caller blocks.
unfoldable pub rdlock : Bool → RwLock → Option RwLock
rdlock prefer_writer l =
    if (l.writing == 0) && (not prefer_writer || (l.asleep == 0))
    then some (record l { readers = l.readers + 1 })
    else none

-- `pthread_rwlock_wrlock`
unfoldable pub wrlock : RwLock → Option RwLock
wrlock l = if (l.writing == 0) && (l.readers == 0) then some (record l { writing = 1 }) else none

-- `pthread_rwlock_unlock`
unfoldable pub unlock : RwLock → RwLock
unlock l = if l.writing == 1 then record l { writing = 0 } else record l { readers = l.readers - 1 }

-- A call of `wrlock` that finds the lock taken puts its caller to sleep.
abbrev pub first_try : Mem → Option RwLock → Mem × Pc
first_try m (some l) = (record m { rwlock = l }, wr_entered)
first_try m none =
    (record m { rwlock = record m.rwlock { asleep = m.rwlock.asleep + 1 } }, wr_asleep)

module _ (c : Config) where
  -- One step of `lock_reader` or `lock_writer`.
  unfoldable pub run_at : Mem → Pc → Option (Mem × Pc)
  run_at m rd_start =
      Option.map (λ l. (record m { rwlock = l }, rd_entered)) (rdlock c.prefer_writer m.rwlock)
  run_at m rd_entered = some (record m { output = value_is m.shared_data ∷ m.output }, rd_printed)
  run_at m rd_printed = some (record m { rwlock = unlock m.rwlock }, done)
  run_at m wr_start =
      if c.writers_lock then some (first_try m (wrlock m.rwlock)) else some (m, wr_entered)
  run_at m wr_asleep =
      Option.map (λ l. (record m { rwlock = record l { asleep = l.asleep - 1 } }, wr_entered))
        (wrlock m.rwlock)
  run_at m wr_entered = some (m, wr_loaded (int_suc m.shared_data))
  run_at m (wr_loaded tmp) = some (record m { shared_data = tmp }, wr_stored)
  run_at m wr_stored = some (record m { output = incremented ∷ m.output }, wr_printed)
  run_at m wr_printed =
      some (record m { rwlock = if c.writers_lock then unlock m.rwlock else m.rwlock }, done)
  run_at m unborn = none
  run_at m done = none

  abbrev pub start_of : Role → Pc
  start_of reader = rd_start
  start_of writer = wr_start

  abbrev pub start : ℕ → Pc
  start i = start_of (get_or c.plan i reader)

  pub stays_born : (m m' : Mem) (p p' : Pc) → run_at m p ≡ some (m', p') → p' ≢ unborn
  unfolding run_at
  stays_born m m' rd_start p' e = ground (arith, Option-cases (rdlock c.prefer_writer m.rwlock))
  stays_born m m' rd_entered p' e = ground arith
  stays_born m m' rd_printed p' e = ground arith
  stays_born m m' wr_start p' e = ground (arith, Option-cases (wrlock m.rwlock))
  stays_born m m' wr_asleep p' e = ground (arith, Option-cases (wrlock m.rwlock))
  stays_born m m' wr_entered p' e = ground arith
  stays_born m m' (wr_loaded t) p' e = ground arith
  stays_born m m' wr_stored p' e = ground arith
  stays_born m m' wr_printed p' e = ground arith
  stays_born m m' unborn p' e = ground arith
  stays_born m m' done p' e = ground arith

  pub done_stuck : (m : Mem) → run_at m done ≡ none
  unfolding run_at
  done_stuck m = refl

  pub unborn_stuck : (m : Mem) → run_at m unborn ≡ none
  unfolding run_at
  unborn_stuck m = refl

  pub start_of_born : (r : Role) → start_of r ≢ unborn
  start_of_born reader e = ground arith
  start_of_born writer e = ground arith

  pub start_born : (i : ℕ) → start i ≢ unborn
  start_born i = start_of_born (get_or c.plan i reader)

  abbrev pub program : Program Mem Pc
  program = record {
    unborn = unborn;
    start = start;
    done = done;
    body = run_at;
    output = λ m. m.shared_data;
    done_stuck = done_stuck;
    unborn_stuck = unborn_stuck;
    stays_born = stays_born;
    start_born = start_born;
  }

-- After `pthread_rwlock_init`.
abbrev pub initial : Mem
initial = record {
  rwlock = record { readers = 0; writing = 0; asleep = 0 };
  shared_data = 0;
  output = [];
}

-- The threads of `main`, in the order of their creation.
abbrev pub thread_count : ℕ
thread_count = 8

-- Writers first: rwlock_test.c and rwlock_test_writer_unlock.c.
abbrev pub writers_first : List Role
writers_first = writer ∷ writer ∷ reader ∷ reader ∷ reader ∷ reader ∷ reader ∷ reader ∷ []

-- Mixed: the other three.
abbrev pub mixed : List Role
mixed = writer ∷ reader ∷ reader ∷ reader ∷ writer ∷ reader ∷ reader ∷ reader ∷ []

abbrev pub rwlock_test : Config
rwlock_test = record { prefer_writer = false; writers_lock = true; plan = writers_first }

abbrev pub rwlock_test_writer_unlock : Config
rwlock_test_writer_unlock = record {
  prefer_writer = false;
  writers_lock = false;
  plan = writers_first;
}

abbrev pub rwlock_write_hungry : Config
rwlock_write_hungry = record { prefer_writer = false; writers_lock = true; plan = mixed }

abbrev pub rwlock_hungry_solved : Config
rwlock_hungry_solved = record { prefer_writer = true; writers_lock = true; plan = mixed }

abbrev pub rwlock_rw_alternate : Config
rwlock_rw_alternate = record { prefer_writer = false; writers_lock = true; plan = mixed }

-- A run of a program; at its end `main` has joined the eight threads and destroys the lock.
abbrev pub Runs : Config → ℕ → System Mem Pc → Type 0
Runs c = Reach (program c) thread_count initial

abbrev pub MainStep : Config → System Mem Pc → System Mem Pc → Type 0
MainStep c = Step (program c) thread_count
