-- ===== src/Rwlock/Lock.antt =====
-- What the calls on a readers-writer lock do.
use linux_application_layer.Common.{◌+◌, ◌-◌, ◌≡◌, ◌≢◌, ◌⊎◌, Bool, true, false, some, none, arith}
use linux_application_layer.Rwlock.{RwLock, rdlock, wrlock, unlock}

pub record RdTaken (prefer : Bool) (l l' : RwLock) : Type 0 where
  pub no_writer : l.writing ≡ 0
  pub none_asleep : prefer ≡ true → l.asleep ≡ 0
  pub readers : l'.readers ≡ l.readers + 1
  pub writing : l'.writing ≡ 0
  pub asleep : l'.asleep ≡ l.asleep

pub rdlock_takes : (prefer : Bool) (l l' : RwLock) → rdlock prefer l ≡ some l' → RdTaken prefer l l'
unfolding rdlock
rdlock_takes true l l' e = ground arith
rdlock_takes false l l' e = ground arith

pub record WrTaken (l l' : RwLock) : Type 0 where
  pub no_writer : l.writing ≡ 0
  pub no_reader : l.readers ≡ 0
  pub readers : l'.readers ≡ 0
  pub writing : l'.writing ≡ 1
  pub asleep : l'.asleep ≡ l.asleep

pub wrlock_takes : (l l' : RwLock) → wrlock l ≡ some l' → WrTaken l l'
unfolding wrlock
wrlock_takes l l' e = ground arith

-- A reader is refused by a writer inside or, if writers are preferred, by one asleep.
pub rdlock_refuses :
    (prefer : Bool) (l : RwLock) → rdlock prefer l ≡ none → (l.writing ≢ 0) ⊎ (l.asleep ≢ 0)
unfolding rdlock
rdlock_refuses prefer l e = ground arith

pub wrlock_refuses : (l : RwLock) → wrlock l ≡ none → (l.writing ≢ 0) ⊎ (l.readers ≢ 0)
unfolding wrlock
wrlock_refuses l e = ground arith

pub record Unlocked (l l' : RwLock) : Type 0 where
  pub from_writer : l.writing ≡ 1 → (l'.writing ≡ 0) × (l'.readers ≡ l.readers)
  pub from_reader : l.writing ≡ 0 → (l'.writing ≡ 0) × (l'.readers ≡ l.readers - 1)
  pub asleep : l'.asleep ≡ l.asleep

pub unlock_lem : (l : RwLock) → Unlocked l (unlock l)
unfolding unlock
unlock_lem l = ground arith
