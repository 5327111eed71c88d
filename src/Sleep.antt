-- ===== src/Sleep.antt =====
-- kernel/src/sleeplock.rs: the sleep lock, over the process table. A stretch under its spin lock is one
-- step: a test of `lock`, which takes the lock or goes to sleep, and the drop of a guard.
pub mod Steps
mod Tests
use octopos.Base.{ℕ, Bool, true, false, Option, none, some, List, if◌then◌else◌, set}
use octopos.Proc.{ProcInner, Channel, lock, sleep_inner, wakeup}

pub record SleepLockInner : Type 0 where
  pub locked : Bool
  pub pid : Option ℕ

-- `SleepLock::new`
abbrev pub new_lock : SleepLockInner
new_lock = record { locked = false; pid = none }

-- One test of the loop of `SleepLock::lock`, by the process `me` that runs `p`; `addr` is the address of
-- the lock.
pub lock_round :
    ℕ → ℕ → ProcInner → SleepLockInner → List ProcInner → Bool × SleepLockInner × List ProcInner
lock_round addr me p s ps =
    if s.locked
    then (false, s, set ps me (sleep_inner (lock addr) p))
    else (true, record { locked = true; pid = some p.pid }, ps)

-- `SleepLockGuard::drop`
pub drop_guard : ℕ → Option ℕ → SleepLockInner → List ProcInner → SleepLockInner × List ProcInner
drop_guard addr me s ps = (record s { locked = false; pid = none }, wakeup me (lock addr) ps)
