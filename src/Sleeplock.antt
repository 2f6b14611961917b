-- ===== src/Sleeplock.antt =====
-- xv6_lab3/sleeplock.c: locks that a process holds across sleeps. Each function is what happens while
-- the spinlock in the lock is held, or between two sleeps.
pub mod Holder
mod Tests
use slab_study.Common.{ℕ, Bool, true, false, ◌==◌, ◌&&◌, if◌then◌else◌, update}
use slab_study.Proc.Table.{Table, Chan, wakeup1}
use slab_study.Proc.Life.{sleep_on, tidy_up}

-- `struct sleeplock`; `chan` is its address as a channel.
pub record Lock : Type 0 where
  pub locked : Bool
  pub pid : ℕ
  pub chan : Chan

pub initsleeplock : Chan → Lock
initsleeplock chan = record { locked = false; pid = 0; chan = chan }

-- What a pass of the loop of `acquiresleep` ends in.
pub data Pass : Type 0 where
  asleep owned : Pass

-- A pass of the loop of `acquiresleep` by the process `cur`, with the process table that `sleep` changes.
pub acquire_pass : ℕ → Lock → Table → Pass × Lock × Table
acquire_pass cur lk t =
    if lk.locked
    then (asleep, lk, sleep_on cur lk.chan t)
    else (owned, record lk { locked = true; pid = (t cur).pid }, t)

pub releasesleep : Lock → Table → Lock × Table
releasesleep lk t = (record lk { locked = false; pid = 0 }, wakeup1 lk.chan t)

pub holdingsleep : ℕ → Lock → Table → Bool
holdingsleep cur lk t = lk.locked && lk.pid == (t cur).pid
