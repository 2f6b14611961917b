-- ===== src/Proc/System.antt =====
-- The process table as a system: processes call the operations of xv6_lab3/proc.c in any order.
-- A step is a section under `ptable.lock`, so the steps of different processors interleave as wholes.
-- `fork`, `exit` and `growproc` are one step each, with what they do outside the lock: it changes only
-- the caller's entry, or the new one, which is EMBRYO. So is `setpriority`, with its `yield`. The
-- system thus leaves out that between two sections of these calls another process may kill the new
-- process, set its priority, or wait for it by its pid.
use slab_study.Common.{ℕ, ◌+◌, ◌^◌, ◌<◌, ◌≡◌, some, none, ℤ, arith}
use slab_study.Proc.Table.{Table, ProcState, nproc, running, Chan, wakeup1}
use slab_study.Proc.Invariant.{IsAlive, Keeps-IsValid, wakeup1-Keeps}
use slab_study.Proc.Life.{
  Services, Kernel, userinit, fork, exit, wait_pass, waitpid_pass, growproc, sleep_on, tidy_up,
}
use slab_study.Proc.Life.Fork.{fork-IsValid}
use slab_study.Proc.Life.Preserve.{
  Valid, nextpid-pos, sleep_on-Keeps, tidy_up-Keeps, growproc-Valid, exit-Valid, wait_pass-Valid,
  waitpid_pass-Valid,
}
use slab_study.Proc.Life.Boot.{IsBlank, userinit-Valid}
use slab_study.Proc.Signal.{kill, yield, setpriority}
use slab_study.Proc.Signal.Laws.{kill-Keeps, yield-Keeps, setpriority-Keeps}
use slab_study.Proc.Sched.{Cpu, dispatch, pick}
use slab_study.Proc.Sched.Pick.{pick-Elected}
use slab_study.Proc.Sched.Preserve.{dispatch-Keeps}

-- A processor's scheduler, between two of its turns.
abbrev pub idle_cpu : Table → ℕ → Cpu
idle_cpu t cur = record { table = t; cur = cur; current = none }

module _ (s : Services) where
  -- A caller is a process that runs.
  abbrev pub IsRunning : Kernel s → ℕ → Type 0
  IsRunning k cur = (cur < nproc) × ((k.table cur).state ≡ running)

  -- One step of some processor. A `fork` is a step as long as the pid counter does not wrap.
  pub data Step (k : Kernel s) : Kernel s → Type 0 where
    runs :
        (cur i : ℕ)
        → cur < nproc
        → pick k.table cur ≡ some i
        → Step k (record k { table = (dispatch (idle_cpu k.table cur) i).table })
    forks : (cur : ℕ) → IsRunning k cur → k.nextpid + 1 < 2 ^ 32 → Step k (fork s cur k).1
    exits :
        (cur status : ℕ) {k' : Kernel s}
        → IsRunning k cur
        → exit s cur status k ≡ some k'
        → Step k k'
    waits : (cur : ℕ) → IsRunning k cur → Step k (wait_pass s cur k).1
    waits_pid : (cur pid : ℕ) → IsRunning k cur → Step k (waitpid_pass s cur pid k).1
    grows : (cur : ℕ) (n : ℤ) → IsRunning k cur → Step k (growproc s cur n k).1
    kills : (pid : ℕ) → Step k (record k { table = (kill pid k.table).1 })
    yields : (cur : ℕ) → IsRunning k cur → Step k (record k { table = yield cur k.table })
    ranks :
        (cur pid : ℕ) (p : ℤ)
        → IsRunning k cur
        → Step k (record k { table = (setpriority cur pid p k.table).1 })
    sleeps :
        (cur : ℕ) (c : Chan)
        → IsRunning k cur
        → Step k (record k { table = sleep_on cur c k.table })
    tidies : (cur : ℕ) → IsRunning k cur → Step k (record k { table = tidy_up cur k.table })
    wakes : (c : Chan) → Step k (record k { table = wakeup1 c k.table })

  -- The states that the system reaches once `userinit` has made the first process.
  pub data Reach (k0 : Kernel s) : Kernel s → Type 0 where
    boot : {k : Kernel s} → userinit s k0 ≡ some k → Reach k0 k
    later : {k k' : Kernel s} → Reach k0 k → Step k k' → Reach k0 k'

  running-IsAlive : (st : ProcState) → st ≡ running → IsAlive st
  running-IsAlive st e = ground arith

  pub Step-Valid : {k k' : Kernel s} → Step k k' → Valid s k → Valid s k'
  Step-Valid {k} (runs cur i l e) v =
      Keeps-IsValid
        (dispatch-Keeps k.initproc i (idle_cpu k.table cur) (pick-Elected k.table cur l e).ready) v
  Step-Valid {k} (forks cur r small) v =
      fork-IsValid s cur k v (nextpid-pos s k v) small r.0 (running-IsAlive _ r.1)
  Step-Valid {k} (exits cur status {k' = k'} r e) v = exit-Valid s cur status k k' r.1 e v
  Step-Valid {k} (waits cur r) v = wait_pass-Valid s cur k (running-IsAlive _ r.1) v
  Step-Valid {k} (waits_pid cur pid r) v = waitpid_pass-Valid s cur pid k (running-IsAlive _ r.1) v
  Step-Valid {k} (grows cur n r) v = growproc-Valid s cur n k v
  Step-Valid {k} (kills pid) v = Keeps-IsValid (kill-Keeps pid k.initproc k.table) v
  Step-Valid {k} (yields cur r) v =
      Keeps-IsValid (yield-Keeps cur k.initproc k.table (running-IsAlive _ r.1)) v
  Step-Valid {k} (ranks cur pid p r) v =
      Keeps-IsValid (setpriority-Keeps cur pid k.initproc p k.table (running-IsAlive _ r.1)) v
  Step-Valid {k} (sleeps cur c r) v =
      Keeps-IsValid (sleep_on-Keeps cur k.initproc c k.table (running-IsAlive _ r.1)) v
  Step-Valid {k} (tidies cur r) v = Keeps-IsValid (tidy_up-Keeps cur k.initproc k.table) v
  Step-Valid {k} (wakes c) v = Keeps-IsValid (wakeup1-Keeps k.initproc c k.table) v

  -- In every state that the system reaches from the blank table, by any interleaving of the
  -- operations in which the pid counter does not wrap: no two entries share a pid other than 0, an
  -- entry in use has one, a parent has not exited, init has not exited, and all priorities lie
  -- between LOWPRIO and HIGHPRIO.
  pub Reach-Valid : {k0 k : Kernel s} → IsBlank s k0 → Reach k0 k → Valid s k
  Reach-Valid {k0} {k} b (boot e) = userinit-Valid s k0 k b e
  Reach-Valid b (later r st) = Step-Valid st (Reach-Valid b r)
