-- ===== src/Proc/Signal.antt =====
-- The short operations of xv6_lab3/proc.c on the process table: `kill`, `yield`, `getpriority`,
-- `setpriority`.
pub mod Laws
mod Tests
use slab_study.Common.{
  ℕ, Bool, true, false, Option, none, some, ◌||◌, ◌==◌, if◌then◌else◌, ℤ, ltb_ℤ, find_index, update,
}
use slab_study.Proc.Table.{Table, nproc, sleeping, runnable, eq_state, high_prio, low_prio}

-- The first entry with this pid.
pub find_pid : Table → ℕ → Option ℕ
find_pid t pid = find_index (λ i. (t i).pid == pid) 0 nproc

-- The first result says whether 0 is returned, or -1.
pub kill : ℕ → Table → Bool × Table
kill pid t = elim (find_pid t pid) [
  | none ↦ (false, t)
  | some i ↦
      let p = record (t i) { killed = true } in
      (true, update t i (if eq_state p.state sleeping then record p { state = runnable } else p))
]

-- `yield`, up to `sched`
pub yield : ℕ → Table → Table
yield cur t = update t cur (record (t cur) { state = runnable })

-- A pid of 0 names the caller.
pub target : Table → ℕ → ℕ → ℕ
target t cur pid = if pid == 0 then (t cur).pid else pid

pub setpriority : ℕ → ℕ → ℤ → Table → Bool × Table
setpriority cur pid priority t =
    if ltb_ℤ priority low_prio || ltb_ℤ high_prio priority
    then (false, t)
    else elim (find_pid t (target t cur pid)) [
      | none ↦ (false, t)
      | some i ↦ (true, yield cur (update t i (record (t i) { priority = priority })))
    ]

-- `out` is the int that the argument `priority` points at. The assignment `priority = &p->priority`
-- changes the local pointer only.
pub getpriority : ℕ → ℕ → ℤ → Table → Bool × ℤ
getpriority cur pid out t = elim (find_pid t (target t cur pid)) [
  | none ↦ (false, out)
  | some i ↦ (true, out)
]
