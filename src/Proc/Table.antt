-- ===== src/Proc/Table.antt =====
-- The process table of xv6_lab3/proc.c and proc.h, and the limits of param.h.
use slab_study.Common.{
  ℕ, Bool, true, false, Option, none, some, ◌==◌, ◌&&◌, if◌then◌else◌, ℤ, pos, negsuc,
}

-- `NPROC`
abbrev pub nproc : ℕ
nproc = 64

abbrev pub high_prio : ℤ
high_prio = pos 10

abbrev pub low_prio : ℤ
low_prio = negsuc 9

-- `enum procstate`
pub data ProcState : Type 0 where
  unused embryo sleeping runnable running zombie : ProcState

-- The `void *chan` that a process sleeps on: null, an entry of the process table, or some other
-- kernel object.
pub data Chan : Type 0 where
  null : Chan
  proc : ℕ → Chan
  object : ℕ → Chan

-- The registers of `struct trapframe` that this code reads or writes.
pub record Trapframe : Type 0 where
  pub eax : ℕ
  pub esp : ℕ
  pub eip : ℕ
  pub cs : ℕ
  pub ds : ℕ
  pub es : ℕ
  pub ss : ℕ
  pub eflags : ℕ

-- `struct proc`. A pointer to an entry of the table is the entry's index, one to a file or an
-- inode a number, and null is `none`; for `pgdir` and `kstack` null is 0.
-- `context` and `name`, which only `swtch` and `procdump` read, are left out.
pub record Proc : Type 0 where
  pub sz : ℕ
  pub pgdir : ℕ
  pub kstack : ℕ
  pub state : ProcState
  pub pid : ℕ
  pub parent : Option ℕ
  pub tf : Trapframe
  pub chan : Chan
  pub killed : Bool
  pub ofile : ℕ → Option ℕ
  pub cwd : Option ℕ
  pub exit_status : ℕ
  pub priority : ℤ
  pub stack_psize : ℕ

-- `ptable.proc`; the entries from `nproc` on do not exist, and no loop reaches them.
abbrev pub Table : Type 0
Table = ℕ → Proc

abbrev pub eq_state : ProcState → ProcState → Bool
eq_state unused unused = true
eq_state embryo embryo = true
eq_state sleeping sleeping = true
eq_state runnable runnable = true
eq_state running running = true
eq_state zombie zombie = true
eq_state _ _ = false

abbrev pub eq_chan : Chan → Chan → Bool
eq_chan null null = true
eq_chan (proc i) (proc j) = i == j
eq_chan (object a) (object b) = a == b
eq_chan _ _ = false

-- `p->parent == q`
abbrev pub is_child : Option ℕ → ℕ → Bool
is_child none q = false
is_child (some i) q = i == q

-- `wakeup1` and `wakeup`: every sleeper on `chan` becomes runnable.
unfoldable pub wakeup1 : Chan → Table → Table
wakeup1 chan t i =
    let p = t i in
    if eq_state p.state sleeping && eq_chan p.chan chan then record p { state = runnable } else p
