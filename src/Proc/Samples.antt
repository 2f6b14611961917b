-- ===== src/Proc/Samples.antt =====
-- Test data for the process table: a small family of processes, and services that never fail.
use slab_study.Common.{ℕ, ◌+◌, arith, false, some, none, pos, ◌==◌, if◌then◌else◌}
use slab_study.Proc.Table.{Table, Trapframe, Proc, unused, sleeping, runnable, running, null, proc}
use slab_study.Proc.Invariant.{IsValid}
use slab_study.Proc.Life.{Services, Kernel}

-- Pages are numbered from 1, and the world is how many there are.
abbrev pub plenty : Services
plenty = record {
  World = ℕ;
  kalloc = λ w. (w + 1, w + 1);
  kfree = λ _ w. w;
  copyuvm = λ _ _ _ w. (w + 1, w + 1);
  freevm = λ _ w. w;
  allocuvm = λ _ _ new w. (new, w);
  deallocuvm = λ _ _ new w. (new, w);
  filedup = λ _ w. w;
  fileclose = λ _ w. w;
  idup = λ _ w. w;
  put_cwd = λ _ w. w;
  init_image = λ w. (w + 1, w + 1);
  root = 1;
}

abbrev no_frame : Trapframe
no_frame = record { eax = 0; esp = 0; eip = 0; cs = 0; ds = 0; es = 0; ss = 0; eflags = 0 }

abbrev pub blank : Proc
blank = record {
  sz = 0;
  pgdir = 0;
  kstack = 0;
  state = unused;
  pid = 0;
  parent = none;
  tf = no_frame;
  chan = null;
  killed = false;
  ofile = λ _. none;
  cwd = none;
  exit_status = 0;
  priority = pos 0;
  stack_psize = 0;
}

-- init waits for its child, the shell, and the shell for its own, which runs with a file open.
abbrev pub init_proc : Proc
init_proc = record blank { state = sleeping; pid = 1; chan = proc 0 }

abbrev pub shell : Proc
shell = record blank { state = sleeping; pid = 2; parent = some 0; chan = proc 1; priority = pos 5 }

abbrev pub worker : Proc
worker = record blank {
  state = running;
  pid = 3;
  parent = some 1;
  stack_psize = 2;
  ofile = λ fd. if fd == 1 then some 7 else none;
}

abbrev pub family : Table
family i = if i == 0 then init_proc else if i == 1 then shell else if i == 2 then worker else blank

pub family-IsValid : IsValid family 4 0
family-IsValid = record {
  unique = λ i j l m d e. ground arith;
  fresh = λ i l. ground arith;
  named = λ i l u. ground arith;
  parented = λ i p l e. ground arith;
  init_alive = ground arith;
  ranked = λ i l. ground arith;
}

abbrev pub household : Kernel plenty
household = record { table = family; nextpid = 4; initproc = 0; world = 0 }

-- The table as it is loaded.
abbrev pub loaded : Kernel plenty
loaded = record { table = λ _. blank; nextpid = 1; initproc = 0; world = 0 }

-- Two runnable processes, of which the entry 3 has the higher priority.
abbrev pub queue : Table
queue i =
    if i == 3
    then record blank { state = runnable; pid = 9; priority = pos 5 }
    else if i == 1
    then record blank { state = runnable; pid = 8 }
    else blank
