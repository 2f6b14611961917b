-- ===== src/Proc/Life.antt =====
-- The life of a process in xv6_lab3/proc.c: `allocproc`, `fork`, `exit`, `wait`, `waitpid`,
-- `growproc`. Each function is what happens while `ptable.lock` is held, or between two sleeps.
pub mod Adopt
pub mod Exit
pub mod Wait
pub mod Waitpid
pub mod Alloc
pub mod Fork
pub mod Preserve
pub mod Boot
pub mod Deliver
mod Tests
use slab_study.Common.{
  ℕ, zero, suc, ◌+◌, ◌*◌, ◌-◌, ◌%◌, ◌^◌, Bool, true, false, Option, none, some, ◌&&◌, ◌||◌, not,
  ◌==◌, if◌then◌else◌, ℤ, pos, negsuc, find_index, update,
}
use slab_study.Proc.Table.{
  Table, Trapframe, nproc, Proc, unused, embryo, sleeping, runnable, zombie, eq_state, Chan, null,
  proc, is_child, wakeup1,
}

-- `NOFILE`
abbrev pub nofile : ℕ
nofile = 16

-- What proc.c calls in kalloc.c, vm.c, file.c, fs.c and log.c, over the state that those files
-- keep. A page or a page table is a number, and 0 is a null pointer, which reports a failure.
pub record Services : Type 1 where
  pub World : Type 0
  pub kalloc : World → ℕ × World
  pub kfree : ℕ → World → World
  pub copyuvm : ℕ → ℕ → ℕ → World → ℕ × World  -- page table, size, pages of stack
  pub freevm : ℕ → World → World
  pub allocuvm : ℕ → ℕ → ℕ → World → ℕ × World
  pub deallocuvm : ℕ → ℕ → ℕ → World → ℕ × World
  pub filedup : ℕ → World → World
  pub fileclose : ℕ → World → World
  pub idup : Option ℕ → World → World
  pub put_cwd : Option ℕ → World → World  -- begin_op, iput, end_op
  pub init_image : World → ℕ × World  -- setupkvm and inituvm with initcode
  pub root : ℕ  -- namei("/")

-- `curproc->parent` as a channel
abbrev pub chan_of : Option ℕ → Chan
chan_of none = null
chan_of (some i) = proc i

-- What one pass of the loop of `wait` or `waitpid` ends in: a return of the pid, with what is
-- stored in `*status`; a return of -1; or a sleep, after which the loop goes on.
pub data WaitResult : Type 0 where
  reaped : (pid status : ℕ) → WaitResult
  no_child : WaitResult
  asleep : WaitResult

-- What the scan of the table in `wait` finds: a child that has exited, or whether there are children.
pub data Scan : Type 0 where
  exited : ℕ → Scan
  others : (havekids : Bool) → Scan

-- `for(p = ptable.proc; ...)` of `wait`, over the `n` entries from `i` on.
pub scan_children : Table → ℕ → ℕ → ℕ → Bool → Scan
scan_children t cur i zero havekids = others havekids
scan_children t cur i (suc n) havekids =
    let kid = is_child (t i).parent cur in
    let rest = scan_children t cur (i + 1) n (kid || havekids) in
    if kid && eq_state (t i).state zombie then exited i else rest

-- The registers as `userinit` sets them: SEG_UCODE = 3, SEG_UDATA = 4, DPL_USER = 3, FL_IF = 2 ^ 9.
abbrev pub init_frame : Trapframe
init_frame = record {
  eax = 0;
  esp = 4096;
  eip = 0;
  cs = 3 * 8 + 3;
  ds = 4 * 8 + 3;
  es = 4 * 8 + 3;
  ss = 4 * 8 + 3;
  eflags = 0x200;
}

-- The body of the loop of `exit` that passes abandoned children to init.
pub adopt_one : ℕ → ℕ → ℕ → Table → Table
adopt_one cur init i t =
    let p = t i in
    let t' = update t i (record p { parent = some init }) in
    if is_child p.parent cur
    then (if eq_state p.state zombie then wakeup1 (proc init) t' else t')
    else t

-- That loop over the `n` entries from `i` on.
pub adopt : ℕ → ℕ → ℕ → ℕ → Table → Table
adopt cur init i zero t = t
adopt cur init i (suc n) t = adopt cur init (i + 1) n (adopt_one cur init i t)

-- The part of `exit` under `ptable.lock`, up to `sched`.
pub become_zombie : ℕ → ℕ → ℕ → Table → Table
become_zombie cur init status t =
    let t' = adopt cur init 0 nproc (wakeup1 (chan_of (t cur).parent) t) in
    update t' cur (record (t' cur) { state = zombie; exit_status = status })

-- `p->chan = chan; p->state = SLEEPING`, up to `sched`; and `p->chan = 0` behind it.
pub sleep_on : ℕ → Chan → Table → Table
sleep_on cur chan t = update t cur (record (t cur) { chan = chan; state = sleeping })

pub tidy_up : ℕ → Table → Table
tidy_up cur t = update t cur (record (t cur) { chan = null })

-- A sum of an unsigned size and an int, mod 2^32.
pub add_int : ℕ → ℤ → ℕ
add_int a (pos n) = (a + n) % 2 ^ 32
add_int a (negsuc n) = (a + (2 ^ 32 - suc n)) % 2 ^ 32

module _ (s : Services) where
  open s use {World}

  -- `ptable.proc`, `nextpid`, `initproc`, and what the other files keep.
  pub record Kernel : Type 0 where
    pub table : Table
    pub nextpid : ℕ
    pub initproc : ℕ
    pub world : World

  -- `found:` of `allocproc`. Of the frame on the new kernel stack nothing is written here: `fork`
  -- overwrites all of `tf`.
  pub alloc_slot : ℕ → Kernel → Option ℕ × Kernel
  alloc_slot i k =
      let (page, w) = s.kalloc k.world in
      let q = record (k.table i) { state = embryo; pid = k.nextpid; kstack = page } in
      if page == 0
      then (
        none,
        record k {
          table = update k.table i (record q { state = unused });
          nextpid = (k.nextpid + 1) % 2 ^ 32;
          world = w;
        },
      )
      else (
        some i,
        record k { table = update k.table i q; nextpid = (k.nextpid + 1) % 2 ^ 32; world = w },
      )

  pub allocproc : Kernel → Option ℕ × Kernel
  allocproc k = elim (find_index (λ i. eq_state (k.table i).state unused) 0 nproc) [
    | none ↦ (none, k)
    | some i ↦ alloc_slot i k
  ]

  -- `userinit` once it has the entry `i`; `none` is the panic "userinit: out of memory?".
  pub init_into : ℕ → Kernel → Option Kernel
  init_into i k =
      let (d, w) = s.init_image k.world in
      if d == 0
      then none
      else some (record k {
        table = update k.table i (record (k.table i) {
          pgdir = d;
          sz = 4096;
          tf = init_frame;
          cwd = some s.root;
          state = runnable;
        });
        initproc = i;
        world = w;
      })

  -- Without an entry `userinit` writes through a null pointer, which is `none` here.
  pub init_from : Option ℕ × Kernel → Option Kernel
  unfolding init_into
  init_from (none, k) = none
  init_from (some i, k) = init_into i k

  pub userinit : Kernel → Option Kernel
  unfolding init_from
  userinit k = init_from (allocproc k)

  -- The loop of `fork` over the file descriptors: an open file is shared, with one more
  -- reference; at a closed one the child's entry stays as it is.
  pub dup_files : (ℕ → Option ℕ) → ℕ → ℕ → (ℕ → Option ℕ) × World → (ℕ → Option ℕ) × World
  dup_files from i zero st = st
  dup_files from i (suc n) (to, w) =
      dup_files from (i + 1) n
        (elim (from i) [ some f ↦ (update to i (some f), s.filedup f w) | none ↦ (to, w) ])

  -- The child's entry, once `copyuvm` has returned the page table `d`.
  pub child_of : ℕ → Proc → ℕ → (ℕ → Option ℕ) → Proc → Proc
  child_of cur parent d files np = record np {
    pgdir = d;
    sz = parent.sz;
    parent = some cur;
    tf = record (parent.tf) { eax = 0 };
    ofile = files;
    cwd = parent.cwd;
    priority = pos 0;
    state = runnable;
  }

  -- `fork` once it has the entry `i`.
  pub fork_into : ℕ → ℕ → Kernel → Option ℕ × Kernel
  fork_into cur i k =
      let p = k.table cur in
      let np = k.table i in
      let (d, w) = s.copyuvm p.pgdir p.sz p.stack_psize k.world in
      let (files, w') = dup_files p.ofile 0 nofile (np.ofile, w) in
      if d == 0
      then (
        none,
        record k {
          table = update k.table i (record np { kstack = 0; state = unused });
          world = s.kfree np.kstack w;
        },
      )
      else (
        some np.pid,
        record k { table = update k.table i (child_of cur p d files np); world = s.idup p.cwd w' },
      )

  -- `fork` behind its call of `allocproc`, with what that returned.
  pub fork_from : ℕ → Option ℕ × Kernel → Option ℕ × Kernel
  fork_from cur (none, k) = (none, k)
  fork_from cur (some i, k) = fork_into cur i k

  -- `none` is -1.
  pub fork : ℕ → Kernel → Option ℕ × Kernel
  unfolding fork_from
  fork cur k = fork_from cur (allocproc k)

  -- The loop of `exit` that closes the open files.
  pub close_files : ℕ → ℕ → (ℕ → Option ℕ) × World → (ℕ → Option ℕ) × World
  close_files i zero st = st
  close_files i (suc n) (files, w) =
      close_files (i + 1) n
        (elim (files i) [ some f ↦ (update files i none, s.fileclose f w) | none ↦ (files, w) ])

  -- The caller's entry once its files are closed and its directory is put back.
  pub close_all : ℕ → Kernel → Kernel
  close_all cur k =
      let p = k.table cur in
      let (files, w) = close_files 0 nofile (p.ofile, k.world) in
      record k {
        table = update k.table cur (record p { ofile = files; cwd = none });
        world = s.put_cwd p.cwd w;
      }

  -- `none` is the panic "init exiting".
  pub exit : ℕ → ℕ → Kernel → Option Kernel
  exit cur status k =
      let k' = close_all cur k in
      if cur == k.initproc
      then none
      else some (record k' { table = become_zombie cur k.initproc status k'.table })

  -- The branch of `wait` and `waitpid` that has found a zombie.
  pub reap : ℕ → Kernel → WaitResult × Kernel
  reap i k =
      let p = k.table i in
      (
        reaped p.pid p.exit_status,
        record k {
          table =
              update k.table i
                (record p { kstack = 0; pid = 0; parent = none; killed = false; state = unused });
          world = s.freevm p.pgdir (s.kfree p.kstack k.world);
        },
      )

  -- One pass of the `for(;;)` of `wait`.
  pub wait_pass : ℕ → Kernel → WaitResult × Kernel
  wait_pass cur k = elim (scan_children k.table cur 0 nproc false) [
    | exited i ↦ reap i k
    | others havekids ↦
        if not havekids || (k.table cur).killed
        then (no_child, k)
        else (asleep, record k { table = sleep_on cur (proc cur) k.table })
  ]

  -- One pass of the `for(;;)` of `waitpid`; its `options` are not read.
  pub waitpid_pass : ℕ → ℕ → Kernel → WaitResult × Kernel
  waitpid_pass cur pid k = elim (find_index (λ i. (k.table i).pid == pid) 0 nproc) [
    | none ↦ (no_child, k)
    | some i ↦
        if eq_state (k.table i).state zombie
        then reap i k
        else if (k.table cur).killed
        then (no_child, k)
        else (asleep, record k { table = sleep_on cur (chan_of (k.table i).parent) k.table })
  ]

  -- `curproc->sz = sz`, unless the size that came back is 0.
  pub set_size : ℕ → Kernel → ℕ × World → Bool × Kernel
  set_size cur k (sz, w) = if sz == 0 then (false, record k { world = w }) else (
    true,
    record k { table = update k.table cur (record (k.table cur) { sz = sz }); world = w },
  )

  -- The result says whether 0 is returned, or -1.
  pub growproc : ℕ → ℤ → Kernel → Bool × Kernel
  growproc cur n k =
      let p = k.table cur in
      elim n [
        | pos m ↦
            if m == 0
            then (true, k)
            else set_size cur k (s.allocuvm p.pgdir p.sz (add_int p.sz (pos m)) k.world)
        | negsuc m ↦ set_size cur k (s.deallocuvm p.pgdir p.sz (add_int p.sz (negsuc m)) k.world)
      ]
