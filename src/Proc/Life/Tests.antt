-- ===== src/Proc/Life/Tests.antt =====
-- Runs of `fork`, `exit` and `wait`, and the theorems on them at an input.
use slab_study.Common.{◌≡◌, refl, arith, some, find_index, update}
use slab_study.Proc.Table.{null, runnable, wakeup1}
use slab_study.Proc.Invariant.{IsValid}
use slab_study.Proc.Samples.{plenty, family, family-IsValid, household, loaded}
use slab_study.Proc.Life.{
  Kernel, reaped, become_zombie, exit, allocproc, alloc_slot, init_frame, init_into, userinit, fork,
  fork_into, dup_files, child_of, wait_pass, waitpid_pass, reap, scan_children, adopt, adopt_one,
}
use slab_study.Proc.Life.Exit.{Exited, become_zombie_lem}
use slab_study.Proc.Life.Wait.{WaitSpec, wait_pass_lem}
use slab_study.Proc.Life.Waitpid.{WaitpidSpec, waitpid_by_pid}
use slab_study.Proc.Life.Alloc.{taken}
use slab_study.Proc.Life.Deliver.{after_exit, exit_then_wait}
use slab_study.Proc.Life.Preserve.{Valid}
use slab_study.Proc.Life.Boot.{IsBlank}
use slab_study.Proc.System.{boot, later, wakes, Reach-Valid}

fork_returns_pid : (fork plenty 2 household).0 ≡ some 4
unfolding fork allocproc alloc_slot fork_into dup_files child_of find_index
fork_returns_pid = refl

-- The child of a process with two pages of stack is not told of them.
fork_forgets_stack : ((fork plenty 2 household).1.table 3).stack_psize ≡ 0
unfolding fork allocproc alloc_slot fork_into dup_files child_of find_index
fork_forgets_stack = refl

worker_is_reaped : (wait_pass plenty 1 (after_exit plenty 2 7 household)).0 ≡ reaped 3 7
unfolding wait_pass become_zombie scan_children reap adopt adopt_one wakeup1
worker_is_reaped = refl

become_zombie_lem_example :
    IsValid (become_zombie 2 0 7 family) 4 0 × Exited family (become_zombie 2 0 7 family) 2 0 7
become_zombie_lem_example = become_zombie_lem family 4 0 2 7 family-IsValid refl (λ e. omega arith)

exit_then_wait_example :
    (k : Kernel plenty) × (exit plenty 2 7 household ≡ some k)
    × ((wait_pass plenty 1 k).0 ≡ reaped 3 7)
exit_then_wait_example =
    exit_then_wait plenty household 2 1 7 family-IsValid (omega arith) refl (λ e. omega arith) refl
      (λ e. omega arith) (λ e. omega arith) (λ j l e. ground arith)

wait_pass_lem_example : WaitSpec plenty 1 household (wait_pass plenty 1 household)
wait_pass_lem_example = wait_pass_lem plenty 1 household

waitpid_by_pid_example : WaitpidSpec plenty 0 2 household (waitpid_pass plenty 0 3 household)
waitpid_by_pid_example =
    waitpid_by_pid plenty 0 2 4 household family-IsValid (omega arith) (λ e. cc)

loaded-IsBlank : IsBlank plenty loaded
loaded-IsBlank = record {
  first = refl;
  free = λ i. refl;
  unnamed = λ i. refl;
  orphan = λ i. refl;
  plain = λ i. refl;
}

-- The state once `userinit` has made the first process.
abbrev booted : Kernel plenty
booted =
    let k = taken plenty 0 loaded in
    record k {
      table = update k.table 0 (record (k.table 0) {
        pgdir = 2;
        sz = 4096;
        tf = init_frame;
        cwd = some 1;
        state = runnable;
      });
      initproc = 0;
      world = 2;
    }

boots : userinit plenty loaded ≡ some booted
unfolding userinit allocproc alloc_slot init_into find_index
boots = refl

Reach-Valid_example : Valid plenty (record booted { table = wakeup1 null booted.table })
Reach-Valid_example = Reach-Valid plenty loaded-IsBlank (later (boot boots) (wakes null))
