-- ===== src/Proc/Life/Fork.antt =====
-- `fork`: the new process, and what a failure leaves behind.
use slab_study.Common.{
  ℕ, ◌+◌, ◌%◌, ◌^◌, ◌<◌, ◌≡◌, ◌≢◌, inl, inr, Option, some, none, arith, pos, ◌==◌, Bool-cases,
}
use slab_study.Proc.Table.{Table, nproc, unused, runnable}
use slab_study.Proc.Invariant.{IsAlive, IsValid}
use slab_study.Proc.Life.{Services, Kernel, nofile, child_of, fork_into, fork}
use slab_study.Proc.Life.Alloc.{Fits, install-IsValid, taken, allocproc-cases}

module _ (s : Services) where
  -- The new process at `i` after a `fork` by `cur`, next to the table `t` from before.
  pub record Child (t u : Table) (cur i : ℕ) : Type 0 where
    pub below : i < nproc
    pub free : (t i).state ≡ unused
    pub ready : (u i).state ≡ runnable
    pub kin : (u i).parent ≡ some cur
    pub mapped : ((u i).pgdir ≢ 0) × ((u i).kstack ≢ 0)
    pub size : (u i).sz ≡ (t cur).sz
    pub frame :
        ((u i).tf.eax ≡ 0) × ((u i).tf.eip ≡ (t cur).tf.eip) × ((u i).tf.esp ≡ (t cur).tf.esp)
    pub dir : (u i).cwd ≡ (t cur).cwd
    pub prio : (u i).priority ≡ pos 0
    pub files : (fd f : ℕ) → fd < nofile → (t cur).ofile fd ≡ some f → (u i).ofile fd ≡ some f
    pub stale : (u i).stack_psize ≡ (t i).stack_psize
    pub rest : (j : ℕ) → j ≢ i → u j ≡ t j

  -- What `fork` owes its caller, by its result.
  abbrev pub ForkSpec : ℕ → Kernel s → Option ℕ × Kernel s → Type 0
  ForkSpec cur k (some pid, k') =
      (pid ≡ k.nextpid) × ((i : ℕ) × Child k.table k'.table cur i × ((k'.table i).pid ≡ pid))
  ForkSpec cur k (none, k') =
      ((j : ℕ) → (k.table j).state ≢ unused → k'.table j ≡ k.table j)
      × ((j : ℕ) → (k.table j).state ≡ unused → (k'.table j).state ≡ unused)

  -- The pid counter does not wrap here.
  renewed :
      (k : Kernel s) (u : Table) (i : ℕ)
      → IsValid k.table k.nextpid k.initproc
      → (k.table i).state ≡ unused
      → 0 < k.nextpid
      → k.nextpid + 1 < 2 ^ 32
      → ((j : ℕ) → j ≢ i → u j ≡ k.table j)
      → Fits k.table k.nextpid i (u i)
      → IsValid u ((k.nextpid + 1) % 2 ^ 32) k.initproc
  renewed k u i v free positive small frame f =
      let e : (k.nextpid + 1) % 2 ^ 32 ≡ k.nextpid + 1 = omega arith in
      rw e (install-IsValid k.table u k.nextpid k.initproc i v free positive frame f)

  fork_into-IsValid :
      (cur i : ℕ) (k : Kernel s)
      → IsValid k.table k.nextpid k.initproc
      → (k.table i).state ≡ unused
      → 0 < k.nextpid
      → k.nextpid + 1 < 2 ^ 32
      → cur < nproc
      → IsAlive (k.table cur).state
      → let r = fork_into s cur i (taken s i k) in IsValid r.1.table r.1.nextpid r.1.initproc
  unfolding fork_into child_of
  fork_into-IsValid cur i k v free positive small l live =
      let k1 = taken s i k in
      let p = k1.table cur in
      elim (Bool-cases ((s.copyuvm p.pgdir p.sz p.stack_psize k1.world).0 == 0)) [
        | inl failed ↦ rw failed (
            renewed k _ i v free positive small (λ j d. ground arith)
              (record {
                named = ground arith;
                kin = λ a q. inl (ground arith);
                rank = inl (ground arith);
              }))
        | inr done ↦ rw done (
            renewed k _ i v free positive small (λ j d. ground arith)
              (record {
                named = ground arith;
                kin = λ a q. let e : cur ≡ a = ground arith in inr (rw (← e) l, rw (← e) live);
                rank = inr (ground arith);
              }))
      ]

  -- `fork`, called by a process in use, keeps the table valid on every branch, as long as the pid
  -- counter is positive and does not wrap.
  pub fork-IsValid :
      (cur : ℕ) (k : Kernel s)
      → IsValid k.table k.nextpid k.initproc
      → 0 < k.nextpid
      → k.nextpid + 1 < 2 ^ 32
      → cur < nproc
      → IsAlive (k.table cur).state
      → IsValid (fork s cur k).1.table (fork s cur k).1.nextpid (fork s cur k).1.initproc
  unfolding fork
  fork-IsValid cur k v positive small l live = elim (allocproc-cases s k) [
    | inl full ↦ rw (full, fork) v
    | inr (i, _, free, how) ↦ elim how [
      | inl (page, e) ↦
          rw (e, fork)
            (renewed k _ i v free positive small (λ j d. ground arith)
              (record {
                named = ground arith;
                kin = λ a q. inl (ground arith);
                rank = inl (ground arith);
              }))
      | inr (page, e) ↦ rw (e, fork) (fork_into-IsValid cur i k v free positive small l live)
    ]
  ]
