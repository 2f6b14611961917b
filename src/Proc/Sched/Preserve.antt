-- ===== src/Proc/Sched/Preserve.antt =====
-- To run a runnable process keeps the process table valid.
use slab_study.Common.{ℕ, ◌≡◌, refl, arith}
use slab_study.Proc.Table.{runnable}
use slab_study.Proc.Invariant.{Keeps, Keeps-update}
use slab_study.Proc.Sched.{Cpu, dispatch}

pub dispatch-Keeps :
    (init i : ℕ) (c : Cpu) → (c.table i).state ≡ runnable → Keeps init c.table (dispatch c i).table
unfolding dispatch
dispatch-Keeps init i c e =
    Keeps-update init c.table i _ refl refl (λ _. ground arith) (λ _. ground arith) (λ r. r)
