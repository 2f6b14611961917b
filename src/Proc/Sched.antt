-- ===== src/Proc/Sched.antt =====
-- `scheduler` of xv6_lab3/proc.c: the choice of the next process and the round-robin cursor.
pub mod Pick
pub mod Fair
pub mod Preserve
mod Tests
use slab_study.Common.{
  ℕ, zero, suc, ◌+◌, ◌-◌, Bool, true, false, Option, none, some, ◌&&◌, ltb, if◌then◌else◌, ℤ,
  negsuc, leb_ℤ, eqb_ℤ, find_index, update,
}
use slab_study.Proc.Table.{Table, nproc, Proc, runnable, running, eq_state}

-- `highest_prio` and `update`, the locals of a round.
pub record Best : Type 0 where
  pub prio : ℤ
  pub updated : Bool

-- `LOWPRIO - 1`, and no update yet.
abbrev pub unset : Best
unset = record { prio = negsuc 10; updated = false }

-- The body of the first loop of a round.
better : Proc → Best → Best
better p b =
    if eq_state p.state runnable
    then (if leb_ℤ b.prio p.priority then record { prio = p.priority; updated = true } else b)
    else b

-- The first loop: `n` entries from `i` on.
highest : Table → ℕ → ℕ → Best → Best
highest t i zero b = b
highest t i (suc n) b = highest t (i + 1) n (better (t i) b)

-- `p->state == RUNNABLE && p->priority == highest_prio`
eligible : Table → ℤ → ℕ → Bool
eligible t prio i = eq_state (t i).state runnable && eqb_ℤ (t i).priority prio

-- The two search loops: from the cursor to the end, then from the start up to the cursor.
search_from : Table → ℤ → ℕ → Option ℕ
search_from t prio cur = elim (find_index (eligible t prio) cur (nproc - cur)) [
  | some i ↦ some i
  | none ↦ find_index (eligible t prio) 0 cur
]

-- The process that a round chooses, if there is one.
pub pick : Table → ℕ → Option ℕ
pick t cur = let b = highest t 0 nproc unset in if b.updated then search_from t b.prio cur else none

-- The process table, the scheduler's local `cur`, and `c->proc`.
pub record Cpu : Type 0 where
  pub table : Table
  pub cur : ℕ
  pub current : Option ℕ

-- The choice is run: `c->proc = cur` and `cur->state = RUNNING`, up to `swtch`.
pub dispatch : Cpu → ℕ → Cpu
dispatch c i = record {
  table = update c.table i (record (c.table i) { state = running });
  cur = i;
  current = some i;
}

-- After `swtch` comes back: `++cur` with its wrap, and `c->proc = 0`.
pub retire : Cpu → Cpu
retire c = record c { cur = if ltb (c.cur + 1) nproc then c.cur + 1 else 0; current = none }

-- One turn of the `for(;;)`. While the chosen process runs, and between turns, processes change
-- the table: `ran` is what they do to it.
pub round : Cpu → (Table → Table) → Cpu
unfolding dispatch retire
round c ran = elim (pick c.table c.cur) [
  | some i ↦ let d = dispatch c i in retire (record d { table = ran d.table })
  | none ↦ record c { table = ran c.table }
]

-- The first `k` turns.
pub rounds : (ℕ → Table → Table) → Cpu → ℕ → Cpu
rounds env c zero = c
rounds env c (suc k) = round (rounds env c k) (env k)
