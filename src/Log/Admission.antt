-- ===== src/Log/Admission.antt =====
-- `begin_op`, `end_op` and `log_write` of xv6_lab3/log.c: which system calls enter a transaction,
-- and how the list of its blocks grows.
pub mod Recording
pub mod Budget
pub mod Full
mod Tests
use slab_study.Common.{
  ℕ, zero, suc, ◌+◌, ◌-◌, ◌*◌, Bool, true, false, Option, some, none, ltb, leb, ◌==◌, ◌||◌,
  if◌then◌else◌, find_index, update,
}

-- `MAXOPBLOCKS` and `LOGSIZE`
abbrev pub max_op_blocks : ℕ
max_op_blocks = 10

abbrev pub log_size : ℕ
log_size = max_op_blocks * 3

-- `struct log` in memory, and the buffers that B_DIRTY keeps in the cache.
pub record Log : Type 0 where
  pub size : ℕ
  pub outstanding : ℕ
  pub committing : Bool
  pub n : ℕ
  pub block : ℕ → ℕ
  pub dirty : ℕ → Bool

-- What a pass of the loop of `begin_op` ends in.
pub data Entry : Type 0 where
  asleep entered : Entry

pub begin_pass : Log → Entry × Log
begin_pass l =
    if l.committing
    then (asleep, l)
    else if ltb log_size (l.n + (l.outstanding + 1) * max_op_blocks)
    then (asleep, l)
    else (entered, record l { outstanding = l.outstanding + 1 })

-- `end_op` up to the release of the lock. The result says whether the caller is to commit; `none` is
-- the panic "log.committing", or a call without its `begin_op`, where the count would be negative.
pub end_op : Log → Option (Bool × Log)
end_op l =
    let left = l.outstanding - 1 in
    if l.committing || l.outstanding == 0
    then none
    else if left == 0
    then some (true, record l { outstanding = left; committing = true })
    else some (false, record l { outstanding = left })

-- The end of `end_op`, once `commit` has emptied the list.
pub end_commit : Log → Log
end_commit l = record l { n = 0; committing = false }

-- The index at which `log_write` records block `b`: that of an earlier record of it, or the end.
pub slot_of : Log → ℕ → ℕ
slot_of l b = elim (find_index (λ i. l.block i == b) 0 l.n) [ some i ↦ i | none ↦ l.n ]

-- The part of `log_write` under the lock.
pub record_block : ℕ → Log → Log
record_block b l =
    let i = slot_of l b in
    record l {
      n = if i == l.n then l.n + 1 else l.n;
      block = update l.block i b;
      dirty = update l.dirty b true;
    }

-- `none` is a panic, "too big a transaction" or "log_write outside of trans".
pub log_write : ℕ → Log → Option Log
log_write b l =
    if (leb log_size l.n || leb l.size (l.n + 1)) || ltb l.outstanding 1
    then none
    else some (record_block b l)
