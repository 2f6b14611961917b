-- ===== src/File.antt =====
-- xv6_lab3/file.c: the table of open files and its reference counts.
pub mod Counts
mod Tests
use slab_study.Common.{
  ℕ, suc, ◌+◌, ◌-◌, ◌%◌, ◌^◌, Bool, Option, some, none, ltb, ◌==◌, if◌then◌else◌, find_index,
  update,
}

-- `NFILE`
abbrev pub nfile : ℕ
nfile = 100

pub data FileType : Type 0 where
  fd_none fd_pipe fd_inode : FileType

-- `struct file`; `pipe` and `ip` are addresses.
pub record File : Type 0 where
  pub kind : FileType
  pub ref : ℕ
  pub readable : Bool
  pub writable : Bool
  pub pipe : ℕ
  pub ip : ℕ
  pub off : ℕ

-- `ftable.file`; a pointer to a file is its index.
abbrev pub Ftable : Type 0
Ftable = ℕ → File

pub filealloc : Ftable → Option ℕ × Ftable
filealloc t = elim (find_index (λ i. (t i).ref == 0) 0 nfile) [
  | none ↦ (none, t)
  | some i ↦ (some i, update t i (record (t i) { ref = 1 }))
]

-- `none` is the panic "filedup".
pub filedup : ℕ → Ftable → Option Ftable
filedup i t =
    let f = t i in
    if ltb f.ref 1 then none else some (update t i (record f { ref = (f.ref + 1) % 2 ^ 32 }))

-- What `fileclose` goes on to do once the table's lock is released.
pub data Closing : Type 0 where
  still_open : Closing
  nothing : Closing
  close_pipe : (pipe : ℕ) (writable : Bool) → Closing
  put_inode : (ip : ℕ) → Closing

-- By the copy `ff` of the file whose last reference is gone.
pub closing_of : FileType → File → Closing
closing_of fd_none ff = nothing
closing_of fd_pipe ff = close_pipe ff.pipe ff.writable
closing_of fd_inode ff = put_inode ff.ip

-- `none` is the panic "fileclose".
pub fileclose : ℕ → Ftable → Option (Closing × Ftable)
unfolding closing_of
fileclose i t =
    let f = t i in
    let left = f.ref - 1 in
    if ltb f.ref 1
    then none
    else if ltb 0 left
    then some (still_open, update t i (record f { ref = left }))
    else some (closing_of f.kind f, update t i (record f { ref = 0; kind = fd_none }))
