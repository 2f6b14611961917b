-- ===== src/Fs/Bmap.antt =====
-- `bmap` and `itrunc` of xv6_lab3/fs.c: the blocks of an inode.
pub mod Slots
pub mod Grow
pub mod Table
pub mod Laws
pub mod Mapped
use slab_study.Common.{ℕ, zero, suc, ◌+◌, ◌-◌, Option, some, none, ltb, ◌==◌, if◌then◌else◌, update}
use slab_study.Fs.{Disk, Superblock, get_word, put_word}
use slab_study.Fs.Bitmap.{balloc, bfree}

-- `NDIRECT` and `NINDIRECT`
abbrev pub ndirect : ℕ
ndirect = 12

abbrev pub nindirect : ℕ
nindirect = 128

-- What `struct inode` holds of the inode on the disk.
pub record Inode : Type 0 where
  pub kind : ℕ
  pub major : ℕ
  pub minor : ℕ
  pub nlink : ℕ
  pub size : ℕ
  pub addrs : ℕ → ℕ

module _ (sb : Superblock) where
  -- `if((addr = ip->addrs[k]) == 0) ip->addrs[k] = addr = balloc(ip->dev);`
  pub slot_block : ℕ → Inode → Disk → Option (ℕ × Inode × Disk)
  slot_block k ip d =
      if ip.addrs k == 0
      then elim (balloc sb d) [
        | some (addr, d') ↦ some (addr, record ip { addrs = update ip.addrs k addr }, d')
        | none ↦ none
      ]
      else some (ip.addrs k, ip, d)

  -- The entry `bn` of the indirect block `table`.
  pub table_block : ℕ → ℕ → Inode → Disk → Option (ℕ × Inode × Disk)
  table_block bn table ip d =
      let addr = get_word (d table) bn in
      if addr == 0
      then elim (balloc sb d) [
        | some (new, d') ↦ some (new, ip, update d' table (put_word bn new (d' table)))
        | none ↦ none
      ]
      else some (addr, ip, d)

  pub indirect_block : ℕ → Inode → Disk → Option (ℕ × Inode × Disk)
  indirect_block bn ip d = elim (slot_block ndirect ip d) [
    | some (table, ip', d') ↦ table_block bn table ip' d'
    | none ↦ none
  ]

  -- `none` is a panic, "bmap: out of range" or that of `balloc`.
  pub bmap : ℕ → Inode → Disk → Option (ℕ × Inode × Disk)
  bmap bn ip d =
      if ltb bn ndirect
      then slot_block bn ip d
      else if ltb (bn - ndirect) nindirect
      then indirect_block (bn - ndirect) ip d
      else none
