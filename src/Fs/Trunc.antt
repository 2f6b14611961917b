-- ===== src/Fs/Trunc.antt =====
-- `itrunc` of xv6_lab3/fs.c: the blocks of a file are given up.
pub mod Frees
pub mod Loops
pub mod Order
pub mod Laws
use slab_study.Common.{ℕ, zero, suc, ◌+◌, Option, some, none, ◌==◌, if◌then◌else◌, update}
use slab_study.Fs.{Disk, Superblock, get_word}
use slab_study.Fs.Bitmap.{bfree}
use slab_study.Fs.Bmap.{Inode, ndirect, nindirect}
use slab_study.Fs.Dinode.{iupdate}

module _ (sb : Superblock) where
  -- `if(x) bfree(ip->dev, x);`
  pub free_if : ℕ → Disk → Option Disk
  free_if x d = if x == 0 then some d else bfree sb x d

  -- The loop over the direct blocks, from slot `i` on; `none` is the panic of `bfree`. An address that
  -- is 0 is stored again.
  pub free_direct : ℕ → ℕ → Inode → Disk → Option (Inode × Disk)
  free_direct i zero ip d = some (ip, d)
  free_direct i (suc n) ip d = elim (free_if (ip.addrs i) d) [
    | some d' ↦ free_direct (i + 1) n (record ip { addrs = update ip.addrs i 0 }) d'
    | none ↦ none
  ]

  -- The loop over the entries of the indirect block, from `j` on.
  pub free_entries : ℕ → ℕ → ℕ → Disk → Option Disk
  free_entries table j zero d = some d
  free_entries table j (suc n) d = elim (free_if (get_word (d table) j) d) [
    | some d' ↦ free_entries table (j + 1) n d'
    | none ↦ none
  ]

  -- The indirect block, behind its entries.
  pub free_table : ℕ → Disk → Option Disk
  free_table table d = elim (free_entries table 0 nindirect d) [
    | some d' ↦ bfree sb table d'
    | none ↦ none
  ]

  pub free_indirect : Inode → Disk → Option (Inode × Disk)
  free_indirect ip d =
      if ip.addrs ndirect == 0 then some (ip, d) else elim (free_table (ip.addrs ndirect) d) [
        | some d' ↦ some (record ip { addrs = update ip.addrs ndirect 0 }, d')
        | none ↦ none
      ]

  -- `ip->size = 0; iupdate(ip);`
  pub empty_inode : ℕ → Inode → Disk → Inode × Disk
  empty_inode inum ip d = let ip' : Inode = record ip { size = 0 } in (ip', iupdate sb inum ip' d)

  -- The second half of `itrunc`.
  pub trunc_rest : ℕ → Option (Inode × Disk) → Option (Inode × Disk)
  trunc_rest inum none = none
  trunc_rest inum (some (ip, d)) = elim (free_indirect ip d) [
    | some (ip', d') ↦ some (empty_inode inum ip' d')
    | none ↦ none
  ]

  pub itrunc : ℕ → Inode → Disk → Option (Inode × Disk)
  unfolding trunc_rest
  itrunc inum ip d = trunc_rest inum (free_direct 0 ndirect ip d)
