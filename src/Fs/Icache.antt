-- ===== src/Fs/Icache.antt =====
-- The table of inodes in memory of xv6_lab3/fs.c: `iget`, `idup`, `ialloc` and `iput`.
pub mod Lookup
pub mod Alloc
pub mod Put
use slab_study.Common.{
  ℕ, zero, suc, ◌+◌, ◌-◌, ◌*◌, ◌/◌, ◌%◌, Bool, true, false, Option, some, none, ltb, leb, ◌==◌,
  ◌&&◌, if◌then◌else◌, update,
}
use slab_study.Fs.{Disk, Superblock, Block}
use slab_study.Fs.Bmap.{Inode}
use slab_study.Fs.Dinode.{ipb, get_half, put_half, iblock, iupdate}
use slab_study.Fs.Trunc.{itrunc}

-- `NINODE`
abbrev pub ninode : ℕ
ninode = 50

-- `struct inode`, with the copy of the inode on the disk as `node`.
pub record Cached : Type 0 where
  pub dev : ℕ
  pub inum : ℕ
  pub ref : ℕ
  pub valid : Bool
  pub node : Inode

-- `icache.inode`
abbrev pub Icache : Type 0
Icache = ℕ → Cached

-- `ip->ref > 0 && ip->dev == dev && ip->inum == inum`
abbrev pub is_inode : Icache → ℕ → ℕ → ℕ → Bool
is_inode c dev inum i = (ltb 0 (c i).ref && (c i).dev == dev) && (c i).inum == inum

-- How the loop of `iget` ends: at the entry of the inode, or with the empty slot it remembers.
pub data Hunt : Type 0 where
  cached : (i : ℕ) → Hunt
  not_cached : (empty : Option ℕ) → Hunt

-- `if(empty == 0 && ip->ref == 0) empty = ip;`
pub remember : Icache → ℕ → Option ℕ → Option ℕ
remember c i (some e) = some e
remember c i none = if (c i).ref == 0 then some i else none

-- The loop of `iget` over `n` entries from `i` on.
pub hunt : Icache → ℕ → ℕ → ℕ → ℕ → Option ℕ → Hunt
hunt c dev inum i zero empty = not_cached empty
hunt c dev inum i (suc n) empty =
    let rest = hunt c dev inum (i + 1) n (remember c i empty) in
    if is_inode c dev inum i then cached i else rest

-- The end of `iget`; `none` is the panic "iget: no inodes".
pub take_entry : ℕ → ℕ → Icache → Hunt → Option (ℕ × Icache)
take_entry dev inum c (cached i) = some (i, update c i (record (c i) { ref = (c i).ref + 1 }))
take_entry dev inum c (not_cached none) = none
take_entry dev inum c (not_cached (some e)) =
    some (e, update c e (record (c e) { dev = dev; inum = inum; ref = 1; valid = false }))

pub iget : ℕ → ℕ → Icache → Option (ℕ × Icache)
unfolding take_entry
iget dev inum c = take_entry dev inum c (hunt c dev inum 0 ninode none)

pub idup : ℕ → Icache → Icache
idup i c = update c i (record (c i) { ref = (c i).ref + 1 })

-- `memset(dip, 0, sizeof(*dip)); dip->type = type;` for the inode `i` of its block.
pub new_dinode : ℕ → ℕ → Block → Block
new_dinode i type a = put_half (32 * i) type (λ k. if k / 64 == i then 0 else a k)

module _ (sb : Superblock) where
  -- `dip->type` of the inode `inum`.
  abbrev pub disk_type : Disk → ℕ → ℕ
  disk_type d inum = get_half (d (iblock sb inum)) (32 * (inum % ipb))

  abbrev pub claim : ℕ → ℕ → Disk → Disk
  claim type inum d = update d (iblock sb inum) (new_dinode (inum % ipb) type (d (iblock sb inum)))

  -- The loop of `ialloc` for `n` inodes from `inum` on: the inode that it takes.
  pub free_inum : Disk → ℕ → ℕ → Option ℕ
  free_inum d inum zero = none
  free_inum d inum (suc n) =
      let rest = free_inum d (inum + 1) n in if disk_type d inum == 0 then some inum else rest

  -- `ialloc` up to its call of `iget`; `none` is the panic "ialloc: no inodes".
  pub ialloc_disk : ℕ → Disk → Option (ℕ × Disk)
  ialloc_disk type d = elim (free_inum d 1 (sb.ninodes - 1)) [
    | some inum ↦ some (inum, claim type inum d)
    | none ↦ none
  ]

  -- `none` is a panic, that of `ialloc` or that of `iget`.
  pub ialloc : ℕ → ℕ → Icache → Disk → Option (ℕ × Icache × Disk)
  ialloc dev type c d = elim (ialloc_disk type d) [
    | some (inum, d') ↦ elim (iget dev inum c) [ some (i, c') ↦ some (i, c', d') | none ↦ none ]
    | none ↦ none
  ]

  -- `itrunc(ip); ip->type = 0; iupdate(ip); ip->valid = 0;`; `none` is the panic of `itrunc`.
  pub free_inode : ℕ → Icache → Disk → Option (Icache × Disk)
  free_inode i c d = elim (itrunc sb (c i).inum (c i).node d) [
    | some (ip, d') ↦
        let ip' : Inode = record ip { kind = 0 } in
        some (update c i (record (c i) { valid = false; node = ip' }), iupdate sb (c i).inum ip' d')
    | none ↦ none
  ]

  -- `iput` from where it holds the inode's sleep lock up to its release.
  pub put_last : ℕ → Icache → Disk → Option (Icache × Disk)
  put_last i c d =
      if ((c i).valid && (c i).node.nlink == 0) && (c i).ref == 1
      then free_inode i c d
      else some (c, d)

  -- The caller has a reference, so that the count is 1 at least.
  pub iput : ℕ → Icache → Disk → Option (Icache × Disk)
  iput i c d = elim (put_last i c d) [
    | some (c', d') ↦ some (update c' i (record (c' i) { ref = (c' i).ref - 1 }), d')
    | none ↦ none
  ]
