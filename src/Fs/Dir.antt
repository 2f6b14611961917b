-- ===== src/Fs/Dir.antt =====
-- Directories of xv6_lab3/fs.c: `namecmp`, `dirlookup` and `dirlink`.
pub mod Entries
pub mod Find
pub mod NewEntry
pub mod Link
pub mod Compose
use slab_study.Common.{
  ℕ, zero, suc, ◌+◌, ◌-◌, ◌*◌, ◌/◌, ◌%◌, ◌^◌, ◌<◌, Bool, true, false, Option, some, none, ltb, leb,
  ◌==◌, ◌&&◌, if◌then◌else◌, update, ℤ, pos, negsuc,
}
use slab_study.Str.{strncmp, strncpy}
use slab_study.Fs.{Disk, Superblock}
use slab_study.Fs.Bmap.{Inode}
use slab_study.Fs.Content.{
  Devsw, readi, writei, ReadResult, failed, device, bytes, WriteResult, refused, to_device, wrote,
  panics, unfinished,
}
use slab_study.Fs.Icache.{Icache, iget, iput}

-- `T_DIR`, `DIRSIZ` and `sizeof(struct dirent)`
abbrev pub t_dir : ℕ
t_dir = 1

abbrev pub dirsiz : ℕ
dirsiz = 14

abbrev pub entry_size : ℕ
entry_size = 16

-- The memory of a call: the local `de` at address 0, so that `de.name` is at 2, and the bytes that
-- `name` points to from address 16 on.
unfoldable pub frame : (ℕ → ℕ) → (ℕ → ℕ) → ℕ → ℕ
frame de name i = if ltb i 16 then de i else name (i - 16)

-- `de.inum`
abbrev pub entry_inum : (ℕ → ℕ) → ℕ
entry_inum de = de 0 + 256 * de 1

pub namecmp : (ℕ → ℕ) → ℕ → ℕ → ℤ
namecmp mem s t = strncmp mem s t dirsiz

-- `namecmp(name, de.name) == 0`
abbrev pub is_named : (ℕ → ℕ) → (ℕ → ℕ) → Bool
is_named name de = elim (namecmp (frame de name) 16 2) [ pos n ↦ n == 0 | negsuc n ↦ false ]

-- How the loop of `dirlookup` ends.
pub data Search : Type 0 where
  found : (inum off : ℕ) → Inode → Disk → Search
  absent : Inode → Disk → Search
  unreadable : Search

-- What `readi` of an entry leaves in `de`; `none` is the panic of the caller, or of `bmap`.
pub whole_entry : Option (ReadResult × Inode × Disk) → Option ((ℕ → ℕ) × Inode × Disk)
whole_entry none = none
whole_entry (some (failed, ip, d)) = none
whole_entry (some (device major, ip, d)) = none
whole_entry (some (bytes n de, ip, d)) = if n == entry_size then some (de, ip, d) else none

-- How many entries the loops visit: those at the offsets below `dp->size`.
abbrev pub entry_count : ℕ → ℕ
entry_count size = (size + (entry_size - 1)) / entry_size

-- The address of the end of a search for an entry that is not in use.
pub data Slot : Type 0 where
  slot_at : (off : ℕ) → (ℕ → ℕ) → Inode → Disk → Slot
  no_slot : Slot

-- The end of `dirlink`: the panic of `balloc` below `writei`, and its own panics.
pub data Added : Type 0 where
  added : Inode → Disk → Added
  no_blocks : Inode → Disk → Added
  not_added : Added

-- `strncpy(de.name, name, DIRSIZ); de.inum = inum;`
pub new_entry : (ℕ → ℕ) → ℕ → (ℕ → ℕ) → ℕ → ℕ
new_entry name inum de =
    update (update (strncpy (frame de name) 2 16 dirsiz) 0 (inum % 256)) 1 (inum / 256 % 256)

pub linked : WriteResult → Added
linked refused = not_added
linked (to_device major) = not_added
linked (wrote n ip d) = if n == entry_size then added ip d else not_added
linked (panics ip d) = no_blocks ip d
linked unfinished = not_added

-- What `dirlookup` ends in: an inode with its offset, no inode, or a panic.
pub data Looked : Type 0 where
  entry : (i off : ℕ) → Icache → Disk → Looked
  no_entry : Icache → Disk → Looked
  broken : Looked

-- `return iget(dp->dev, inum)`
pub got : ℕ → Disk → Option (ℕ × Icache) → Looked
got off d none = broken
got off d (some (i, c)) = entry i off c d

-- The inode in memory of the directory, entry `dp` of `c`, is what the loop has made of it.
pub look_up : ℕ → Icache → Search → Looked
unfolding got
look_up dp c unreadable = broken
look_up dp c (absent ip d) = no_entry (update c dp (record (c dp) { node = ip })) d
look_up dp c (found inum off ip d) =
    got off d (iget (c dp).dev inum (update c dp (record (c dp) { node = ip })))

-- What `dirlink` ends in: a return of 0, which is `true`, or of -1, the panic of `balloc`, or another.
pub data Linking : Type 0 where
  returned : Bool → Icache → Disk → Linking
  out_of_blocks : Inode → Disk → Linking
  link_panic : Linking

pub link_result : ℕ → Icache → Added → Linking
link_result dp c not_added = link_panic
link_result dp c (no_blocks ip d) = out_of_blocks ip d
link_result dp c (added ip d) = returned true (update c dp (record (c dp) { node = ip })) d

pub taken_name : Option (Icache × Disk) → Linking
taken_name none = link_panic
taken_name (some (c, d)) = returned false c d

module _ (sb : Superblock) (dev : Devsw) where
  -- `if(readi(dp, (char*)&de, off, sizeof(de)) != sizeof(de)) panic(...);`
  pub read_entry : ℕ → (ℕ → ℕ) → Inode → Disk → Option ((ℕ → ℕ) × Inode × Disk)
  unfolding whole_entry
  read_entry off de ip d = whole_entry (readi sb dev off entry_size de ip d)

  -- The loop of `dirlookup` for `n` entries from the offset `off` on.
  pub find_entry : (ℕ → ℕ) → ℕ → ℕ → (ℕ → ℕ) → Inode → Disk → Search
  find_entry name zero off de ip d = absent ip d
  find_entry name (suc n) off de ip d = elim (read_entry off de ip d) [
    | some (de', ip', d') ↦
        let rest = find_entry name n (off + entry_size) de' ip' d' in
        if entry_inum de' == 0
        then rest
        else if is_named name de'
        then found (entry_inum de') off ip' d'
        else rest
    | none ↦ unreadable
  ]

  -- The loop of `dirlink` for an entry that is not in use, with the `off` and the `de` it leaves.
  pub find_free : ℕ → ℕ → (ℕ → ℕ) → Inode → Disk → Slot
  find_free zero off de ip d = slot_at off de ip d
  find_free (suc n) off de ip d = elim (read_entry off de ip d) [
    | some (de', ip', d') ↦
        let rest = find_free n (off + entry_size) de' ip' d' in
        if entry_inum de' == 0 then slot_at off de' ip' d' else rest
    | none ↦ no_slot
  ]

  pub write_entry : ℕ → (ℕ → ℕ) → ℕ → Slot → Added
  unfolding linked
  write_entry dinum name inum no_slot = not_added
  write_entry dinum name inum (slot_at off de ip d) =
      linked (writei sb dev dinum off entry_size (new_entry name inum de) ip d)

  -- `dirlink` behind its check that the name is not present, for the directory `dinum`.
  pub add_entry : ℕ → (ℕ → ℕ) → ℕ → (ℕ → ℕ) → Inode → Disk → Added
  unfolding write_entry
  add_entry dinum name inum de ip d =
      write_entry dinum name inum (find_free (entry_count ip.size) 0 de ip d)

  pub dirlookup : ℕ → (ℕ → ℕ) → (ℕ → ℕ) → Icache → Disk → Looked
  unfolding look_up
  dirlookup dp name de c d =
      if (c dp).node.kind == t_dir
      then look_up dp c (find_entry name (entry_count (c dp).node.size) 0 de (c dp).node d)
      else broken

  pub link_absent : ℕ → (ℕ → ℕ) → ℕ → (ℕ → ℕ) → Looked → Linking
  unfolding link_result taken_name
  link_absent dp name inum de broken = link_panic
  link_absent dp name inum de (entry i off c d) = taken_name (iput sb i c d)
  link_absent dp name inum de (no_entry c d) =
      link_result dp c (add_entry (c dp).inum name inum de (c dp).node d)

  -- The locals `de` of both functions start as `de`.
  pub dirlink : ℕ → (ℕ → ℕ) → ℕ → (ℕ → ℕ) → Icache → Disk → Linking
  unfolding link_absent
  dirlink dp name inum de c d = link_absent dp name inum de (dirlookup dp name de c d)
