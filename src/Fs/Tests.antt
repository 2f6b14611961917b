-- ===== src/Fs/Tests.antt =====
-- The disk of `Fs.Samples`, at which the theorems on xv6_lab3/fs.c are applied.
use slab_study.Common.{
  ℕ, ◌+◌, ◌^◌, ◌<◌, ◌≤◌, ◌⊎◌, ltb, if◌then◌else◌, ◌/◌, ◌≡◌, ◌≢◌, refl, ap, ◌∙◌, arith, true, [],
  ◌∷◌, some, ◌==◌,
}
use slab_study.Fs.{Disk}
use slab_study.Fs.Bitmap.{balloc}
use slab_study.Fs.Bitmap.Laws.{BallocResult, balloc_lem}
use slab_study.Fs.Bmap.{Inode, bmap}
use slab_study.Fs.Bmap.Slots.{slot}
use slab_study.Fs.Bmap.Laws.{BmapResult, bmap_lem}
use slab_study.Fs.Dinode.{load_inode, iupdate}
use slab_study.Fs.Dinode.RoundTrip.{Same, ilock_after_iupdate}
use slab_study.Fs.Content.{readi, failed, writei, bytes}
use slab_study.Fs.Content.Read.{content, IsFilled, readi_lem}
use slab_study.Fs.Content.Laws.{IsFile, WriteSpec, writei_lem}
use slab_study.Fs.Content.RoundTrip.{ReadsBack, writei_then_readi}
use slab_study.Fs.Trunc.{itrunc}
use slab_study.Fs.Trunc.Laws.{Truncated, itrunc_lem}
use slab_study.Fs.Samples.{
  small_disk, one_file, three_bytes, no_devices, small_disk-Layout, one_file-IsSound,
  three_bytes-IsMapped, three_bytes-IsFilled, three_bytes-IsFile, three_bytes-IsSized,
}
use slab_study.Fs.Dir.{
  Search, found, absent, unreadable, entry_inum, entry_count, find_entry, dirlink,
}
use slab_study.Fs.Dir.Entries.{HasEntries, entry_at}
use slab_study.Fs.Dir.Find.{FindResult, dirlookup_lem}
use slab_study.Fs.Dir.Compose.{dirlookup-absent, LinkResult, dirlink_then_dirlookup}
use slab_study.Fs.Icache.Put.{Put, iput_lem}
use slab_study.Fs.Icache.{iput, Icache, iget, ialloc}
use slab_study.Fs.Icache.Lookup.{IsUnique, IgetResult, iget_lem}
use slab_study.Fs.Icache.Alloc.{IallocResult, ialloc_lem}
use slab_study.Fs.Path.{skipelem}
use slab_study.Fs.Path.Pieces.{SkipResult, skipelem_lem}

balloc_lem_example : BallocResult small_disk 21 one_file (balloc small_disk one_file)
balloc_lem_example = balloc_lem small_disk 21 small_disk-Layout one_file one_file-IsSound

-- The file's second block, which it does not have.
bmap_lem_example :
    BmapResult small_disk 21 small_disk-Layout 1 three_bytes one_file
      (bmap small_disk 1 three_bytes one_file)
bmap_lem_example =
    bmap_lem small_disk 21 small_disk-Layout 1 three_bytes one_file (omega arith)
      three_bytes-IsMapped one_file-IsSound

ilock_after_iupdate_example :
    Same
      (load_inode small_disk 5 three_bytes.addrs (iupdate small_disk 5 three_bytes one_file))
      three_bytes
    × (◌≢◌ {A = ℕ} 6 5
        → Same
            (load_inode small_disk 6 three_bytes.addrs (iupdate small_disk 5 three_bytes one_file))
            (load_inode small_disk 6 three_bytes.addrs one_file))
ilock_after_iupdate_example =
    ilock_after_iupdate small_disk 5 6 three_bytes three_bytes.addrs one_file three_bytes-IsSized

-- A read of ten bytes from offset 1 on, of which there are two.
readi_lem_example :
    ((3 < 1) ⊎ (2 ^ 32 ≤ 1 + 10)
      → readi small_disk no_devices 1 10 (λ _. 7) three_bytes one_file
        ≡ some (failed, three_bytes, one_file))
    × (◌≤◌ 1 3
        → 1 + 10 < 2 ^ 32
        → (out : ℕ → ℕ) × (readi small_disk no_devices 1 10 (λ _. 7) three_bytes one_file
            ≡ some (bytes 2 out, three_bytes, one_file))
          × ((j : ℕ) → out j ≡ (if ltb j 2 then content three_bytes one_file (1 + j) else 7)))
readi_lem_example =
    readi_lem small_disk no_devices 1 10 (λ _. 7) three_bytes one_file (λ e. ground arith)
      (omega arith) three_bytes-IsFilled (omega arith) (omega arith)

writei_lem_example :
    WriteSpec small_disk 21 small_disk-Layout 2 600
      (λ _. 7)
      three_bytes
      one_file
      (writei small_disk no_devices 5 2 600 (λ _. 7) three_bytes one_file)
writei_lem_example =
    writei_lem small_disk 21 small_disk-Layout no_devices 5 2 600 (λ _. 7) three_bytes one_file
      three_bytes-IsFile (λ e. ground arith) (omega arith) (omega arith) (λ i l. omega arith)
      (omega arith)

writei_then_readi_example :
    ReadsBack small_disk 21 small_disk-Layout no_devices 2 600
      (λ _. 7)
      (writei small_disk no_devices 5 2 600 (λ _. 7) three_bytes one_file)
writei_then_readi_example =
    writei_then_readi small_disk 21 small_disk-Layout no_devices 5 2 600 (λ _. 7) three_bytes
      one_file three_bytes-IsFile (λ e. ground arith) (omega arith) (omega arith)
      (λ i l. omega arith) (omega arith)

itrunc_lem_example :
    (ip : Inode) × (d : Disk) × (itrunc small_disk 5 three_bytes one_file ≡ some (ip, d))
    × Truncated small_disk 21 5 three_bytes one_file ip d
itrunc_lem_example =
    itrunc_lem small_disk 21 small_disk-Layout 5 three_bytes one_file three_bytes-IsMapped
      one_file-IsSound (omega arith)

-- A directory with one entry, which is not in use.
abbrev one_entry : Inode
one_entry = record three_bytes { kind = 1; size = 16 }

one_entry-IsFilled : IsFilled one_entry one_file 16
unfolding slot
one_entry-IsFilled k l = let first : k / 512 ≡ 0 = omega (arith, l) in rw first (λ e. ground arith)

one_entry-IsFile : IsFile small_disk 21 one_entry one_file
one_entry-IsFile = record {
  small = omega arith;
  filled = one_entry-IsFilled;
  mapped = three_bytes-IsMapped;
  sound = one_file-IsSound;
}

one_entry-HasEntries : HasEntries one_entry one_file
one_entry-HasEntries = record {
  kind = λ e. ground arith;
  small = omega arith;
  filled = one_entry-IsFilled;
  entries = omega arith;
}

-- The name "a".
abbrev letter : ℕ → ℕ
letter i = if i == 0 then 97 else 0

unused_entry : entry_inum (entry_at one_entry one_file 0) ≡ 0
unfolding slot one_file
unused_entry = refl

not_there : (r : Search) → FindResult letter 0 one_entry one_file r → r ≡ absent one_entry one_file
not_there unreadable w = absurd w
not_there (absent ip d) w = ap (λ x. absent x d) w.1 ∙ ap (absent one_entry) w.2
not_there (found inum off ip d) w =
    let first : w.index ≡ 0 = omega (arith, w.below) in
    absurd (w.hit.0 (ap (λ j. entry_inum (entry_at one_entry one_file j)) first ∙ unused_entry))

dirlookup_lem_example :
    FindResult letter 0 one_entry one_file
      (find_entry small_disk no_devices letter (entry_count 16) 0 (λ _. 0) one_entry one_file)
dirlookup_lem_example =
    dirlookup_lem small_disk no_devices letter one_entry one_file one_entry-HasEntries (λ _. 0)

-- The directory is in entry 3 of the table of inodes, which is the only one in use.
abbrev one_dir : Icache
one_dir i = record {
  dev = 1;
  inum = 5;
  ref = if i == 3 then 1 else 0;
  valid = true;
  node = one_entry;
}

one_dir-IsUnique : IsUnique one_dir
one_dir-IsUnique i j li lj ri rj d n = ground (arith, ri, rj)

dirlink_then_dirlookup_example :
    LinkResult small_disk 21 small_disk-Layout no_devices 3 letter 7 one_dir one_file
      (dirlink small_disk no_devices 3 letter 7 (λ _. 0) one_dir one_file)
dirlink_then_dirlookup_example =
    dirlink_then_dirlookup small_disk 21 small_disk-Layout no_devices 3 7 letter (λ _. 0) one_dir
      one_file (omega arith) (omega arith) one_dir-IsUnique one_entry-IsFile
      (record { kind = refl; holds = one_entry-HasEntries }) (omega arith) (omega arith)
      (omega arith) (λ i. ground arith) (omega arith)
      (dirlookup-absent small_disk no_devices 3 letter (λ _. 0) one_dir one_file refl
        (not_there
          (find_entry small_disk no_devices letter (entry_count 16) 0 (λ _. 0) one_entry one_file)
          (dirlookup_lem small_disk no_devices letter one_entry one_file one_entry-HasEntries
            (λ _. 0))))

-- Entry 3 is in use, for the inode 7.
abbrev one_cached : Icache
one_cached i = record {
  dev = 1;
  inum = 7;
  ref = if i == 3 then 1 else 0;
  valid = true;
  node = three_bytes;
}

one_cached-IsUnique : IsUnique one_cached
one_cached-IsUnique i j li lj ri rj d n = ground (arith, ri, rj)

iget_lem_example : IgetResult 1 9 one_cached (iget 1 9 one_cached)
iget_lem_example = iget_lem 1 9 one_cached one_cached-IsUnique

ialloc_lem_example :
    IallocResult small_disk 1 2 one_cached one_file (ialloc small_disk 1 2 one_cached one_file)
ialloc_lem_example = ialloc_lem small_disk 1 2 one_cached one_file (omega arith) one_cached-IsUnique

-- "/a//b"
skipelem_lem_example :
    SkipResult (47 ∷ 97 ∷ 47 ∷ 47 ∷ 98 ∷ []) (skipelem (47 ∷ 97 ∷ 47 ∷ 47 ∷ 98 ∷ []) (λ _. 0))
skipelem_lem_example = skipelem_lem (47 ∷ 97 ∷ 47 ∷ 47 ∷ 98 ∷ []) (λ _. 0)

-- Entry 2 is in use, for the inode 5, a file of three bytes that has no links.
abbrev no_links : Icache
no_links i = record {
  dev = 1;
  inum = 5;
  ref = if i == 2 then 1 else 0;
  valid = true;
  node = record three_bytes { nlink = 0 };
}

iput_lem_example :
    (c : Icache) × (d : Disk) × (iput small_disk 2 no_links one_file ≡ some (c, d))
    × Put small_disk 21 2 no_links one_file c d
iput_lem_example =
    iput_lem small_disk 21 small_disk-Layout 2 no_links one_file three_bytes-IsMapped
      one_file-IsSound (omega arith)
