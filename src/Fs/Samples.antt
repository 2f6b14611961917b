-- ===== src/Fs/Samples.antt =====
-- A disk of 40 blocks with one file.
use slab_study.Common.{
  ℕ, ◌/◌, ◌≡◌, ◌≢◌, inl, inr, refl, sym, ◌∙◌, arith, true, false, ltb, ◌==◌, find_index,
  if◌then◌else◌, Bool-cases,
}
use slab_study.Fs.{Disk, Superblock}
use slab_study.Fs.Bytes.{never_fails, never_fails_lem}
use slab_study.Fs.Bitmap.Bits.{in_use}
use slab_study.Fs.Bitmap.Laws.{Layout, IsSound}
use slab_study.Fs.Bmap.{Inode}
use slab_study.Fs.Bmap.Slots.{slot, IsMapped}
use slab_study.Fs.Dinode.RoundTrip.{IsSized}
use slab_study.Fs.Content.{Devsw}
use slab_study.Fs.Content.Read.{IsFilled}
use slab_study.Fs.Content.Laws.{IsFile}

abbrev pub small_disk : Superblock
small_disk = record { size = 40; ninodes = 16; inodestart = 10; bmapstart = 20 }

-- Block 20 is the bitmap: the blocks up to 21 are in use. Block 21 is the first that holds data.
unfoldable pub one_file : Disk
one_file a i = if a == 20 then (if ltb i 2 then 255 else if i == 2 then 63 else 0) else 0

-- A file of three bytes.
abbrev pub three_bytes : Inode
three_bytes = record {
  kind = 2;
  major = 0;
  minor = 0;
  nlink = 1;
  size = 3;
  addrs = λ k. if k == 0 then 21 else 0;
}

abbrev pub no_devices : Devsw
no_devices = record { reads = λ _. false; writes = λ _. false }

pub small_disk-Layout : Layout small_disk 21
small_disk-Layout = record {
  bitmap = omega arith;
  within = omega arith;
  boot = omega arith;
  word = omega arith;
}

one_file-reserved : never_fails 21 (in_use small_disk one_file) ≡ true
unfolding never_fails find_index one_file
one_file-reserved = refl

pub one_file-IsSound : IsSound small_disk 21 one_file
unfolding one_file
one_file-IsSound = record {
  bytes = λ a i. ground arith;
  reserved = λ b l. never_fails_lem 21 (in_use small_disk one_file) b one_file-reserved l;
}

one_slot : (k : ℕ) → slot three_bytes.addrs one_file k ≡ (if k == 0 then 21 else 0)
unfolding slot
one_slot k = elim (Bool-cases (ltb k 13)) [ inl near ↦ rw near refl | inr far ↦ ground arith ]

one_slot-first : (k : ℕ) → slot three_bytes.addrs one_file k ≢ 0 → k ≡ 0
one_slot-first k z = ground (arith, one_slot k)

pub three_bytes-IsMapped : IsMapped small_disk 21 (slot three_bytes.addrs one_file) one_file
unfolding one_file slot
three_bytes-IsMapped = record {
  range = λ k l z. let e = one_slot-first k z in rw e (omega arith, omega arith);
  held = λ k l z. let e = one_slot-first k z in rw e refl;
  once = λ k j lk lj z e.
      let here = one_slot-first k z in here ∙ sym (one_slot-first j (λ q. z (e ∙ q)));
}

pub three_bytes-IsFilled : IsFilled three_bytes one_file 3
unfolding slot
three_bytes-IsFilled k l =
    let first : k / 512 ≡ 0 = omega (arith, l) in rw first (λ e. ground arith)

pub three_bytes-IsFile : IsFile small_disk 21 three_bytes one_file
three_bytes-IsFile = record {
  small = omega arith;
  filled = three_bytes-IsFilled;
  mapped = three_bytes-IsMapped;
  sound = one_file-IsSound;
}

pub three_bytes-IsSized : IsSized three_bytes
three_bytes-IsSized = record {
  kind = omega arith;
  major = omega arith;
  minor = omega arith;
  nlink = omega arith;
  size = omega arith;
  addrs = λ k l. ground arith;
}
