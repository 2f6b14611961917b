-- ===== src/Fs/Bitmap.antt =====
-- `balloc` and `bfree` of xv6_lab3/fs.c: the bitmap of the blocks in use.
pub mod Bits
pub mod Laws
use Prim.Native.Nat.{bit_and, bit_or, min}
use slab_study.Common.{
  ℕ, zero, suc, ◌+◌, ◌-◌, ◌/◌, ◌%◌, ◌^◌, Bool, Option, some, none, not, ◌==◌, if◌then◌else◌,
  find_index, update,
}
use slab_study.Fs.{Disk, Superblock, bpb, put_byte, bzero}

module _ (sb : Superblock) where
  -- `BBLOCK(b, sb)`
  abbrev pub bblock : ℕ → ℕ
  bblock b = b / bpb + sb.bmapstart

  -- `(bp->data[bi/8] & m) == 0` of the bitmap block `bp`, with `m = 1 << (bi % 8)`.
  abbrev pub is_free : Disk → ℕ → ℕ → Bool
  is_free d bp bi = bit_and (d bp (bi / 8)) (2 ^ (bi % 8)) == 0

  -- The outer loop of `balloc` for the `n` bitmap blocks from that of `b` on.
  pub scan : Disk → ℕ → ℕ → Option ℕ
  scan d b zero = none
  scan d b (suc n) =
      let rest = scan d (b + bpb) n in
      elim (find_index (is_free d (bblock b)) 0 (min bpb (sb.size - b))) [
        | some bi ↦ some (b + bi)
        | none ↦ rest
      ]

  -- `bp->data[bi/8] |= m`, for block `b`.
  pub mark : ℕ → Disk → Disk
  mark b d =
      let bi = b % bpb in
      put_byte (bblock b) (bi / 8) (bit_or (d (bblock b) (bi / 8)) (2 ^ (bi % 8))) d

  -- `none` is the panic "balloc: out of blocks". The loop ends after the last bitmap block.
  pub balloc : Disk → Option (ℕ × Disk)
  balloc d = elim (scan d 0 ((sb.size + (bpb - 1)) / bpb)) [
    | some b ↦ some (b, bzero b (mark b d))
    | none ↦ none
  ]

  -- `none` is the panic "freeing free block".
  pub bfree : ℕ → Disk → Option Disk
  bfree b d =
      let bi = b % bpb in
      if is_free d (bblock b) bi
      then none
      else some
          (put_byte (bblock b) (bi / 8) (bit_and (d (bblock b) (bi / 8)) (255 - 2 ^ (bi % 8))) d)
