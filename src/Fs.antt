-- ===== src/Fs.antt =====
-- xv6_lab3/fs.c and fs.h: what its layers share. A disk is its blocks as the running transaction sees
-- them through the buffer cache: `bread` reads it, and `log_write` of a changed buffer changes it.
pub mod Bytes
pub mod Bitmap
pub mod Bmap
pub mod Dinode
pub mod Content
pub mod Trunc
pub mod Icache
pub mod Dir
pub mod Path
pub mod Samples
mod Tests
use slab_study.Common.{ℕ, zero, suc, ◌+◌, ◌*◌, ◌/◌, ◌%◌, ◌^◌, ◌==◌, if◌then◌else◌, update}

-- `BSIZE`, and `BPB`
abbrev pub bsize : ℕ
bsize = 512

abbrev pub bpb : ℕ
bpb = bsize * 8

-- A block as its bytes.
abbrev pub Block : Type 0
Block = ℕ → ℕ

abbrev pub Disk : Type 0
Disk = ℕ → Block

-- The fields of `struct superblock` that fs.c reads.
pub record Superblock : Type 0 where
  pub size : ℕ
  pub ninodes : ℕ
  pub inodestart : ℕ
  pub bmapstart : ℕ

-- A byte of a block is stored.
abbrev pub put_byte : ℕ → ℕ → ℕ → Disk → Disk
put_byte b i v d = update d b (update (d b) i v)

-- The `uint` at index `k` of a block, which is stored with its low byte first.
pub get_word : Block → ℕ → ℕ
get_word a k = a (4 * k) + 256 * a (4 * k + 1) + 65536 * a (4 * k + 2) + 16777216 * a (4 * k + 3)

pub put_word : ℕ → ℕ → Block → Block
put_word k v a i = if i / 4 == k then v / 256 ^ (i % 4) % 256 else a i

-- `bzero`
pub bzero : ℕ → Disk → Disk
bzero b d = update d b (λ _. 0)
