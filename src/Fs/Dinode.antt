-- ===== src/Fs/Dinode.antt =====
-- `iupdate` of xv6_lab3/fs.c, and the part of `ilock` that reads an inode from the disk.
pub mod RoundTrip
use slab_study.Common.{ℕ, zero, suc, ◌+◌, ◌*◌, ◌/◌, ◌%◌, ◌^◌, ltb, ◌==◌, if◌then◌else◌, update}
use slab_study.Fs.{Disk, Superblock, Block, bsize, get_word, put_word}
use slab_study.Fs.Bmap.{Inode}

-- `IPB`: a `struct dinode` has 64 bytes, or 16 words.
abbrev pub ipb : ℕ
ipb = bsize / 64

-- The `short` at index `k` of a block, as the unsigned number of its two bytes.
unfoldable pub get_half : Block → ℕ → ℕ
get_half a k = a (2 * k) + 256 * a (2 * k + 1)

unfoldable pub put_half : ℕ → ℕ → Block → Block
put_half k v a i = if i / 2 == k then v / 256 ^ (i % 2) % 256 else a i

-- `memmove(dip->addrs, ip->addrs, ...)` of the first `n` addresses, where `w` is the index of the
-- word `dip->addrs[0]`.
pub put_addrs : (ℕ → ℕ) → ℕ → ℕ → Block → Block
put_addrs addrs w zero a = a
put_addrs addrs w (suc n) a = put_word (w + n) (addrs n) (put_addrs addrs w n a)

-- The assignments of `iupdate` to the fields of the inode `i` of its block.
pub put_dinode : ℕ → Inode → Block → Block
put_dinode i ip a = put_addrs ip.addrs (16 * i + 3) 13 (
    put_word (16 * i + 2) ip.size (
      put_half (32 * i + 3) ip.nlink (
        put_half (32 * i + 2) ip.minor
          (put_half (32 * i + 1) ip.major (put_half (32 * i) ip.kind a)))))

-- The assignments of `ilock` from them. `memmove` copies 13 addresses.
unfoldable pub get_dinode : ℕ → (ℕ → ℕ) → Block → Inode
get_dinode i old a = record {
  kind = get_half a (32 * i);
  major = get_half a (32 * i + 1);
  minor = get_half a (32 * i + 2);
  nlink = get_half a (32 * i + 3);
  size = get_word a (16 * i + 2);
  addrs = λ k. if ltb k 13 then get_word a (16 * i + 3 + k) else old k;
}

module _ (sb : Superblock) where
  -- `IBLOCK(i, sb)`
  abbrev pub iblock : ℕ → ℕ
  iblock i = i / ipb + sb.inodestart

  unfoldable pub iupdate : ℕ → Inode → Disk → Disk
  iupdate inum ip d = update d (iblock inum) (put_dinode (inum % ipb) ip (d (iblock inum)))

  -- What `ilock` puts into the cached inode, if it is not valid.
  unfoldable pub load_inode : ℕ → (ℕ → ℕ) → Disk → Inode
  load_inode inum old d = get_dinode (inum % ipb) old (d (iblock inum))
