-- ===== src/Fs/Bmap/Mapped.antt =====
-- `bmap` of a block that the file has changes nothing.
use slab_study.Common.{
  ℕ, ◌+◌, ◌-◌, ◌<◌, ◌≡◌, ◌≢◌, refl, arith, true, false, some, ltb, ◌==◌, Bool-cases, inl, inr,
}
use slab_study.Fs.{Disk, Superblock, get_word}
use slab_study.Fs.Bmap.{Inode, ndirect, nindirect, slot_block, table_block, indirect_block, bmap}
use slab_study.Fs.Bmap.Slots.{slot, slot_of}

module _ (sb : Superblock) (ip : Inode) (d : Disk) where
  slot_block-mapped : (k : ℕ) → ip.addrs k ≢ 0 → slot_block sb k ip d ≡ some (ip.addrs k, ip, d)
  unfolding slot_block
  slot_block-mapped k n =
      let there : (ip.addrs k == 0) ≡ false = ground arith in rw (there, slot_block) refl

  table_block-mapped :
      (bn table : ℕ)
      → get_word (d table) bn ≢ 0
      → table_block sb bn table ip d ≡ some (get_word (d table) bn, ip, d)
  unfolding table_block
  table_block-mapped bn table n =
      let there : (get_word (d table) bn == 0) ≡ false = ground arith in
      rw (there, table_block) refl

  indirect_block-mapped :
      (bn : ℕ)
      → ip.addrs ndirect ≢ 0
      → get_word (d (ip.addrs ndirect)) bn ≢ 0
      → indirect_block sb bn ip d ≡ some (get_word (d (ip.addrs ndirect)) bn, ip, d)
  unfolding indirect_block
  indirect_block-mapped bn t n =
      rw (slot_block-mapped ndirect t, indirect_block) (table_block-mapped bn (ip.addrs ndirect) n)

  pub bmap-mapped :
      (bn : ℕ)
      → bn < ndirect + nindirect
      → slot ip.addrs d (slot_of bn) ≢ 0
      → bmap sb bn ip d ≡ some (slot ip.addrs d (slot_of bn), ip, d)
  unfolding bmap slot
  bmap-mapped bn l n = elim (Bool-cases (ltb bn ndirect)) [
    | inl direct ↦
        let low : ltb bn 13 ≡ true = ground arith in
        rw (direct, low, bmap) (slot_block-mapped bn (λ e. n (rw (direct, low) e)))
    | inr beyond ↦
        let small : ltb (bn - ndirect) nindirect ≡ true = ground arith in
        let high : ltb (bn + 1) 13 ≡ false = ground arith in
        let index : bn + 1 - 13 ≡ bn - ndirect = ground arith in
        elim (Bool-cases (ip.addrs ndirect == 0)) [
          | inl nothing ↦ absurd (n (rw (beyond, high, nothing) refl))
          | inr table ↦
              rw (beyond, small, high, table, index, bmap)
                (indirect_block-mapped (bn - ndirect) (ground arith)
                  (λ e. n (rw (beyond, high, table, index) e)))
        ]
  ]
