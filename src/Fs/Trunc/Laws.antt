-- ===== src/Fs/Trunc/Laws.antt =====
-- `itrunc` as a whole.
use mathlib.Core.Path.{subst}
use slab_study.Common.{
  ℕ, ◌+◌, ◌%◌, ◌<◌, ◌≤◌, ◌≡◌, ◌≢◌, inl, inr, refl, sym, ap, ◌∙◌, arith, false, some, ltb, ◌==◌,
  update, Bool-cases,
}
use slab_study.Fs.{Disk, Superblock, get_word}
use slab_study.Fs.Bitmap.Bits.{in_use}
use slab_study.Fs.Bitmap.Laws.{Layout, IsSound}
use slab_study.Fs.Bmap.{Inode, ndirect, nindirect}
use slab_study.Fs.Bmap.Slots.{nslots, slot, IsMapped}
use slab_study.Fs.Dinode.{ipb, iblock, iupdate, put_dinode}
use slab_study.Fs.Dinode.RoundTrip.{put_dinode-small}
use slab_study.Fs.Content.Meta.{meta_in_use, meta_block, meta-IsSound}
use slab_study.Fs.Trunc.{free_if, free_table, free_indirect, empty_inode, trunc_rest, itrunc}
use slab_study.Fs.Trunc.Frees.{
  Frees, Holds, Frees-none, Frees-trans, Holds-rest, Holds-part, free_if_lem,
}
use slab_study.Fs.Trunc.Loops.{free_entries_lem, free_direct_lem}
use slab_study.Fs.Trunc.Order.{
  place, in_order, order_direct, order_hole, order_last, order_nothing, order_entry, slot_direct,
  in_order_at, place_below, in_order-Holds,
}

module _ (sb : Superblock) (nmeta : ℕ) where
  -- The file is empty, all of its blocks are free, and nothing else has changed but its inode's block.
  pub record Truncated (inum : ℕ) (ip : Inode) (d : Disk) (ip' : Inode) (d' : Disk) : Type 0 where
    pub gone :
        (k : ℕ) → k < nslots → slot ip.addrs d k ≢ 0 → in_use sb d' (slot ip.addrs d k) ≡ false
    pub kept :
        (c : ℕ)
        → ((k : ℕ) → k < nslots → slot ip.addrs d k ≢ 0 → slot ip.addrs d k ≢ c)
        → in_use sb d' c ≡ in_use sb d c
    pub rest : (c : ℕ) → nmeta ≤ c → d' c ≡ d c
    pub empty : (k : ℕ) → k < 13 → ip'.addrs k ≡ 0
    pub size : ip'.size ≡ 0
    pub sound : IsSound sb nmeta d'

  module _ (lay : Layout sb nmeta) where
    free_table_lem :
        (g : ℕ → ℕ) (d : Disk)
        → Holds sb nmeta g 12 142 d
        → IsSound sb nmeta d
        → g 12 ≡ 0
        → g 141 ≢ 0
        → ((i : ℕ) → i < nindirect → get_word (d (g 141)) i ≡ g (13 + i))
        → (d' : Disk) × (free_table sb (g 141) d ≡ some d') × Frees sb nmeta g 12 142 d d'
    unfolding free_table free_if
    free_table_lem g d w s hole z entries =
        let above : nmeta ≤ g 141 = (w.range 141 (omega arith) (omega arith) z).0 in
        let f0 : Frees sb nmeta g 12 13 d d =
          Frees-none sb nmeta g 12 13 d
            (λ j a b. (let same : j ≡ 12 = omega (arith, a, b) in ap g same) ∙ hole) s in
        let w1 : Holds sb nmeta g 13 142 d =
          Holds-rest sb nmeta g 12 13 142 d d (omega arith) w f0 in
        let (d1, ran, f1) =
          free_entries_lem sb nmeta lay g (g 141) nindirect 0 141 (d (g 141)) d refl refl above refl
            entries (Holds-part sb nmeta g 13 141 142 d (omega arith) w1) s in
        let w2 : Holds sb nmeta g 141 142 d1 =
          Holds-rest sb nmeta g 13 141 142 d d1 (omega arith) w1 f1 in
        let (d2, last, f2) = free_if_lem sb nmeta lay g 141 142 d1 (omega arith) w2 f1.sound in
        let there : (g 141 == 0) ≡ false = ground arith in
        (
          d2,
          rw (ran, free_table) (rw (there, free_if) at last),
          Frees-trans sb nmeta g 12 13 142 d d d2 (omega arith) (omega arith) w f0
              (Frees-trans sb nmeta g 13 141 142 d d1 d2 (omega arith) (omega arith) w1 f1 f2),
        )

    free_indirect_lem :
        (g : ℕ → ℕ) (ip : Inode) (d : Disk)
        → Holds sb nmeta g 12 142 d
        → IsSound sb nmeta d
        → g 12 ≡ 0
        → g 141 ≡ ip.addrs ndirect
        → (ip.addrs ndirect ≢ 0
            → (i : ℕ) → i < nindirect
            → get_word (d (ip.addrs ndirect)) i ≡ g (13 + i))
        → (ip.addrs ndirect ≡ 0 → (j : ℕ) → 12 ≤ j → j < 142 → g j ≡ 0)
        → (ip' : Inode) × (d' : Disk) × (free_indirect sb ip d ≡ some (ip', d'))
          × Frees sb nmeta g 12 142 d d'
          × (ip'.addrs ndirect ≡ 0)
          × ((k : ℕ) → k < ndirect → ip'.addrs k ≡ ip.addrs k)
    unfolding free_indirect
    free_indirect_lem g ip d w s hole last entries nothing =
        elim (Bool-cases (ip.addrs ndirect == 0)) [
          | inl empty ↦ (
            ip,
            d,
            rw (empty, free_indirect) refl,
            Frees-none sb nmeta g 12 142 d (nothing (ground arith)) s,
            ground arith,
            λ k l. refl,
          )
          | inr there ↦
              let z : ip.addrs ndirect ≢ 0 = ground arith in
              let (d1, ran, f) =
                free_table_lem g d w s hole (λ q. z (sym last ∙ q))
                  (λ i l. ap (λ b. get_word (d b) i) last ∙ entries z i l) in
              let freed : free_table sb (ip.addrs ndirect) d ≡ some d1 =
                subst (λ b. free_table sb b d ≡ some d1) last ran in
              (
                record ip { addrs = update ip.addrs ndirect 0 },
                d1,
                rw (there, free_indirect) (rw (freed) refl),
                f,
                refl,
                λ k l. ground arith,
              )
        ]

    truncated :
        (inum : ℕ) (ip2 ip : Inode) (d d2 : Disk)
        → IsSound sb nmeta d
        → iblock sb inum < sb.bmapstart
        → Frees sb nmeta (in_order (slot ip.addrs d)) 0 142 d d2
        → ((k : ℕ) → k < 13 → ip2.addrs k ≡ 0)
        → Truncated inum ip d
            (record ip2 { size = 0 })
            (iupdate sb inum (record ip2 { size = 0 }) d2)
    unfolding iupdate
    truncated inum ip2 ip d d2 s below f clear =
        let stored = put_dinode (inum % ipb) (record ip2 { size = 0 }) (d2 (iblock sb inum)) in
        record {
          gone = λ k l z.
              meta_in_use sb nmeta lay (iblock sb inum) stored below d2 (slot ip.addrs d k)
              ∙ gone k l z;
          kept = λ c n.
              meta_in_use sb nmeta lay (iblock sb inum) stored below d2 c
              ∙ f.kept c (λ j a b z e.
                let at = in_order_at (slot ip.addrs d) j z in
                n (place j) (place_below j b) (λ q. z (at ∙ q)) (sym at ∙ e));
          rest = λ c l. meta_block sb nmeta lay (iblock sb inum) stored below d2 c l ∙ f.rest c l;
          empty = clear;
          size = refl;
          sound =
              meta-IsSound sb nmeta lay (iblock sb inum) stored below d2
                (put_dinode-small (inum % ipb) (record ip2 { size = 0 }) (d2 (iblock sb inum))
                  (f.sound.bytes (iblock sb inum)))
                f.sound;
        }
      where
        gone :
            (k : ℕ) → k < nslots → slot ip.addrs d k ≢ 0 → in_use sb d2 (slot ip.addrs d k) ≡ false
        gone k l z = elim (Bool-cases (k == ndirect)) [
          | inl table ↦
              let e : in_order (slot ip.addrs d) nslots ≡ slot ip.addrs d k =
                order_last (slot ip.addrs d)
                ∙ (let same : ndirect ≡ k = ground arith in ap (slot ip.addrs d) same) in
              ap (in_use sb d2) (sym e)
              ∙ f.gone nslots (omega arith) (omega arith) (λ q. z (sym e ∙ q))
          | inr other ↦
              let e = order_direct (slot ip.addrs d) k l (ground arith) in
              ap (in_use sb d2) (sym e) ∙ f.gone k (omega arith) (omega arith) (λ q. z (sym e ∙ q))
        ]

    -- `itrunc` of an inode whose blocks are different data blocks in use on a sound disk, and which is
    -- stored below the bitmap, does not panic. It leaves an
    -- empty inode, every block that was a block of the file, its indirect block included, is free, no
    -- other block is given up, and no block that holds data is changed.
    pub itrunc_lem :
        (inum : ℕ) (ip : Inode) (d : Disk)
        → IsMapped sb nmeta (slot ip.addrs d) d
        → IsSound sb nmeta d
        → iblock sb inum < sb.bmapstart
        → (ip' : Inode) × (d' : Disk) × (itrunc sb inum ip d ≡ some (ip', d'))
          × Truncated inum ip d ip' d'
    unfolding itrunc trunc_rest empty_inode
    itrunc_lem inum ip d m s below =
        let (ip1, d1, ran, f, c) =
          free_direct_lem sb nmeta lay (in_order (slot ip.addrs d)) 12 0 ip d refl
            (λ j a b.
              sym (slot_direct ip.addrs d j (omega (arith, b)))
              ∙ sym (order_direct (slot ip.addrs d) j (omega (arith, b)) (ground (arith, b))))
            (Holds-part sb nmeta (in_order (slot ip.addrs d)) 0 12 142 d (omega arith)
              (in_order-Holds sb nmeta (slot ip.addrs d) d m))
            s in
        let table : ip1.addrs ndirect ≡ ip.addrs ndirect = c.kept ndirect (inr (omega arith)) in
        let (ip2, d2, more, h, gone, kept) =
          free_indirect_lem (in_order (slot ip.addrs d)) ip1 d1
            (Holds-rest sb nmeta (in_order (slot ip.addrs d)) 0 12 142 d d1 (omega arith)
              (in_order-Holds sb nmeta (slot ip.addrs d) d m) f)
            f.sound (order_hole (slot ip.addrs d))
            (order_last (slot ip.addrs d)
              ∙ slot_direct ip.addrs d ndirect (omega arith)
              ∙ sym table)
            (λ z i l.
              order_entry ip.addrs d d1 (ip1.addrs ndirect) i (table) (λ q. z (table ∙ q)) l
                (f.rest (ip.addrs ndirect) (
                  subst (λ b. nmeta ≤ b) (slot_direct ip.addrs d ndirect (omega arith))
                    (m.range ndirect (omega arith) (λ q.
                      z (table ∙ sym (slot_direct ip.addrs d ndirect (omega arith)) ∙ q))).0)))
            (λ z j a b. order_nothing ip.addrs d (sym table ∙ z) j a b) in
        (
          record ip2 { size = 0 },
          iupdate sb inum (record ip2 { size = 0 }) d2,
          rw (ran, trunc_rest) (rw (more, empty_inode) refl),
          truncated inum ip2 ip d d2 s below
              (Frees-trans sb nmeta (in_order (slot ip.addrs d)) 0 12 142 d d1 d2 (omega arith)
                (omega arith) (in_order-Holds sb nmeta (slot ip.addrs d) d m) f h)
              (λ k l. elim (Bool-cases (ltb k 12)) [
                | inl direct ↦ kept k (ground arith) ∙ c.gone k (omega arith) (ground arith)
                | inr last ↦ (let same : k ≡ 12 = ground (arith, l) in ap ip2.addrs same) ∙ gone
              ]),
        )
