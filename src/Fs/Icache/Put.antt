-- ===== src/Fs/Icache/Put.antt =====
-- `iput`: a reference is given up, and with the last one a file without links.
use slab_study.Common.{
  ℕ, ◌-◌, ◌%◌, ◌<◌, ◌≤◌, ◌≡◌, ◌≢◌, inl, inr, refl, ◌∙◌, arith, Bool, true, false, some, ◌==◌, ◌&&◌,
  update, Bool-cases,
}
use slab_study.Fs.{Disk, Superblock}
use slab_study.Fs.Bitmap.Bits.{in_use}
use slab_study.Fs.Bitmap.Laws.{Layout, IsSound}
use slab_study.Fs.Bmap.{Inode}
use slab_study.Fs.Bmap.Slots.{nslots, slot, IsMapped}
use slab_study.Fs.Dinode.{ipb, iblock, iupdate, put_dinode}
use slab_study.Fs.Dinode.RoundTrip.{kind_stored, put_dinode-small}
use slab_study.Fs.Content.Meta.{meta_in_use, meta_block, meta-IsSound}
use slab_study.Fs.Trunc.Laws.{Truncated, itrunc_lem}
use slab_study.Fs.Icache.{Cached, Icache, disk_type, free_inode, put_last, iput}

-- `iput` frees the inode.
abbrev pub is_last : Cached → Bool
is_last p = (p.valid && p.node.nlink == 0) && p.ref == 1

module _ (sb : Superblock) (nmeta : ℕ) where
  -- The inode is free on the disk, its blocks are free, and no other block is.
  pub record Dropped (p : Cached) (d d' : Disk) : Type 0 where
    pub free_type : disk_type sb d' p.inum ≡ 0
    pub gone :
        (k : ℕ)
        → k < nslots
        → slot p.node.addrs d k ≢ 0
        → in_use sb d' (slot p.node.addrs d k) ≡ false
    pub kept :
        (c : ℕ)
        → ((k : ℕ) → k < nslots → slot p.node.addrs d k ≢ 0 → slot p.node.addrs d k ≢ c)
        → in_use sb d' c ≡ in_use sb d c
    pub rest : (c : ℕ) → nmeta ≤ c → d' c ≡ d c
    pub sound : IsSound sb nmeta d'

  pub record Put (i : ℕ) (c : Icache) (d : Disk) (c' : Icache) (d' : Disk) : Type 0 where
    pub counted : (c' i).ref ≡ (c i).ref - 1
    pub others : (j : ℕ) → j ≢ i → c' j ≡ c j
    pub same : is_last (c i) ≡ false → ((c' i).valid ≡ (c i).valid) × (d' ≡ d)
    pub dropped : is_last (c i) ≡ true → ((c' i).valid ≡ false) × Dropped (c i) d d'

  module _ (lay : Layout sb nmeta) where
    store-Dropped :
        (p : Cached) (ip : Inode) (d d1 : Disk)
        → iblock sb p.inum < sb.bmapstart
        → Truncated sb nmeta p.inum p.node d ip d1
        → Dropped p d (iupdate sb p.inum (record ip { kind = 0 }) d1)
    unfolding iupdate
    store-Dropped p ip d d1 below t =
        let stored = put_dinode (p.inum % ipb) (record ip { kind = 0 }) (d1 (iblock sb p.inum)) in
        let own : (iblock sb p.inum == iblock sb p.inum) ≡ true = ground arith in
        record {
          free_type = rw own (
              kind_stored (p.inum % ipb) (record ip { kind = 0 }) (d1 (iblock sb p.inum))
                (omega arith));
          gone =
              λ k l z. meta_in_use sb nmeta lay (iblock sb p.inum) stored below d1 _ ∙ t.gone k l z;
          kept = λ c n. meta_in_use sb nmeta lay (iblock sb p.inum) stored below d1 c ∙ t.kept c n;
          rest = λ c l. meta_block sb nmeta lay (iblock sb p.inum) stored below d1 c l ∙ t.rest c l;
          sound =
              meta-IsSound sb nmeta lay (iblock sb p.inum) stored below d1
                (put_dinode-small (p.inum % ipb) (record ip { kind = 0 }) (d1 (iblock sb p.inum))
                  (t.sound.bytes (iblock sb p.inum)))
                t.sound;
        }

    -- `iput` of an inode whose blocks are different data blocks in use on a sound disk, and which is
    -- stored below the bitmap, does not panic. It takes one
    -- from the count of references and changes no other entry. If the inode is valid, without links,
    -- and the reference was the last, it is marked free on the disk and its blocks are free, and no
    -- other block is given up or block with data changed; in all other cases the disk stays as it is.
    pub iput_lem :
        (i : ℕ) (c : Icache) (d : Disk)
        → IsMapped sb nmeta (slot (c i).node.addrs d) d
        → IsSound sb nmeta d
        → iblock sb (c i).inum < sb.bmapstart
        → (c' : Icache) × (d' : Disk) × (iput sb i c d ≡ some (c', d')) × Put i c d c' d'
    unfolding iput put_last free_inode
    iput_lem i c d m s below = elim (Bool-cases (is_last (c i))) [
      | inr more ↦
          let own : (i == i) ≡ true = ground arith in
          (
            update c i (record (c i) { ref = (c i).ref - 1 }),
            d,
            rw (more, iput) refl,
            record {
              counted = rw own refl;
              others = λ j n. let away : (i == j) ≡ false = ground arith in rw away refl;
              same = λ e. (rw own refl, refl);
              dropped = λ e. absurd (not_both more e);
            },
          )
      | inl last ↦
          let (ip, d1, ran, t) = itrunc_lem sb nmeta lay (c i).inum (c i).node d m s below in
          let own : (i == i) ≡ true = ground arith in
          let ip' : Inode = record ip { kind = 0 } in
          let p : Cached = record (c i) { valid = false; node = ip' } in
          let q : Cached = record (update c i p i) { ref = (update c i p i).ref - 1 } in
          (
            update (update c i p) i q,
            iupdate sb (c i).inum ip' d1,
            rw (last, iput) (rw (ran, iput) refl),
            record {
              counted = rw own refl;
              others = λ j n. let away : (i == j) ≡ false = ground arith in rw away refl;
              same = λ e. absurd (not_both e last);
              dropped = λ e. (rw own refl, store-Dropped (c i) ip d d1 below t);
            },
          )
    ]
      where
        not_both : {b : Bool} → b ≡ false → b ≡ true → ⊥
        not_both p q = cc
