-- ===== src/Fs/Content/Meta.antt =====
-- `iupdate` stores an inode in a block that holds no data: no file changes.
use slab_study.Common.{
  ℕ, ◌-◌, ◌<◌, ◌≤◌, ◌≡◌, ◌≢◌, inl, inr, refl, sym, ap, ◌∙◌, arith, false, ltb, ◌==◌, update,
  Bool-cases,
}
use slab_study.Fs.{Disk, Superblock, Block, get_word}
use slab_study.Fs.Bitmap.{bblock}
use slab_study.Fs.Bitmap.Bits.{in_use}
use slab_study.Fs.Bitmap.Laws.{Layout, IsSound}
use slab_study.Fs.Bmap.{ndirect}
use slab_study.Fs.Bmap.Slots.{nslots, slot, IsMapped}

module _ (sb : Superblock) (nmeta : ℕ) (lay : Layout sb nmeta) (b : ℕ) (v : Block)
    (below : b < sb.bmapstart) where
  pub meta_in_use : (d : Disk) (c : ℕ) → in_use sb (update d b v) c ≡ in_use sb d c
  meta_in_use d c = let away : (b == bblock sb c) ≡ false = ground arith in rw away refl

  pub meta_block : (d : Disk) (c : ℕ) → nmeta ≤ c → update d b v c ≡ d c
  meta_block d c l = let away : (b == c) ≡ false = ground (arith, lay.bitmap) in rw away refl

  module _ (addrs : ℕ → ℕ) (d : Disk) (w : IsMapped sb nmeta (slot addrs d) d) where
    pub meta_slot : (j : ℕ) → slot addrs (update d b v) j ≡ slot addrs d j
    unfolding slot
    meta_slot j = elim (Bool-cases (ltb j 13)) [
      | inl direct ↦ rw direct refl
      | inr far ↦ rw far (elim (Bool-cases (addrs ndirect == 0)) [
        | inl nothing ↦ rw nothing refl
        | inr table ↦ rw table (
            ap (λ a. get_word a (j - 13))
              (meta_block d (addrs ndirect) (w.range ndirect (omega arith) (ground arith)).0))
      ])
    ]

    pub meta-IsMapped : IsMapped sb nmeta (slot addrs (update d b v)) (update d b v)
    meta-IsMapped = record {
      range = λ k l z. rw (meta_slot k) (w.range k l (λ e. z (meta_slot k ∙ e)));
      held = λ k l z.
          ap (in_use sb (update d b v)) (meta_slot k)
          ∙ meta_in_use d (slot addrs d k)
          ∙ w.held k l (λ e. z (meta_slot k ∙ e));
      once = λ i j li lj z e.
          w.once i j li lj (λ q. z (meta_slot i ∙ q)) (sym (meta_slot i) ∙ e ∙ meta_slot j);
    }

    pub meta_bytes :
        (q x : ℕ)
        → q < nslots
        → slot addrs d q ≢ 0
        → update d b v (slot addrs (update d b v) q) x ≡ d (slot addrs d q) x
    meta_bytes q x l z =
        ap (λ c. update d b v c x) (meta_slot q)
        ∙ ap (λ c. c x) (meta_block d (slot addrs d q) (w.range q l z).0)

  pub meta-IsSound :
      (d : Disk) → ((i : ℕ) → v i < 256) → IsSound sb nmeta d → IsSound sb nmeta (update d b v)
  meta-IsSound d small s = record {
    bytes = λ a i. elim (Bool-cases (b == a)) [
      | inl here ↦ rw here (small i)
      | inr away ↦ rw away (s.bytes a i)
    ];
    reserved = λ c l. meta_in_use d c ∙ s.reserved c l;
  }
