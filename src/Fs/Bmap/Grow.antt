-- ===== src/Fs/Bmap/Grow.antt =====
-- What `bmap` changes: one slot may get a block, and everything else stays.
use mathlib.Core.Path.{subst}
use slab_study.Common.{
  ℕ, ◌-◌, ◌<◌, ◌≤◌, ◌≡◌, ◌≢◌, ◌⊎◌, inl, inr, refl, ap, ◌∙◌, arith, true, false, Option, some, none,
  ltb, ◌==◌, if◌then◌else◌, update, Bool-cases,
}
use slab_study.Fs.{Disk, Superblock, get_word}
use slab_study.Fs.Bytes.{get_word-zero}
use slab_study.Fs.Bitmap.{balloc}
use slab_study.Fs.Bitmap.Bits.{in_use}
use slab_study.Fs.Bitmap.Laws.{Layout, IsSound, Allocated, BallocResult, balloc_lem}
use slab_study.Fs.Bmap.{Inode, ndirect, slot_block}
use slab_study.Fs.Bmap.Slots.{nslots, slot, IsMapped, extend-IsMapped, stays_used, stays_free}

module _ (sb : Superblock) (nmeta : ℕ) where
  -- Slot `k` has the block `a` now, and had it before if it had one.
  pub record Grown (k : ℕ) (ip : Inode) (d : Disk) (a : ℕ) (ip' : Inode) (d' : Disk) : Type 0 where
    pub address : slot ip'.addrs d' k ≡ a
    pub mapped_now : a ≢ 0
    pub fixed :
        (j : ℕ) → j < nslots → slot ip.addrs d j ≢ 0 → slot ip'.addrs d' j ≡ slot ip.addrs d j
    pub kept : (j : ℕ) → j < nslots → j ≢ k → j ≢ ndirect → slot ip'.addrs d' j ≡ slot ip.addrs d j
    pub zeroed : slot ip.addrs d k ≡ 0 → (i : ℕ) → d' a i ≡ 0
    pub was_free : slot ip.addrs d k ≡ 0 → in_use sb d a ≡ false
    pub others :
        (c : ℕ) → nmeta ≤ c → c < sb.size → in_use sb d c ≡ true → c ≢ ip.addrs ndirect → d' c ≡ d c
    pub bits : (c : ℕ) → c < sb.size → in_use sb d c ≡ true → in_use sb d' c ≡ true
    pub spent :
        (c : ℕ)
        → c < sb.size
        → in_use sb d c ≡ false
        → c ≢ a
        → c ≢ ip'.addrs ndirect
        → in_use sb d' c ≡ false
    pub owned :
        (j : ℕ)
        → j < nslots
        → slot ip'.addrs d' j ≢ 0
        → (slot ip'.addrs d' j ≡ slot ip.addrs d j) ⊎ (in_use sb d (slot ip'.addrs d' j) ≡ false)
    pub mapped : IsMapped sb nmeta (slot ip'.addrs d') d'
    pub sound : IsSound sb nmeta d'
    pub fields : ip' ≡ record ip { addrs = ip'.addrs }

  -- No block is left.
  abbrev pub Full : Disk → Type 0
  Full d = (c : ℕ) → c < sb.size → in_use sb d c ≡ true

  abbrev pub GrowResult : ℕ → Inode → Disk → Option (ℕ × Inode × Disk) → Type 0
  GrowResult k ip d none = Full d
  GrowResult k ip d (some (a, ip', d')) = Grown k ip d a ip' d'

  module _ (lay : Layout sb nmeta) where
    -- The slot has its block already.
    pub same-Grown :
        (k : ℕ) (ip : Inode) (d : Disk)
        → IsMapped sb nmeta (slot ip.addrs d) d
        → IsSound sb nmeta d
        → slot ip.addrs d k ≢ 0
        → Grown k ip d (slot ip.addrs d k) ip d
    same-Grown k ip d v s z = record {
      address = refl;
      mapped_now = z;
      fixed = λ j l n. refl;
      kept = λ j l n m. refl;
      zeroed = λ e. absurd (z e);
      was_free = λ e. absurd (z e);
      others = λ c m l u n. refl;
      bits = λ c l u. u;
      spent = λ c l u _ _. u;
      owned = λ j l n. inl refl;
      mapped = v;
      sound = s;
      fields = refl;
    }

    -- An allocated block is not one that was in use.
    pub not_new : {d d' : Disk} {b c : ℕ} → Allocated sb nmeta d d' b → in_use sb d c ≡ true → c ≢ b
    not_new {d} {d'} {b} {c} a used e = absurd (ground (arith, ap (in_use sb d) e, a.was_free))

    -- The indirect block is still there, or it is new and zeroed.
    table_after :
        (k b : ℕ) (addrs : ℕ → ℕ) (d d' : Disk)
        → IsMapped sb nmeta (slot addrs d) d
        → addrs k ≡ 0
        → Allocated sb nmeta d d' b
        → (e : ℕ)
        → (if update addrs k b ndirect == 0 then 0 else get_word (d' (update addrs k b ndirect)) e)
          ≡ (if addrs ndirect == 0 then 0 else get_word (d (addrs ndirect)) e)
    unfolding slot
    table_after k b addrs d d' v z a e = elim (Bool-cases (k == ndirect)) [
      | inl here ↦
          let same : k ≡ ndirect = ground arith in
          let none_yet : (addrs ndirect == 0) ≡ true = ground (arith, ap addrs same) in
          let some_now : (b == 0) ≡ false = ground (arith, a.range, lay.boot) in
          rw (here, none_yet, some_now) (get_word-zero (d' b) e a.zeroed)
      | inr away ↦ rw away (elim (Bool-cases (addrs ndirect == 0)) [
        | inl none_yet ↦ rw none_yet refl
        | inr there ↦
            let q : addrs ndirect ≢ 0 = ground arith in
            let r = v.range ndirect (omega arith) q in
            let stays : d' (addrs ndirect) ≡ d (addrs ndirect) =
              a.rest (addrs ndirect) r.0 (not_new a (v.held ndirect (omega arith) q)) in
            rw there (ap (λ x. get_word x e) stays)
      ])
    ]

    -- The other slots, once slot `k` below 13 has a new block.
    slots_after :
        (k b : ℕ) (addrs : ℕ → ℕ) (d d' : Disk)
        → k ≤ ndirect
        → IsMapped sb nmeta (slot addrs d) d
        → addrs k ≡ 0
        → Allocated sb nmeta d d' b
        → (j : ℕ) → j < nslots
        → j ≢ k
        → slot (update addrs k b) d' j ≡ slot addrs d j
    unfolding slot
    slots_after k b addrs d d' l v z a j m n = elim (Bool-cases (ltb j 13)) [
      | inl direct ↦ ground arith
      | inr entry ↦ rw entry (table_after k b addrs d d' v z a (j - 13))
    ]

    pub at_slot : (f : ℕ → ℕ) {k : ℕ} (j : ℕ) → (j == k) ≡ true → f j ≡ f k
    at_slot f {k} j e = let same : j ≡ k = ground arith in ap f same

    -- `slot_block` gives slot `k` a block, if it has none.
    new_slot-Grown :
        (k b : ℕ) (ip : Inode) (d d' : Disk)
        → k ≤ ndirect
        → IsMapped sb nmeta (slot ip.addrs d) d
        → ip.addrs k ≡ 0
        → Allocated sb nmeta d d' b
        → Grown k ip d b (record ip { addrs = update ip.addrs k b }) d'
    unfolding slot
    new_slot-Grown k b ip d d' l v z a =
        let after = slots_after k b ip.addrs d d' l v z a in
        let direct : ltb k 13 ≡ true = ground arith in
        let address : slot (update ip.addrs k b) d' k ≡ b = rw direct (ground arith) in
        let before : slot ip.addrs d k ≡ 0 = rw direct z in
        record {
          address = address;
          mapped_now = ground (arith, a.range, lay.boot);
          fixed = λ j m n. after j m (λ e. n (ap (slot ip.addrs d) e ∙ before));
          kept = λ j m n _. after j m n;
          zeroed = λ _. a.zeroed;
          was_free = λ _. a.was_free;
          others = λ c m n u _. a.rest c m (not_new a u);
          bits = λ c m u. stays_used sb nmeta a c m u;
          spent = λ c m u n _. stays_free sb nmeta a c m u n;
          owned = λ j m n. elim (Bool-cases (j == k)) [
            | inl here ↦ inr (
                ap (in_use sb d) (at_slot (slot (update ip.addrs k b) d') j here ∙ address)
                ∙ a.was_free)
            | inr away ↦ inl (after j m (ground arith))
          ];
          mapped =
              extend-IsMapped sb nmeta (slot ip.addrs d) (slot (update ip.addrs k b) d') d d' k b
                lay.boot v address after a;
          sound = a.sound;
          fields = refl;
        }

    pub slot_direct : (k : ℕ) (addrs : ℕ → ℕ) (d : Disk) → k ≤ ndirect → slot addrs d k ≡ addrs k
    unfolding slot
    slot_direct k addrs d l = let direct : ltb k 13 ≡ true = ground arith in rw direct refl

    pub slot_block-Grown :
        (k : ℕ) (ip : Inode) (d : Disk)
        → k ≤ ndirect
        → IsMapped sb nmeta (slot ip.addrs d) d
        → IsSound sb nmeta d
        → GrowResult k ip d (slot_block sb k ip d)
    unfolding slot_block
    slot_block-Grown k ip d l v s = elim (Bool-cases (ip.addrs k == 0)) [
      | inl empty ↦
          rw (empty, slot_block)
            (allocate (balloc sb d) (balloc_lem sb nmeta lay d s) (ground arith))
      | inr there ↦
          rw (there, slot_block)
            (let direct : slot ip.addrs d k ≡ ip.addrs k = slot_direct k ip.addrs d l in
              subst (λ a. Grown k ip d a ip d) direct
                (same-Grown k ip d v s (ground (arith, direct))))
    ]
      where
        allocate :
            (r : Option (ℕ × Disk))
            → BallocResult sb nmeta d r
            → ip.addrs k ≡ 0
            → GrowResult k ip d (elim r [
              | some (addr, d') ↦ some (addr, record ip { addrs = update ip.addrs k addr }, d')
              | none ↦ none
            ])
        allocate none full z = full
        allocate (some (b, d')) a z = new_slot-Grown k b ip d d' l v z a
