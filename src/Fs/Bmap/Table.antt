-- ===== src/Fs/Bmap/Table.antt =====
-- The entries of the indirect block, and `bmap` as a whole.
use mathlib.Core.Path.{subst}
use slab_study.Common.{
  ℕ, ◌+◌, ◌-◌, ◌<◌, ◌≤◌, ◌≡◌, ◌≢◌, inl, inr, refl, sym, ap, ◌∙◌, arith, true, false, Option, some,
  none, ltb, ◌==◌, update, Bool-cases,
}
use slab_study.Fs.{Disk, Superblock, get_word, put_word}
use slab_study.Fs.Bytes.{get-put_word, get-put_word_other, put_word-byte}
use slab_study.Fs.Bitmap.{balloc}
use slab_study.Fs.Bitmap.Bits.{in_use}
use slab_study.Fs.Bitmap.Laws.{Layout, IsSound, Allocated, BallocResult, balloc_lem}
use slab_study.Fs.Bmap.{Inode, ndirect, nindirect, table_block}
use slab_study.Fs.Bmap.Slots.{
  nslots, slot, IsMapped, extend-IsMapped, stays_used, stays_free, in_use-update,
}
use slab_study.Fs.Bmap.Grow.{Grown, GrowResult, not_new, same-Grown, at_slot, slot_direct}

module _ (sb : Superblock) (nmeta : ℕ) (lay : Layout sb nmeta) where
  -- A write into a block that holds data leaves the bitmap alone.
  pub IsMapped-update :
      (f : ℕ → ℕ) (d : Disk) (b : ℕ) (v : ℕ → ℕ)
      → nmeta ≤ b
      → IsMapped sb nmeta f d
      → IsMapped sb nmeta f (update d b v)
  IsMapped-update f d b v m w = record {
    range = w.range;
    held = λ k l z. in_use-update sb nmeta d b (f k) v lay m (w.range k l z).1 ∙ w.held k l z;
    once = w.once;
  }

  -- The same slots.
  pub IsMapped-same :
      (f f' : ℕ → ℕ) (d : Disk)
      → ((j : ℕ) → f' j ≡ f j)
      → IsMapped sb nmeta f d
      → IsMapped sb nmeta f' d
  IsMapped-same f f' d same w = record {
    range = λ k l z. rw (same k) (w.range k l (λ e. z (same k ∙ e)));
    held = λ k l z. rw (same k) (w.held k l (λ e. z (same k ∙ e)));
    once = λ i j li lj z e. w.once i j li lj (λ q. z (same i ∙ q)) (sym (same i) ∙ e ∙ same j);
  }

  pub IsSound-update :
      (d : Disk) (b : ℕ) (v : ℕ → ℕ)
      → nmeta ≤ b
      → ((i : ℕ) → v i < 256)
      → IsSound sb nmeta d
      → IsSound sb nmeta (update d b v)
  IsSound-update d b v m small s = record {
    bytes = λ a i. elim (Bool-cases (b == a)) [
      | inl here ↦ rw here (small i)
      | inr away ↦ rw away (s.bytes a i)
    ];
    reserved =
        λ c l. in_use-update sb nmeta d b c v lay m (omega (arith, l, lay.within)) ∙ s.reserved c l;
  }

  module _ (bn : ℕ) (ip : Inode) (d : Disk) (small : bn < nindirect) (there : ip.addrs ndirect ≢ 0)
      (v : IsMapped sb nmeta (slot ip.addrs d) d) (s : IsSound sb nmeta d) where
    table : ℕ
    table = ip.addrs ndirect

    -- The slot of an entry, where there is an indirect block.
    entry_slot : (e : Disk) (j : ℕ) → slot ip.addrs e (13 + j) ≡ get_word (e table) j
    unfolding slot table
    entry_slot e j =
        let far : ltb (13 + j) 13 ≡ false = ground arith in
        let some_table : (ip.addrs ndirect == 0) ≡ false = ground arith in
        let index : 13 + j - 13 ≡ j = omega arith in rw (far, some_table, index) refl

    table_range : (nmeta ≤ table) × (table < sb.size)
    unfolding slot table
    table_range = v.range ndirect (omega arith) there

    table_held : in_use sb d table ≡ true
    unfolding slot table
    table_held = v.held ndirect (omega arith) there

    module _ (b : ℕ) (d1 : Disk) (a : Allocated sb nmeta d d1 b) where
      d2 : Disk
      d2 = update d1 table (put_word bn b (d1 table))

      written : d2 table ≡ put_word bn b (d1 table)
      unfolding d2
      written = ground arith

      table_stays : d1 table ≡ d table
      table_stays = a.rest table table_range.0 (not_new sb nmeta lay a table_held)

      elsewhere : (c : ℕ) → c ≢ table → d2 c ≡ d1 c
      unfolding d2
      elsewhere c n = let away : (table == c) ≡ false = ground arith in rw away refl

      address : slot ip.addrs d2 (13 + bn) ≡ b
      address =
          entry_slot d2 bn
          ∙ ap (λ x. get_word x bn) written
          ∙ get-put_word (d1 table) bn b (omega (arith, a.range, lay.word))

      other_slots : (j : ℕ) → j < nslots → j ≢ 13 + bn → slot ip.addrs d2 j ≡ slot ip.addrs d j
      other_slots j l n = elim (Bool-cases (ltb j 13)) [
        | inl direct ↦
            slot_direct sb nmeta lay j ip.addrs d2 (ground arith)
            ∙ sym (slot_direct sb nmeta lay j ip.addrs d (ground arith))
        | inr far ↦
            let at : 13 + (j - 13) ≡ j = ground arith in
            subst (λ x. slot ip.addrs d2 x ≡ slot ip.addrs d x) at
              (entry_slot d2 (j - 13)
                ∙ ap (λ x. get_word x (j - 13)) written
                ∙ get-put_word_other (d1 table) bn (j - 13) b (ground arith)
                ∙ ap (λ x. get_word x (j - 13)) table_stays
                ∙ sym (entry_slot d (j - 13)))
      ]

      entry-Grown : slot ip.addrs d (13 + bn) ≡ 0 → Grown sb nmeta (13 + bn) ip d b ip d2
      unfolding d2 table
      entry-Grown z = record {
        address = address;
        mapped_now = ground (arith, a.range, lay.boot);
        fixed = λ j l n. other_slots j l (λ e. n (ap (slot ip.addrs d) e ∙ z));
        kept = λ j l n _. other_slots j l n;
        zeroed = λ _ i.
            ap (λ x. x i) (elsewhere b (λ e. not_new sb nmeta lay a table_held (sym e)))
            ∙ a.zeroed i;
        was_free = λ _. a.was_free;
        others = λ c m l u n. elsewhere c n ∙ a.rest c m (not_new sb nmeta lay a u);
        bits = λ c l u.
            in_use-update sb nmeta d1 table c _ lay table_range.0 l ∙ stays_used sb nmeta a c l u;
        spent = λ c l u n _.
            in_use-update sb nmeta d1 table c _ lay table_range.0 l ∙ stays_free sb nmeta a c l u n;
        owned = λ j l n. elim (Bool-cases (j == 13 + bn)) [
          | inl here ↦ inr (
              ap (in_use sb d) (at_slot sb nmeta lay (slot ip.addrs d2) j here ∙ address)
              ∙ a.was_free)
          | inr away ↦ inl (other_slots j l (ground arith))
        ];
        mapped = IsMapped-update (slot ip.addrs d2) d1 table _ table_range.0 (
            extend-IsMapped sb nmeta (slot ip.addrs d) (slot ip.addrs d2) d d1 (13 + bn) b lay.boot
              v address other_slots a);
        sound =
            IsSound-update d1 table _ table_range.0
              (λ i. put_word-byte (d1 table) bn b i (a.sound.bytes table i)) a.sound;
        fields = refl;
      }

    pub table_block-Grown :
        GrowResult sb nmeta (13 + bn) ip d (table_block sb bn (ip.addrs ndirect) ip d)
    unfolding table_block d2 table
    table_block-Grown = elim (Bool-cases (get_word (d (ip.addrs ndirect)) bn == 0)) [
      | inl empty ↦
          rw (empty, table_block)
            (allocate (balloc sb d) (balloc_lem sb nmeta lay d s) (entry_slot d bn ∙ ground arith))
      | inr full ↦
          rw (full, table_block)
            (subst (λ a. Grown sb nmeta (13 + bn) ip d a ip d) (entry_slot d bn)
              (same-Grown sb nmeta lay (13 + bn) ip d v s (ground (arith, entry_slot d bn))))
    ]
      where
        allocate :
            (r : Option (ℕ × Disk))
            → BallocResult sb nmeta d r
            → slot ip.addrs d (13 + bn) ≡ 0
            → GrowResult sb nmeta (13 + bn) ip d (elim r [
              | some (new, d') ↦
                  some (
                    new,
                    ip,
                    update d' (ip.addrs ndirect) (put_word bn new (d' (ip.addrs ndirect))),
                  )
              | none ↦ none
            ])
        allocate none full z = full
        allocate (some (b, d1)) a z = entry-Grown b d1 a z
