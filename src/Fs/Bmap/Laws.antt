-- ===== src/Fs/Bmap/Laws.antt =====
-- `bmap` of a block of the file.
use mathlib.Core.Path.{subst}
use slab_study.Common.{
  ℕ, ◌+◌, ◌-◌, ◌<◌, ◌≡◌, ◌≢◌, inl, inr, sym, ap, ◌∙◌, arith, true, false, Option, some, none, ltb,
  ◌==◌, Bool-cases,
}
use slab_study.Fs.{Disk, Superblock}
use slab_study.Fs.Bitmap.Bits.{in_use}
use slab_study.Fs.Bitmap.Laws.{Layout, IsSound}
use slab_study.Fs.Bmap.{Inode, ndirect, nindirect, slot_block, table_block, indirect_block, bmap}
use slab_study.Fs.Bmap.Slots.{nslots, slot, slot_of, IsMapped, true-ne-false}
use slab_study.Fs.Bmap.Grow.{Grown, GrowResult, Full, slot_block-Grown, slot_direct}
use slab_study.Fs.Bmap.Table.{table_block-Grown}

module _ (sb : Superblock) (nmeta : ℕ) (lay : Layout sb nmeta) where
  pub free_before :
      (d d1 : Disk)
      → ((c : ℕ) → c < sb.size → in_use sb d c ≡ true → in_use sb d1 c ≡ true)
      → (c : ℕ) → c < sb.size
      → in_use sb d1 c ≡ false
      → in_use sb d c ≡ false
  free_before d d1 bits c l free = elim (Bool-cases (in_use sb d c)) [
    | inl used ↦ absurd (true-ne-false sb nmeta (sym (bits c l used) ∙ free))
    | inr e ↦ e
  ]

  -- First the indirect block, then an entry of it.
  Grown-trans :
      (k : ℕ) (ip ip1 ip2 : Inode) (d d1 d2 : Disk) (a b : ℕ)
      → k < nslots
      → ndirect < k
      → Grown sb nmeta ndirect ip d a ip1 d1
      → Grown sb nmeta k ip1 d1 b ip2 d2
      → Grown sb nmeta k ip d b ip2 d2
  Grown-trans k ip ip1 ip2 d d1 d2 a b l far g h = record {
    address = h.address;
    mapped_now = h.mapped_now;
    fixed = λ j m n. h.fixed j m (λ e. n (sym (g.fixed j m n) ∙ e)) ∙ g.fixed j m n;
    kept = λ j m n o. h.kept j m n o ∙ g.kept j m o o;
    zeroed = λ z. h.zeroed (before z);
    was_free = λ z. free_before d d1 g.bits b below (h.was_free (before z));
    others = λ c m n u o.
        h.others c m n (g.bits c n u)
          (λ e. table_differs c u o (e ∙ sym (direct ip1 d1) ∙ g.address))
        ∙ g.others c m n u o;
    bits = λ c m u. h.bits c m (g.bits c m u);
    spent = λ c m u n o.
        h.spent c m
          (g.spent c m u (λ e. o (e ∙ sym last))
            (λ e. o (e ∙ sym (direct ip1 d1) ∙ g.address ∙ sym last)))
          n o;
    owned = λ j m n. elim (h.owned j m n) [
      | inl same ↦ elim (g.owned j m (λ e. n (same ∙ e))) [
        | inl old ↦ inl (same ∙ old)
        | inr free ↦ inr (ap (in_use sb d) same ∙ free)
      ]
      | inr free ↦ inr (free_before d d1 g.bits (slot ip2.addrs d2 j) (h.mapped.range j m n).1 free)
    ];
    mapped = h.mapped;
    sound = h.sound;
    fields = h.fields ∙ ap {A = Inode} (λ x. record x { addrs = ip2.addrs }) g.fields;
  }
    where
      direct : (i : Inode) (e : Disk) → slot i.addrs e ndirect ≡ i.addrs ndirect
      direct i e = slot_direct sb nmeta lay ndirect i.addrs e (omega arith)

      before : slot ip.addrs d k ≡ 0 → slot ip1.addrs d1 k ≡ 0
      before z = g.kept k l (omega arith) (omega arith) ∙ z

      last : ip2.addrs ndirect ≡ a
      last =
          sym (direct ip2 d2)
          ∙ h.fixed ndirect (omega arith) (λ e. g.mapped_now (sym g.address ∙ e))
          ∙ g.address

      below : b < sb.size
      below =
          ground (arith, h.address, (h.mapped.range k l (λ e. h.mapped_now (sym h.address ∙ e))).1)

      table_differs : (c : ℕ) → in_use sb d c ≡ true → c ≢ ip.addrs ndirect → c ≢ a
      table_differs c u o e = elim (Bool-cases (slot ip.addrs d ndirect == 0)) [
        | inl none_yet ↦ absurd (ground (arith, ap (in_use sb d) e, g.was_free (ground arith)))
        | inr there ↦
            o (e ∙ sym g.address ∙ g.fixed ndirect (omega arith) (ground arith) ∙ direct ip d)
      ]

  -- At most one block is left: `bmap` may need two, of which the first becomes the indirect block.
  abbrev pub NearlyFull : Disk → Type 0
  NearlyFull d =
      (c e : ℕ) → c < sb.size → e < sb.size → in_use sb d c ≡ false → in_use sb d e ≡ false → c ≡ e

  abbrev pub BmapResult : ℕ → Inode → Disk → Option (ℕ × Inode × Disk) → Type 0
  BmapResult k ip d none = NearlyFull d
  BmapResult k ip d (some (a, ip', d')) = Grown sb nmeta k ip d a ip' d'

  Full-NearlyFull : (d : Disk) → Full sb nmeta d → NearlyFull d
  Full-NearlyFull d full c e l m u w = absurd (true-ne-false sb nmeta (sym (full c l) ∙ u))

  ne_of : {c e : ℕ} → (c == e) ≡ false → c ≢ e
  ne_of h = ground arith

  indirect_block-Grown :
      (bn : ℕ) (ip : Inode) (d : Disk)
      → bn < nindirect
      → IsMapped sb nmeta (slot ip.addrs d) d
      → IsSound sb nmeta d
      → BmapResult (13 + bn) ip d (indirect_block sb bn ip d)
  unfolding indirect_block
  indirect_block-Grown bn ip d l v s =
      go (slot_block sb ndirect ip d) (slot_block-Grown sb nmeta lay ndirect ip d (omega arith) v s)
    where
      only_table :
          {table : ℕ} {ip1 : Inode} {d1 : Disk}
          → Grown sb nmeta ndirect ip d table ip1 d1
          → ip1.addrs ndirect ≡ table
          → Full sb nmeta d1
          → (c : ℕ) → c < sb.size
          → in_use sb d c ≡ false
          → c ≡ table
      only_table {table} g same full c m u = elim (Bool-cases (c == table)) [
        | inl here ↦ ground arith
        | inr other ↦
            let still = g.spent c m u (ground arith) (λ e. ne_of other (e ∙ same)) in
            absurd (true-ne-false sb nmeta (sym (full c m) ∙ still))
      ]

      lift :
          (table : ℕ) (ip1 : Inode) (d1 : Disk) (r : Option (ℕ × Inode × Disk))
          → Grown sb nmeta ndirect ip d table ip1 d1
          → ip1.addrs ndirect ≡ table
          → GrowResult sb nmeta (13 + bn) ip1 d1 r
          → BmapResult (13 + bn) ip d r
      lift table ip1 d1 none g same full =
          λ c e l m u w. only_table g same full c l u ∙ sym (only_table g same full e m w)
      lift table ip1 d1 (some (b, ip2, d2)) g same h =
          Grown-trans (13 + bn) ip ip1 ip2 d d1 d2 table b (omega arith) (omega arith) g h

      go :
          (r : Option (ℕ × Inode × Disk))
          → GrowResult sb nmeta ndirect ip d r
          → BmapResult
              (13 + bn)
              ip
              d
              (elim r [ some (table, ip', d') ↦ table_block sb bn table ip' d' | none ↦ none ])
      go none full = Full-NearlyFull d full
      go (some (table, ip1, d1)) g =
          let same : ip1.addrs ndirect ≡ table =
            sym (slot_direct sb nmeta lay ndirect ip1.addrs d1 (omega arith)) ∙ g.address in
          let some_table : ip1.addrs ndirect ≢ 0 = λ e. g.mapped_now (sym same ∙ e) in
          lift table ip1 d1 (table_block sb bn table ip1 d1) g same (
            subst (λ t. GrowResult sb nmeta (13 + bn) ip1 d1 (table_block sb bn t ip1 d1)) same
              (table_block-Grown sb nmeta lay bn ip1 d1 l some_table g.mapped g.sound))

  -- `bmap` of a block that a file may have, for an inode whose blocks are different blocks in use on
  -- a sound disk. It returns the block of the file: the one that it has, or else a new one, which was
  -- free and is zeroed. It fails only if at most one block is free. All other blocks of the file stay,
  -- the blocks are still different and in use, and no other block in use changes its data, except
  -- that the indirect block of the inode may get an entry.
  pub bmap_lem :
      (bn : ℕ) (ip : Inode) (d : Disk)
      → bn < ndirect + nindirect
      → IsMapped sb nmeta (slot ip.addrs d) d
      → IsSound sb nmeta d
      → BmapResult (slot_of bn) ip d (bmap sb bn ip d)
  unfolding bmap
  bmap_lem bn ip d l v s = elim (Bool-cases (ltb bn ndirect)) [
    | inl direct ↦
        rw (direct, bmap)
          (relax bn (slot_block sb bn ip d)
            (slot_block-Grown sb nmeta lay bn ip d (ground arith) v s))
    | inr beyond ↦
        let small : ltb (bn - ndirect) nindirect ≡ true = ground arith in
        let index : 13 + (bn - ndirect) ≡ bn + 1 = ground arith in
        rw (beyond, small, bmap)
          (subst (λ k. BmapResult k ip d (indirect_block sb (bn - ndirect) ip d)) index
            (indirect_block-Grown (bn - ndirect) ip d (ground arith) v s))
  ]
    where
      relax :
          (k : ℕ) (r : Option (ℕ × Inode × Disk))
          → GrowResult sb nmeta k ip d r
          → BmapResult k ip d r
      relax k none full = Full-NearlyFull d full
      relax k (some (a, ip', d')) g = g
