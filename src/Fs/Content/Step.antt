-- ===== src/Fs/Content/Step.antt =====
-- A stretch of a write: what it changes, and two stretches one behind the other.
use slab_study.Common.{
  ℕ, ◌+◌, ◌-◌, ◌/◌, ◌%◌, ◌<◌, ◌≤◌, ◌≡◌, ◌≢◌, ◌⊎◌, inl, inr, refl, sym, ap, ◌∙◌, arith, true, false,
  ltb, leb, ◌==◌, ◌&&◌, update, Bool-cases,
}
use slab_study.Fs.{Disk, Superblock, bsize, get_word}
use slab_study.Fs.Bitmap.Bits.{in_use}
use slab_study.Fs.Bitmap.Laws.{Layout, IsSound}
use slab_study.Fs.Bmap.{Inode, ndirect}
use slab_study.Fs.Bmap.Slots.{nslots, slot, slot_of, IsMapped, in_use-update}
use slab_study.Fs.Bmap.Grow.{Grown, slot_direct}
use slab_study.Fs.Bmap.Table.{IsMapped-update, IsMapped-same, IsSound-update}
use slab_study.Fs.Content.{max_size, paste}
use slab_study.Fs.Content.Read.{content, same_block}

slot_of-injective : (x y : ℕ) → slot_of x ≡ slot_of y → x ≡ y
slot_of-injective x y e = ground arith

module _ (sb : Superblock) (nmeta : ℕ) where
  -- The bytes `src` stand at the offsets from `off` on, `m` of them.
  pub record Wrote (off m : ℕ) (src : ℕ → ℕ) (ip : Inode) (d : Disk) (ip' : Inode) (d' : Disk)
      : Type 0 where
    pub new : (i : ℕ) → i < m → content ip' d' (off + i) ≡ src i
    pub filled : (i : ℕ) → i < m → slot ip'.addrs d' (slot_of ((off + i) / bsize)) ≢ 0
    pub old :
        (k : ℕ)
        → k < max_size
        → slot ip.addrs d (slot_of (k / bsize)) ≢ 0
        → (k < off) ⊎ (off + m ≤ k)
        → content ip' d' k ≡ content ip d k
    pub fixed :
        (j : ℕ) → j < nslots → slot ip.addrs d j ≢ 0 → slot ip'.addrs d' j ≡ slot ip.addrs d j
    pub owned :
        (j : ℕ)
        → j < nslots
        → slot ip'.addrs d' j ≢ 0
        → (slot ip'.addrs d' j ≡ slot ip.addrs d j) ⊎ (in_use sb d (slot ip'.addrs d' j) ≡ false)
    pub bits : (c : ℕ) → c < sb.size → in_use sb d c ≡ true → in_use sb d' c ≡ true
    pub others :
        (c : ℕ)
        → nmeta ≤ c
        → c < sb.size
        → in_use sb d c ≡ true
        → ((j : ℕ) → j < nslots → slot ip.addrs d j ≢ c)
        → d' c ≡ d c
    pub mapped : IsMapped sb nmeta (slot ip'.addrs d') d'
    pub sound : IsSound sb nmeta d'
    pub fields : ip' ≡ record ip { addrs = ip'.addrs }

  -- The stretch that one block takes, once `bmap` has returned the block `a`.
  module _ (lay : Layout sb nmeta) (off m : ℕ) (src : ℕ → ℕ) (ip : Inode) (d : Disk) (a : ℕ)
      (ip1 : Inode) (d1 : Disk) (g : Grown sb nmeta (slot_of (off / bsize)) ip d a ip1 d1)
      (v : IsMapped sb nmeta (slot ip.addrs d) d) (fits : off + m ≤ max_size)
      (one : off % bsize + m ≤ bsize) (some_bytes : 0 < m)
      (small : (i : ℕ) → i < m → src i < 256) where
    abbrev here : ℕ
    here = slot_of (off / bsize)

    here_in : (here < nslots) × (here ≢ ndirect)
    here_in = (ground arith, ground arith)

    abbrev d2 : Disk
    d2 = update d1 a (paste (off % bsize) m src (d1 a))

    data_block : nmeta ≤ a
    data_block = ground (
      arith,
      g.address,
      (g.mapped.range here here_in.0 (λ e. g.mapped_now (sym g.address ∙ e))).0,
    )

    -- A slot other than this one holds another block.
    other_block : (j : ℕ) → j < nslots → j ≢ here → slot ip1.addrs d1 j ≢ a
    other_block j l n e =
        n (g.mapped.once j here l here_in.0 (λ z. g.mapped_now (sym e ∙ z)) (e ∙ sym g.address))

    d2_other : (c : ℕ) → c ≢ a → d2 c ≡ d1 c
    d2_other c n = let away : (a == c) ≡ false = ground arith in rw away refl

    -- The write is into a data block, so no slot changes.
    slots_stay : (j : ℕ) → slot ip1.addrs d2 j ≡ slot ip1.addrs d1 j
    unfolding slot
    slots_stay j = elim (Bool-cases (ltb j 13)) [
      | inl direct ↦ rw direct refl
      | inr far ↦ rw far (elim (Bool-cases (ip1.addrs ndirect == 0)) [
        | inl nothing ↦ rw nothing refl
        | inr table ↦ rw table (
            ap (λ b. get_word b (j - 13))
              (d2_other (ip1.addrs ndirect) (λ e.
                other_block ndirect (omega arith) (λ q. here_in.1 (sym q))
                  (slot_direct sb nmeta lay ndirect ip1.addrs d1 (omega arith) ∙ e))))
      ])
    ]

    block_address : slot ip1.addrs d2 here ≡ a
    block_address = slots_stay here ∙ g.address

    -- The data of a block that the file had.
    data_same :
        (q : ℕ)
        → q < nslots
        → q ≢ ndirect
        → slot ip.addrs d q ≢ 0
        → d1 (slot ip.addrs d q) ≡ d (slot ip.addrs d q)
    data_same q l n z =
        g.others (slot ip.addrs d q) (v.range q l z).0 (v.range q l z).1 (v.held q l z) (λ e. n (
          v.once q ndirect l (omega arith) z
            (e ∙ sym (slot_direct sb nmeta lay ndirect ip.addrs d (omega arith)))))

    pasted :
        (x : ℕ)
        → (x < off % bsize) ⊎ (off % bsize + m ≤ x)
        → paste (off % bsize) m src (d1 a) x ≡ d1 a x
    unfolding paste
    pasted x (inl l) = ground arith
    pasted x (inr l) = ground arith

    pasted_new : (i : ℕ) → i < m → paste (off % bsize) m src (d1 a) (off % bsize + i) ≡ src i
    unfolding paste
    pasted_new i l =
        let inside : (leb (off % bsize) (off % bsize + i)
              && ltb (off % bsize + i) (off % bsize + m))
            ≡ true =
          ground arith in
        let index : off % bsize + i - off % bsize ≡ i = omega arith in rw (inside, index) refl

    pasted_small : (x : ℕ) → paste (off % bsize) m src (d1 a) x < 256
    unfolding paste
    pasted_small x = elim (Bool-cases (leb (off % bsize) x && ltb x (off % bsize + m))) [
      | inl inside ↦ rw inside (small (x - off % bsize) (ground arith))
      | inr out ↦ rw out (g.sound.bytes a x)
    ]

    written : d2 a ≡ paste (off % bsize) m src (d1 a)
    written = ground arith

    outside :
        (k : ℕ)
        → k / bsize ≡ off / bsize
        → (k < off) ⊎ (off + m ≤ k)
        → (k % bsize < off % bsize) ⊎ (off % bsize + m ≤ k % bsize)
    outside k e (inl l) = inl (omega arith)
    outside k e (inr l) = inr (omega arith)

    old_bytes :
        (k : ℕ)
        → k < max_size
        → slot ip.addrs d (slot_of (k / bsize)) ≢ 0
        → (k < off) ⊎ (off + m ≤ k)
        → content ip1 d2 k ≡ content ip d k
    old_bytes k l z o =
        let q = slot_of (k / bsize) in
        let inside : (q < nslots) × (q ≢ ndirect) = (ground arith, ground arith) in
        let same = slots_stay q ∙ g.fixed q inside.0 z in
        elim (Bool-cases (q == here)) [
          | inl ours ↦
              let is_here : q ≡ here = ground arith in
              let it : slot ip.addrs d q ≡ a =
                sym same ∙ ap (slot ip1.addrs d2) is_here ∙ block_address in
              ap (λ b. d2 b (k % bsize)) (same ∙ it)
              ∙ ap (λ b. b (k % bsize)) written
              ∙ pasted (k % bsize)
                  (outside k (slot_of-injective (k / bsize) (off / bsize) is_here) o)
              ∙ ap (λ b. d1 b (k % bsize)) (sym it)
              ∙ ap (λ b. b (k % bsize)) (data_same q inside.0 inside.1 z)
          | inr apart ↦
              let away : slot ip.addrs d q ≢ a =
                λ e. other_block q inside.0 (ground arith) (g.fixed q inside.0 z ∙ e) in
              ap (λ b. d2 b (k % bsize)) same
              ∙ ap (λ b. b (k % bsize)) (d2_other (slot ip.addrs d q) away)
              ∙ ap (λ b. b (k % bsize)) (data_same q inside.0 inside.1 z)
        ]

    own_block : (slot ip1.addrs d1 here ≡ slot ip.addrs d here) ⊎ (in_use sb d a ≡ false)
    own_block = elim (g.owned here here_in.0 (λ z. g.mapped_now (sym g.address ∙ z))) [
      | inl e ↦ inl e
      | inr e ↦ inr (ap (in_use sb d) (sym g.address) ∙ e)
    ]

    foreign :
        (c : ℕ) → in_use sb d c ≡ true → ((j : ℕ) → j < nslots → slot ip.addrs d j ≢ c) → c ≢ a
    foreign c used n e = elim own_block [
      | inl old ↦ n here here_in.0 (sym old ∙ g.address ∙ sym e)
      | inr free ↦ ground (arith, ap (in_use sb d) e)
    ]

    pub stretch-Wrote : Wrote off m src ip d ip1 d2
    stretch-Wrote = record {
      new = λ i l.
          let (block, index) = same_block sb ip d off i (omega (arith, one, l)) in
          rw (block, index)
            (ap (λ b. d2 b (off % bsize + i)) block_address
              ∙ ap (λ b. b (off % bsize + i)) written
              ∙ pasted_new i l);
      filled = λ i l.
          let (block, index) = same_block sb ip d off i (omega (arith, one, l)) in
          rw block (λ z. g.mapped_now (sym block_address ∙ z));
      old = old_bytes;
      fixed = λ j l z. slots_stay j ∙ g.fixed j l z;
      owned = λ j l z. elim (g.owned j l (λ e. z (slots_stay j ∙ e))) [
        | inl e ↦ inl (slots_stay j ∙ e)
        | inr e ↦ inr (ap (in_use sb d) (slots_stay j) ∙ e)
      ];
      bits = λ c l u. in_use-update sb nmeta d1 a c _ lay data_block l ∙ g.bits c l u;
      others = λ c n l u f.
          d2_other c (foreign c u f)
          ∙ g.others c n l u (λ e.
            f ndirect (omega arith)
              (slot_direct sb nmeta lay ndirect ip.addrs d (omega arith) ∙ sym e));
      mapped =
          IsMapped-same sb nmeta lay (slot ip1.addrs d1) (slot ip1.addrs d2) d2 slots_stay
            (IsMapped-update sb nmeta lay (slot ip1.addrs d1) d1 a _ data_block g.mapped);
      sound = IsSound-update sb nmeta lay d1 a _ data_block pasted_small g.sound;
      fields = g.fields;
    }
