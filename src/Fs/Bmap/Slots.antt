-- ===== src/Fs/Bmap/Slots.antt =====
-- The slots of an inode: its direct blocks, its indirect block, and the entries of that block.
use slab_study.Common.{
  ℕ, ◌+◌, ◌-◌, ◌<◌, ◌≤◌, ◌≡◌, ◌≢◌, inl, inr, refl, sym, ap, ◌∙◌, arith, Bool, true, false, ltb,
  ◌==◌, if◌then◌else◌, update, Bool-cases,
}
use slab_study.Fs.{Disk, Superblock, get_word}
use slab_study.Fs.Bitmap.{bblock}
use slab_study.Fs.Bitmap.Bits.{in_use}
use slab_study.Fs.Bitmap.Laws.{Layout, Allocated}
use slab_study.Fs.Bmap.{ndirect}

-- Slot 12 is the indirect block, and slot 13 + j the entry j of it.
abbrev pub nslots : ℕ
nslots = 141

unfoldable pub slot : (ℕ → ℕ) → Disk → ℕ → ℕ
slot addrs d k =
    if ltb k 13
    then addrs k
    else if addrs ndirect == 0
    then 0
    else get_word (d (addrs ndirect)) (k - 13)

-- The slot of the block `bn` of the file.
abbrev pub slot_of : ℕ → ℕ
slot_of bn = if ltb bn ndirect then bn else bn + 1

module _ (sb : Superblock) (nmeta : ℕ) where
  -- The slots `f` hold different blocks, which are in use and hold data.
  pub record IsMapped (f : ℕ → ℕ) (d : Disk) : Type 0 where
    pub range : (k : ℕ) → k < nslots → f k ≢ 0 → (nmeta ≤ f k) × (f k < sb.size)
    pub held : (k : ℕ) → k < nslots → f k ≢ 0 → in_use sb d (f k) ≡ true
    pub once : (k l : ℕ) → k < nslots → l < nslots → f k ≢ 0 → f k ≡ f l → k ≡ l

  pub true-ne-false : true ≢ false
  true-ne-false e = cc

  -- A block in use stays in use when another is allocated.
  pub stays_used :
      {d d' : Disk} {b : ℕ}
      → Allocated sb nmeta d d' b
      → (c : ℕ) → c < sb.size
      → in_use sb d c ≡ true
      → in_use sb d' c ≡ true
  stays_used {b = b} a c l used = a.bits c l ∙ either (b == c) used
    where
      either : (t : Bool) {u : Bool} → u ≡ true → (if t then true else u) ≡ true
      either true e = refl
      either false e = e

  -- The other blocks that are free stay free.
  pub stays_free :
      {d d' : Disk} {b : ℕ}
      → Allocated sb nmeta d d' b
      → (c : ℕ) → c < sb.size
      → in_use sb d c ≡ false
      → c ≢ b
      → in_use sb d' c ≡ false
  stays_free {b = b} a c l free n =
      let away : (b == c) ≡ false = ground arith in a.bits c l ∙ rw away free

  -- One more slot gets a block that was free.
  pub extend-IsMapped :
      (f f' : ℕ → ℕ) (d d' : Disk) (k b : ℕ)
      → 0 < nmeta
      → IsMapped f d
      → f' k ≡ b
      → ((j : ℕ) → j < nslots → j ≢ k → f' j ≡ f j)
      → Allocated sb nmeta d d' b
      → IsMapped f' d'
  extend-IsMapped f f' d d' k b positive v new old a = record {
    range = λ j l z. elim (Bool-cases (j == k)) [
      | inl here ↦ rw (at j here) (a.range)
      | inr away ↦ rw (old j l (ground arith)) (v.range j l (ground (arith, old j l)))
    ];
    held = λ j l z. elim (Bool-cases (j == k)) [
      | inl here ↦ ground (arith, a.bits b a.range.1, at j here)
      | inr away ↦
          let e = old j l (ground arith) in
          rw e (stays_used a (f j) (v.range j l (rw e at z)).1 (v.held j l (rw e at z)))
    ];
    once = λ i j li lj z e. elim (Bool-cases (i == k)) [
      | inl here ↦ elim (Bool-cases (j == k)) [
        | inl also ↦ ground arith
        | inr away ↦ absurd (
            taken j lj (λ q. z (e ∙ old j lj (ground arith) ∙ q))
              (sym (old j lj (ground arith)) ∙ sym e ∙ at i here))
      ]
      | inr there ↦ elim (Bool-cases (j == k)) [
        | inl also ↦ absurd (
            taken i li (λ q. z (old i li (ground arith) ∙ q))
              (sym (old i li (ground arith)) ∙ e ∙ at j also))
        | inr away ↦
            v.once i j li lj (ground (arith, old i li))
              (sym (old i li (ground arith)) ∙ e ∙ old j lj (ground arith))
      ]
    ];
  }
    where
      at : (j : ℕ) → (j == k) ≡ true → f' j ≡ b
      at j e = (let same : j ≡ k = ground arith in ap f' same) ∙ new

      taken : (j : ℕ) → j < nslots → f j ≢ 0 → f j ≢ b
      taken j l z e = true-ne-false (sym (v.held j l z) ∙ ap (in_use sb d) e ∙ a.was_free)

  -- A data block is not a block of the bitmap, so a write to it changes no bit.
  pub in_use-update :
      (d : Disk) (b c : ℕ) (v : ℕ → ℕ)
      → Layout sb nmeta
      → nmeta ≤ b
      → c < sb.size
      → in_use sb (update d b v) c ≡ in_use sb d c
  in_use-update d b c v lay m l =
      let away : (b == bblock sb c) ≡ false = ground (arith, lay.bitmap) in rw away refl
