-- ===== src/Log/Disk/Loops.antt =====
-- What the loops of xv6_lab3/log.c leave on the disk, in the cache and in the header, when the
-- writes stop after `power` of them.
use slab_study.Common.{
  ℕ, zero, suc, ◌+◌, ◌-◌, ◌≤◌, ◌<◌, ◌≡◌, ◌≢◌, ◌⊎◌, ◌&&◌, ◌∙◌, inl, inr, refl, arith, ltb, ◌==◌,
  if◌then◌else◌, Bool-cases,
}
use slab_study.Log.Disk.{Block, Header, Store, poke, bwrite, install, log_blocks}

pub bwrite-disk :
    (b : ℕ) (v : Block) (s : Store) (c : ℕ)
    → (bwrite b v s).disk c ≡ (if (b == c) && ltb 0 s.power then v else s.disk c)
unfolding bwrite
bwrite-disk b v s c = poked s.power
  where
    poked : (p : ℕ) → poke p s.disk b v c ≡ (if (b == c) && ltb 0 p then v else s.disk c)
    poked zero = ground arith
    poked (suc p) = ground arith

pub bwrite-mem :
    (b : ℕ) (v : Block) (s : Store) (c : ℕ) → (bwrite b v s).mem c ≡ (if b == c then v else s.mem c)
unfolding bwrite
bwrite-mem b v s c = refl

-- A block of the file system, outside the log area.
abbrev pub IsHome : ℕ → ℕ → ℕ → Type 0
IsHome start size b = (b < start) ⊎ (start + size ≤ b)

-- A header that fits the log area, whose blocks are different blocks of the file system.
pub record IsSane (start size : ℕ) (h : Header) : Type 0 where
  pub few : h.n < size
  pub home : (j : ℕ) → j < h.n → IsHome start size (h.block j)
  pub distinct : (i j : ℕ) → i < h.n → j < h.n → h.block i ≡ h.block j → i ≡ j

module _ (start : ℕ) where
  pub install_state :
      (i n : ℕ) (s : Store)
      → ((install start i n s).lh ≡ s.lh) × ((install start i n s).power ≡ s.power - n)
  unfolding install bwrite
  install_state i zero s = (refl, omega arith)
  install_state i (suc n) s =
      let r = install_state (i + 1) n (bwrite (s.lh.block i) (s.mem (start + i + 1)) s) in
      (r.0, omega (arith, r.1))

  -- Without power no block of the disk changes.
  pub install_frozen :
      (i n b : ℕ) (s : Store) → s.power ≡ 0 → (install start i n s).disk b ≡ s.disk b
  unfolding install bwrite
  install_frozen i zero b s e = refl
  install_frozen i (suc n) b s e =
      let v = s.mem (start + i + 1) in
      install_frozen (i + 1) n b (bwrite (s.lh.block i) v s) (omega arith)
      ∙ ground (arith, bwrite-disk (s.lh.block i) v s b)

  -- A block that the loop does not install stays.
  pub install_frame :
      (i n b : ℕ) (s : Store)
      → ((j : ℕ) → i ≤ j → j < i + n → s.lh.block j ≢ b)
      → ((install start i n s).disk b ≡ s.disk b) × ((install start i n s).mem b ≡ s.mem b)
  unfolding install bwrite
  install_frame i zero b s d = (refl, refl)
  install_frame i (suc n) b s d =
      let v = s.mem (start + i + 1) in
      let s1 = bwrite (s.lh.block i) v s in
      let r = install_frame (i + 1) n b s1 (λ j p q. d j (omega arith) (omega arith)) in
      let other = d i (omega arith) (omega arith) in
      (
        r.0 ∙ ground (arith, bwrite-disk (s.lh.block i) v s b),
        r.1 ∙ ground (arith, bwrite-mem (s.lh.block i) v s b),
      )

  -- A block that the loop installs gets the data of its log block, while there is power.
  pub install_done :
      (size i n j : ℕ) (s : Store)
      → IsSane start size s.lh
      → i ≤ j
      → j < i + n
      → i + n ≤ s.lh.n
      → ((install start i n s).mem (s.lh.block j) ≡ s.mem (start + j + 1))
        × ((install start i n s).disk (s.lh.block j)
            ≡ (if ltb (j - i) s.power then s.mem (start + j + 1) else s.disk (s.lh.block j)))
  unfolding install bwrite
  install_done size i zero j s sane p q e = absurd (omega arith)
  install_done size i (suc n) j s sane p q e = elim (Bool-cases (i == j)) [
    | inl here ↦
        let same : j ≡ i = ground arith in
        let r =
          install_frame (i + 1) n (s.lh.block i) s1
            (λ k a b c. absurd (ground (arith, sane.distinct k i (omega arith) (omega arith) c))) in
        rw same (
          r.1 ∙ ground (arith, bwrite-mem (s.lh.block i) v s (s.lh.block i)),
          r.0 ∙ ground (arith, bwrite-disk (s.lh.block i) v s (s.lh.block i)),
        )
    | inr later ↦
        let apart : i ≢ j = ground arith in
        let r = install_done size (i + 1) n j s1 sane (omega arith) (omega arith) (omega arith) in
        let kept : s1.mem (start + j + 1) ≡ s.mem (start + j + 1) =
          ground (arith, bwrite-mem (s.lh.block i) v s (start + j + 1), sane.home i, sane.few) in
        let other : s.lh.block i ≢ s.lh.block j =
          λ c. apart (sane.distinct i j (omega arith) (omega arith) c) in
        (
          r.0 ∙ kept,
          r.1 ∙ ground (arith, kept, other, bwrite-disk (s.lh.block i) v s (s.lh.block j)),
        )
  ]
    where
      v : Block
      v = s.mem (start + i + 1)

      s1 : Store
      s1 = bwrite (s.lh.block i) v s

  pub log_blocks_state :
      (i n : ℕ) (s : Store)
      → ((log_blocks start i n s).lh ≡ s.lh) × ((log_blocks start i n s).power ≡ s.power - n)
  unfolding log_blocks bwrite
  log_blocks_state i zero s = (refl, omega arith)
  log_blocks_state i (suc n) s =
      let r = log_blocks_state (i + 1) n (bwrite (start + i + 1) (s.mem (s.lh.block i)) s) in
      (r.0, omega (arith, r.1))

  -- Nothing outside the log blocks of the loop changes.
  pub log_blocks_frame :
      (i n b : ℕ) (s : Store)
      → (b < start + i + 1) ⊎ (start + i + n < b)
      → ((log_blocks start i n s).disk b ≡ s.disk b) × ((log_blocks start i n s).mem b ≡ s.mem b)
  unfolding log_blocks bwrite
  log_blocks_frame i zero b s d = (refl, refl)
  log_blocks_frame i (suc n) b s d =
      let v = s.mem (s.lh.block i) in
      let r = log_blocks_frame (i + 1) n b (bwrite (start + i + 1) v s) (beyond d) in
      (
        r.0 ∙ ground (arith, bwrite-disk (start + i + 1) v s b),
        r.1 ∙ ground (arith, bwrite-mem (start + i + 1) v s b),
      )
    where
      beyond :
          (b < start + i + 1) ⊎ (start + i + suc n < b)
          → (b < start + (i + 1) + 1) ⊎ (start + (i + 1) + n < b)
      beyond (inl l) = inl (omega arith)
      beyond (inr l) = inr (omega arith)

  -- A log block of the loop gets the data of its block in the cache, while there is power.
  pub log_blocks_done :
      (size i n j : ℕ) (s : Store)
      → IsSane start size s.lh
      → i ≤ j
      → j < i + n
      → i + n ≤ s.lh.n
      → ((log_blocks start i n s).mem (start + j + 1) ≡ s.mem (s.lh.block j))
        × ((log_blocks start i n s).disk (start + j + 1)
            ≡ (if ltb (j - i) s.power then s.mem (s.lh.block j) else s.disk (start + j + 1)))
  unfolding log_blocks bwrite
  log_blocks_done size i zero j s sane p q e = absurd (omega arith)
  log_blocks_done size i (suc n) j s sane p q e = elim (Bool-cases (i == j)) [
    | inl here ↦
        let same : j ≡ i = ground arith in
        let r = log_blocks_frame (i + 1) n (start + i + 1) s1 (inl (omega arith)) in
        rw same (
          r.1 ∙ ground (arith, bwrite-mem (start + i + 1) v s (start + i + 1)),
          r.0 ∙ ground (arith, bwrite-disk (start + i + 1) v s (start + i + 1)),
        )
    | inr later ↦
        let r =
          log_blocks_done size (i + 1) n j s1 sane (ground arith) (omega arith) (omega arith) in
        let kept : s1.mem (s.lh.block j) ≡ s.mem (s.lh.block j) =
          ground (arith, bwrite-mem (start + i + 1) v s (s.lh.block j), sane.home j, sane.few) in
        (r.0 ∙ kept, r.1 ∙ ground (arith, kept, bwrite-disk (start + i + 1) v s (start + j + 1)))
  ]
    where
      v : Block
      v = s.mem (s.lh.block i)

      s1 : Store
      s1 = bwrite (start + i + 1) v s
