-- ===== src/Log/Disk/Heads.antt =====
-- What `write_head` and `read_head` of xv6_lab3/log.c do to the header block.
use slab_study.Common.{
  ℕ, zero, suc, ◌+◌, ◌-◌, ◌≤◌, ◌<◌, ◌≡◌, ◌&&◌, ◌∙◌, inl, inr, refl, ap, arith, ltb, ◌==◌,
  if◌then◌else◌, update, Bool-cases,
}
use slab_study.Log.Disk.{
  Block, Header, Store, bwrite, put_blocks, get_blocks, write_head, read_head,
}
use slab_study.Log.Disk.Loops.{bwrite-disk}

-- The array that is written into the header block stands from word 1 on.
put_blocks_below :
    (from : ℕ → ℕ) (i n w : ℕ) (hb : Block) → w < i + 1 → put_blocks from i n hb w ≡ hb w
unfolding put_blocks
put_blocks_below from i zero w hb l = refl
put_blocks_below from i (suc n) w hb l =
    put_blocks_below from (i + 1) n w (update hb (i + 1) (from i)) (omega arith) ∙ ground arith

put_blocks_done :
    (from : ℕ → ℕ) (i n j : ℕ) (hb : Block)
    → i ≤ j
    → j < i + n
    → put_blocks from i n hb (j + 1) ≡ from j
unfolding put_blocks
put_blocks_done from i zero j hb p q = absurd (omega arith)
put_blocks_done from i (suc n) j hb p q = elim (Bool-cases (i == j)) [
  | inl here ↦
      put_blocks_below from (i + 1) n (j + 1) (update hb (i + 1) (from i)) (ground arith)
      ∙ (let same : i ≡ j = ground arith in ground (arith, ap from same))
  | inr later ↦
      put_blocks_done from (i + 1) n j (update hb (i + 1) (from i)) (ground arith) (omega arith)
]

get_blocks_below : (lh : Block) (i n j : ℕ) (to : ℕ → ℕ) → j < i → get_blocks lh i n to j ≡ to j
unfolding get_blocks
get_blocks_below lh i zero j to l = refl
get_blocks_below lh i (suc n) j to l =
    get_blocks_below lh (i + 1) n j (update to i (lh (i + 1))) (omega arith) ∙ ground arith

get_blocks_done :
    (lh : Block) (i n j : ℕ) (to : ℕ → ℕ) → i ≤ j → j < i + n → get_blocks lh i n to j ≡ lh (j + 1)
unfolding get_blocks
get_blocks_done lh i zero j to p q = absurd (omega arith)
get_blocks_done lh i (suc n) j to p q = elim (Bool-cases (i == j)) [
  | inl here ↦
      get_blocks_below lh (i + 1) n j (update to i (lh (i + 1))) (ground arith)
      ∙ (let same : i ≡ j = ground arith in ground (arith, ap (λ x. lh (x + 1)) same))
  | inr later ↦
      get_blocks_done lh (i + 1) n j (update to i (lh (i + 1))) (ground arith) (omega arith)
]

-- The block that `write_head` writes.
abbrev pub head_block : Header → Block → Block
head_block h old = put_blocks h.block 0 h.n (update old 0 h.n)

pub head_block-n : (h : Header) (old : Block) → head_block h old 0 ≡ h.n
head_block-n h old =
    put_blocks_below h.block 0 h.n 0 (update old 0 h.n) (omega arith) ∙ ground arith

pub head_block-block :
    (h : Header) (old : Block) (j : ℕ) → j < h.n → head_block h old (j + 1) ≡ h.block j
head_block-block h old j l =
    put_blocks_done h.block 0 h.n j (update old 0 h.n) (omega arith) (omega arith)

module _ (start : ℕ) where
  pub write_head-disk :
      (s : Store) (b : ℕ)
      → (write_head start s).disk b
        ≡ (if (start == b) && ltb 0 s.power then head_block s.lh (s.mem start) else s.disk b)
  unfolding write_head
  write_head-disk s b = bwrite-disk start (head_block s.lh (s.mem start)) s b

  pub write_head_state :
      (s : Store)
      → ((write_head start s).lh ≡ s.lh)
        × ((write_head start s).power ≡ s.power - 1)
        × ((b : ℕ)
            → (write_head start s).mem b
              ≡ (if start == b then head_block s.lh (s.mem start) else s.mem b))
  unfolding write_head bwrite
  write_head_state s = (refl, refl, λ b. refl)

  pub read_head_state :
      (s : Store)
      → ((read_head start s).lh.n ≡ s.mem start 0)
        × ((j : ℕ) → j < s.mem start 0 → (read_head start s).lh.block j ≡ s.mem start (j + 1))
        × ((read_head start s).disk ≡ s.disk)
        × ((read_head start s).mem ≡ s.mem)
        × ((read_head start s).power ≡ s.power)
  unfolding read_head
  read_head_state s = (
    refl,
    λ j l. get_blocks_done (s.mem start) 0 (s.mem start 0) j s.lh.block (omega arith) (omega arith),
    refl,
    refl,
    refl,
  )
