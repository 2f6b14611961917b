-- ===== src/Fs/Bitmap/Bits.antt =====
-- The bits of the bitmap: what the scan finds, and a change of one bit.
use Prim.Native.Nat.{min}
use mathlib.Core.Option.{some-injective}
use mathlib.Core.Path.{subst}
use slab_study.Common.{
  ℕ, zero, suc, ◌+◌, ◌-◌, ◌*◌, ◌/◌, ◌%◌, ◌<◌, ◌≤◌, ◌≡◌, ◌≢◌, inl, inr, refl, ap, ◌∙◌, arith, Bool,
  true, false, some, none, not, ◌==◌, ltb, if◌then◌else◌, find_index, find_index-some,
  find_index-none, Bool-cases, Option-cases,
}
use slab_study.Fs.{Disk, Superblock, bpb, put_byte}
use slab_study.Fs.Bytes.{bit, bit-set}
use slab_study.Fs.Bitmap.{bblock, is_free, scan, mark}

module _ (sb : Superblock) where
  -- The bitmap says that block `b` is in use.
  abbrev pub in_use : Disk → ℕ → Bool
  in_use d b = bit (d (bblock sb b) (b % bpb / 8)) (b % bpb % 8)

  -- A block that holds a part of the bitmap.
  abbrev pub IsBitmap : ℕ → Type 0
  IsBitmap b = (sb.bmapstart ≤ b) × (b < sb.bmapstart + (sb.size + (bpb - 1)) / bpb)

  pub some-ne-none : (x : ℕ) → some x ≢ none
  some-ne-none x e = cc

  pub put_byte-small :
      (b i v : ℕ) (d : Disk)
      → ((a j : ℕ) → d a j < 256)
      → v < 256
      → (a j : ℕ) → put_byte b i v d a j < 256
  put_byte-small b i v d small l a j = elim (Bool-cases (b == a)) [
    | inr away ↦ rw away (small a j)
    | inl block ↦
        rw block
          (elim (Bool-cases (i == j)) [ inl byte ↦ rw byte l | inr other ↦ rw other (small b j) ])
  ]

  pub is_free_at :
      (d : Disk) (b bi : ℕ)
      → b % bpb ≡ 0
      → bi < bpb
      → is_free sb d (bblock sb b) bi ≡ not (in_use d (b + bi))
  is_free_at d b bi z l =
      let block : (b + bi) / bpb ≡ b / bpb = omega arith in
      let index : (b + bi) % bpb ≡ bi = omega arith in
      rw (block, index) (double (is_free sb d (bblock sb b) bi))
    where
      double : (t : Bool) → t ≡ not (not t)
      double true = refl
      double false = refl

  -- What the scan finds, from a block with the first bit of a bitmap block on.
  pub scan-some :
      (d : Disk) (n b x : ℕ)
      → b % bpb ≡ 0
      → scan sb d b n ≡ some x
      → (x < sb.size) × (in_use d x ≡ false)
  unfolding scan
  scan-some d zero b x z e = cc
  scan-some d (suc n) b x z e =
      let test = is_free sb d (bblock sb b) in
      elim (Option-cases (find_index test 0 (min bpb (sb.size - b)))) [
        | inl nothing ↦ scan-some d n (b + bpb) x (omega arith) (rw (nothing, scan) at e)
        | inr (bi, found) ↦
            let w = find_index-some test 0 (min bpb (sb.size - b)) found in
            let same : b + bi ≡ x = some-injective _ _ (rw (found, scan) at e) in
            let small : bi < bpb = omega (arith, w.below) in
            (
              omega (arith, w.below, same),
              subst (λ y. in_use d y ≡ false) same
                  (ground (arith, is_free_at d b bi z small, w.hit)),
            )
      ]

  pub scan-none :
      (d : Disk) (n b x : ℕ)
      → b % bpb ≡ 0
      → scan sb d b n ≡ none
      → b ≤ x
      → x < b + n * bpb
      → x < sb.size
      → in_use d x ≡ true
  unfolding scan
  scan-none d zero b x z e p q l = absurd (omega arith)
  scan-none d (suc n) b x z e p q l =
      let test = is_free sb d (bblock sb b) in
      elim (Option-cases (find_index test 0 (min bpb (sb.size - b)))) [
        | inr (bi, found) ↦ absurd (some-ne-none (b + bi) (rw (found, scan) at e))
        | inl nothing ↦ elim (Bool-cases (ltb x (b + bpb))) [
          | inl here ↦
              let f =
                find_index-none test 0 (min bpb (sb.size - b)) nothing (x - b) (omega arith)
                  (ground arith) in
              let same : b + (x - b) ≡ x = omega arith in
              subst (λ y. in_use d y ≡ true) same
                (ground (arith, is_free_at d b (x - b) z (ground arith), f))
          | inr further ↦
              scan-none d n (b + bpb) x (omega arith) (rw (nothing, scan) at e) (ground arith)
                (omega arith) l
        ]
      ]

  -- The bitmap after a change of one bit, that of `b`: the bytes `old` and `new` differ in it only.
  pub one_bit :
      (d : Disk) (b c v : ℕ) (t : Bool)
      → ((j : ℕ)
          → j < 8
          → bit v j ≡ (if j == b % bpb % 8 then t else bit (d (bblock sb b) (b % bpb / 8)) j))
      → in_use (put_byte (bblock sb b) (b % bpb / 8) v d) c ≡ (if b == c then t else in_use d c)
  one_bit d b c v t h = elim (Bool-cases (bblock sb b == bblock sb c)) [
    | inr apart ↦ let other : (b == c) ≡ false = ground arith in rw (apart, other) refl
    | inl block ↦ rw block (elim (Bool-cases (b % bpb / 8 == c % bpb / 8)) [
      | inr apart ↦
          let other : (b == c) ≡ false = ground arith in
          let same : d (bblock sb b) ≡ d (bblock sb c) = ap d (ground arith) in
          rw (apart, other) (ap (λ a. bit (a (c % bpb / 8)) (c % bpb % 8)) same)
      | inl byte ↦ rw byte (h (c % bpb % 8) (omega arith) ∙ agree (ground arith) (ground arith))
    ])
  ]
    where
      agree :
          bblock sb b ≡ bblock sb c
          → b % bpb / 8 ≡ c % bpb / 8
          → (if c % bpb % 8 == b % bpb % 8
              then t
              else bit (d (bblock sb b) (b % bpb / 8)) (c % bpb % 8))
            ≡ (if b == c then t else in_use d c)
      agree block byte = elim (Bool-cases (b == c)) [
        | inl same ↦
            let low : (c % bpb % 8 == b % bpb % 8) ≡ true = ground arith in rw (same, low) refl
        | inr other ↦
            let low : (c % bpb % 8 == b % bpb % 8) ≡ false = ground arith in
            rw (other, low)
              (ap (λ a. bit (d a (b % bpb / 8)) (c % bpb % 8)) block
                ∙ ap (λ i. bit (d (bblock sb c) i) (c % bpb % 8)) byte)
      ]

  pub mark-in_use :
      (b c : ℕ) (d : Disk)
      → ((a i : ℕ) → d a i < 256)
      → in_use (mark sb b d) c ≡ (if b == c then true else in_use d c)
  unfolding mark
  mark-in_use b c d small =
      one_bit d b c _ true
        (λ j l. bit-set (d (bblock sb b) (b % bpb / 8)) (b % bpb % 8) j (small _ _) (omega arith) l)
