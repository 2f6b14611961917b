-- ===== src/Fs/Bitmap/Laws.antt =====
-- What `balloc` and `bfree` do to the set of blocks in use.
use Prim.Native.Nat.{bit_and}
use slab_study.Common.{
  ℕ, ◌+◌, ◌-◌, ◌/◌, ◌%◌, ◌^◌, ◌<◌, ◌≤◌, ◌≡◌, ◌≢◌, ◌⊎◌, inl, inr, refl, ap, ◌∙◌, arith, true, false,
  Option, some, none, not, ◌==◌, ltb, if◌then◌else◌, Bool-cases, Option-cases,
}
use slab_study.Fs.{Disk, Superblock, bpb, put_byte, bzero}
use slab_study.Fs.Bytes.{bit-clear, byte_range}
use slab_study.Fs.Bitmap.{bblock, is_free, scan, mark, balloc, bfree}
use slab_study.Fs.Bitmap.Bits.{in_use, scan-some, scan-none, one_bit, mark-in_use, put_byte-small}

module _ (sb : Superblock) where
  -- The layout of the disk: the bitmap lies below the first `nmeta` blocks, which hold no data.
  pub record Layout (nmeta : ℕ) : Type 0 where
    pub bitmap : sb.bmapstart + (sb.size + (bpb - 1)) / bpb ≤ nmeta
    pub within : nmeta ≤ sb.size
    pub boot : 0 < nmeta
    pub word : sb.size < 2 ^ 32

  -- Every block that holds no data is in use.
  pub record IsSound (nmeta : ℕ) (d : Disk) : Type 0 where
    pub bytes : (a i : ℕ) → d a i < 256
    pub reserved : (b : ℕ) → b < nmeta → in_use sb d b ≡ true

  -- The block `b` that `balloc` hands out.
  pub record Allocated (nmeta : ℕ) (d d' : Disk) (b : ℕ) : Type 0 where
    pub range : (nmeta ≤ b) × (b < sb.size)
    pub was_free : in_use sb d b ≡ false
    pub bits : (c : ℕ) → c < sb.size → in_use sb d' c ≡ (if b == c then true else in_use sb d c)
    pub zeroed : (i : ℕ) → d' b i ≡ 0
    pub rest : (c : ℕ) → nmeta ≤ c → c ≢ b → d' c ≡ d c
    pub sound : IsSound nmeta d'

  abbrev pub BallocResult : ℕ → Disk → Option (ℕ × Disk) → Type 0
  BallocResult nmeta d none = (c : ℕ) → c < sb.size → in_use sb d c ≡ true
  BallocResult nmeta d (some (b, d')) = Allocated nmeta d d' b

  module _ (nmeta : ℕ) (lay : Layout nmeta) where
    bzero-mark-Allocated :
        (b : ℕ) (d : Disk)
        → IsSound nmeta d
        → b < sb.size
        → in_use sb d b ≡ false
        → Allocated nmeta d (bzero b (mark sb b d)) b
    unfolding mark bzero
    bzero-mark-Allocated b d s l free = record {
      range = (above, l);
      was_free = free;
      bits = bits;
      zeroed = λ i. ground arith;
      rest = λ c m other.
          let block : (bblock sb b == c) ≡ false = ground (arith, lay.bitmap) in
          let away : (b == c) ≡ false = ground arith in rw (away, block) refl;
      sound = record {
        bytes = λ a i. bytes a i (Bool-cases (b == a));
        reserved = λ c m. bits c (omega (arith, lay.within)) ∙ ground (arith, s.reserved c m);
      };
    }
      where
        above : nmeta ≤ b
        above = elim (Bool-cases (ltb b nmeta)) [
          | inl low ↦ absurd (ground (arith, s.reserved b))
          | inr high ↦ ground arith
        ]

        bits :
            (c : ℕ)
            → c < sb.size
            → in_use sb (bzero b (mark sb b d)) c ≡ (if b == c then true else in_use sb d c)
        bits c m =
            let away : (b == bblock sb c) ≡ false = ground (arith, lay.bitmap, above) in
            rw (away, bzero) (mark-in_use sb b c d s.bytes)

        bytes : (a i : ℕ) → ((b == a) ≡ true) ⊎ ((b == a) ≡ false) → bzero b (mark sb b d) a i < 256
        bytes a i (inl here) = rw here (omega arith)
        bytes a i (inr there) = rw there (
            put_byte-small sb (bblock sb b) (b % bpb / 8) _ d s.bytes
              (byte_range _ (b % bpb % 8) (s.bytes _ _) (omega arith)).0 a i)

    -- `balloc` of a sound disk hands out a block that was free and holds data: it is in use now and
    -- zeroed, and no other block that holds data and no other bit of the bitmap changes. It panics
    -- exactly when every block is in use.
    pub balloc_lem : (d : Disk) → IsSound nmeta d → BallocResult nmeta d (balloc sb d)
    unfolding balloc
    balloc_lem d s = elim (Option-cases (scan sb d 0 ((sb.size + (bpb - 1)) / bpb))) [
      | inl full ↦
          rw (full, balloc)
            (λ c l.
              scan-none sb d ((sb.size + (bpb - 1)) / bpb) 0 c refl full (omega arith) (omega arith)
                l)
      | inr (b, found) ↦
          let (l, free) = scan-some sb d ((sb.size + (bpb - 1)) / bpb) 0 b refl found in
          rw (found, balloc) (bzero-mark-Allocated b d s l free)
    ]

  -- The disk once `bfree` has given up the block `b`.
  pub record Freed (nmeta : ℕ) (d d' : Disk) (b : ℕ) : Type 0 where
    pub bits : (c : ℕ) → in_use sb d' c ≡ (if b == c then false else in_use sb d c)
    pub rest : (c : ℕ) → nmeta ≤ c → d' c ≡ d c
    pub sound : IsSound nmeta d'

  abbrev pub BfreeResult : ℕ → Disk → ℕ → Option Disk → Type 0
  BfreeResult nmeta d b none = in_use sb d b ≡ false
  BfreeResult nmeta d b (some d') = (in_use sb d b ≡ true) × Freed nmeta d d' b

  module _ (nmeta : ℕ) (lay : Layout nmeta) where
    -- `bfree` of a block that holds data, on a sound disk, takes exactly this block out of use and
    -- changes no block that holds data. It panics exactly when the block is not in use.
    pub bfree_lem :
        (b : ℕ) (d : Disk)
        → IsSound nmeta d
        → nmeta ≤ b
        → b < sb.size
        → BfreeResult nmeta d b (bfree sb b d)
    unfolding bfree
    bfree_lem b d s above l = elim (Bool-cases (is_free sb d (bblock sb b) (b % bpb))) [
      | inl free ↦ rw (free, bfree) (ap not free)
      | inr used ↦
          rw (used, bfree)
            (
              ap not used,
              record {
                bits = bits;
                rest = λ c m.
                    let away : (bblock sb b == c) ≡ false = ground (arith, lay.bitmap) in
                    rw away refl;
                sound = record {
                  bytes =
                      put_byte-small sb (bblock sb b) (b % bpb / 8) new d s.bytes
                        (byte_range _ (b % bpb % 8) (s.bytes _ _) (omega arith)).1;
                  reserved = λ c m. bits c ∙ ground (arith, s.reserved c m);
                };
              },
            )
    ]
      where
        new : ℕ
        new = bit_and (d (bblock sb b) (b % bpb / 8)) (255 - 2 ^ (b % bpb % 8))

        bits :
            (c : ℕ)
            → in_use sb (put_byte (bblock sb b) (b % bpb / 8) new d) c
              ≡ (if b == c then false else in_use sb d c)
        bits c = one_bit sb d b c new false (λ j m.
            bit-clear (d (bblock sb b) (b % bpb / 8)) (b % bpb % 8) j (s.bytes _ _) (omega arith) m)
