-- ===== src/Fs/Icache/Alloc.antt =====
-- `ialloc`: an inode of the disk that is not in use.
use slab_study.Common.{
  ℕ, zero, suc, ◌+◌, ◌-◌, ◌*◌, ◌/◌, ◌%◌, ◌^◌, ◌<◌, ◌≤◌, ◌≡◌, ◌≢◌, ◌⊎◌, inl, inr, refl, sym, ap, ◌∙◌,
  arith, true, false, Option, some, none, ltb, ◌==◌, Bool-cases,
}
use slab_study.Fs.{Disk, Superblock, Block, get_word}
use slab_study.Fs.Bmap.{Inode}
use slab_study.Fs.Dinode.{ipb, get_half, put_half, iblock, get_dinode, load_inode}
use slab_study.Fs.Dinode.RoundTrip.{Same, get_dinode-Same}
use slab_study.Fs.Icache.{
  new_dinode, disk_type, claim, free_inum, ialloc_disk, Icache, iget, ialloc,
}
use slab_study.Fs.Icache.Lookup.{IsUnique, Got, IgetResult, iget_lem}

-- A new inode: its type, and zeros.
abbrev pub empty_node : ℕ → Inode
empty_node type = record { kind = type; major = 0; minor = 0; nlink = 0; size = 0; addrs = λ k. 0 }

half_zero :
    (a : Block) (i type m : ℕ) → 0 < m → m < 4 → get_half (new_dinode i type a) (32 * i + m) ≡ 0
unfolding new_dinode get_half put_half
half_zero a i type m p q = ground arith

word_zero :
    (a : Block) (i type m : ℕ) → 1 < m → m < 16 → get_word (new_dinode i type a) (16 * i + m) ≡ 0
unfolding new_dinode get_word put_half
word_zero a i type m p q = ground arith

new_type : (a : Block) (i type : ℕ) → type < 2 ^ 16 → get_half (new_dinode i type a) (32 * i) ≡ type
unfolding new_dinode get_half put_half
new_type a i type l = ground arith

new_byte : (a : Block) (i type k : ℕ) → k / 64 ≢ i → new_dinode i type a k ≡ a k
unfolding new_dinode put_half
new_byte a i type k n = ground arith

new-Same :
    (a : Block) (i type : ℕ) (old : ℕ → ℕ)
    → type < 2 ^ 16
    → Same (get_dinode i old (new_dinode i type a)) (empty_node type)
unfolding get_dinode
new-Same a i type old l = record {
  kind = new_type a i type l;
  major = half_zero a i type 1 (omega arith) (omega arith);
  minor = half_zero a i type 2 (omega arith) (omega arith);
  nlink = half_zero a i type 3 (omega arith) (omega arith);
  size = word_zero a i type 2 (omega arith) (omega arith);
  addrs = λ k m.
      let near : ltb k 13 ≡ true = ground arith in
      let at : 16 * i + (3 + k) ≡ 16 * i + 3 + k = omega arith in
      rw near (
        ap (get_word (new_dinode i type a)) (sym at)
        ∙ word_zero a i type (3 + k) (omega arith) (omega arith));
}

module _ (sb : Superblock) where
  -- The first inode of the disk that is not in use, and all that `ialloc` does to the disk.
  pub record Alloced (type : ℕ) (d : Disk) (inum : ℕ) (d' : Disk) : Type 0 where
    pub range : (1 ≤ inum) × (inum < sb.ninodes)
    pub was_free : disk_type sb d inum ≡ 0
    pub first : (j : ℕ) → 1 ≤ j → j < inum → disk_type sb d j ≢ 0
    pub now : (old : ℕ → ℕ) → Same (load_inode sb inum old d') (empty_node type)
    pub others :
        (j : ℕ) (old : ℕ → ℕ) → j ≢ inum → Same (load_inode sb j old d') (load_inode sb j old d)
    pub rest : (b : ℕ) → b ≢ iblock sb inum → d' b ≡ d b

  abbrev pub AllocResult : ℕ → Disk → Option (ℕ × Disk) → Type 0
  AllocResult type d none = (j : ℕ) → 1 ≤ j → j < sb.ninodes → disk_type sb d j ≢ 0
  AllocResult type d (some (inum, d')) = Alloced type d inum d'

  abbrev FreeInum : Disk → ℕ → ℕ → Option ℕ → Type 0
  FreeInum d i hi none = (j : ℕ) → i ≤ j → j < hi → disk_type sb d j ≢ 0
  FreeInum d i hi (some x) =
      (i ≤ x) × (x < hi) × (disk_type sb d x ≡ 0) × ((j : ℕ) → i ≤ j → j < x → disk_type sb d j ≢ 0)

  free_inum_lem :
      (d : Disk) (i n hi : ℕ)
      → (0 < n → i + n ≡ hi)
      → (n ≡ 0 → hi ≤ i)
      → FreeInum d i hi (free_inum sb d i n)
  unfolding free_inum
  free_inum_lem d i zero hi e z = λ j a b. absurd (omega (arith, a, b, z refl))
  free_inum_lem d i (suc n) hi e z = elim (Bool-cases (disk_type sb d i == 0)) [
    | inl free ↦
        rw (free, free_inum)
          (
            omega arith,
            omega (arith, e (omega arith)),
            ground arith,
            λ j a b. absurd (omega (arith, a, b)),
          )
    | inr used ↦
        rw (used, free_inum)
          (step (free_inum sb d (i + 1) n) (ground arith) (
            free_inum_lem d (i + 1) n hi (λ p. omega (arith, e (omega arith)))
              (λ p. omega (arith, e (omega arith)))))
  ]
    where
      extend :
          (hi : ℕ)
          → disk_type sb d i ≢ 0
          → ((j : ℕ) → i + 1 ≤ j → j < hi → disk_type sb d j ≢ 0)
          → (j : ℕ) → i ≤ j
          → j < hi
          → disk_type sb d j ≢ 0
      extend hi used w j a b = elim (Bool-cases (i == j)) [
        | inl here ↦ (let same : i ≡ j = ground arith in λ q. used (ap (disk_type sb d) same ∙ q))
        | inr other ↦ w j (ground arith) b
      ]

      step : (r : Option ℕ) → disk_type sb d i ≢ 0 → FreeInum d (i + 1) hi r → FreeInum d i hi r
      step none used w = extend hi used w
      step (some x) used w = (omega (arith, w.0), w.1, w.2, extend x used w.3)

  -- The part of `ialloc` that searches and writes the disk.
  ialloc_disk_lem :
      (type : ℕ) (d : Disk) → type < 2 ^ 16 → AllocResult type d (ialloc_disk sb type d)
  unfolding ialloc_disk load_inode
  ialloc_disk_lem type d l = go (free_inum sb d 1 (sb.ninodes - 1)) (
      free_inum_lem d 1 (sb.ninodes - 1) sb.ninodes (λ p. omega (arith, p)) (λ p. omega (arith, p)))
    where
      go :
          (r : Option ℕ)
          → FreeInum d 1 sb.ninodes r
          → AllocResult type d
              (elim r [ some inum ↦ some (inum, claim sb type inum d) | none ↦ none ])
      go none w = w
      go (some inum) w = record {
        range = (w.0, w.1);
        was_free = w.2;
        first = w.3;
        now = λ old.
            let own : (iblock sb inum == iblock sb inum) ≡ true = ground arith in
            rw own (new-Same (d (iblock sb inum)) (inum % ipb) type old l);
        others = λ j old n. elim (Bool-cases (iblock sb inum == iblock sb j)) [
          | inr away ↦ rw away (get_dinode-Same (j % ipb) old _ _ (λ k e. refl))
          | inl block ↦
              let same : d (iblock sb inum) ≡ d (iblock sb j) = ap d (ground arith) in
              rw block (
                get_dinode-Same (j % ipb) old _ _ (λ k e.
                  new_byte (d (iblock sb inum)) (inum % ipb) type k (ground arith)
                  ∙ ap (λ b. b k) same))
        ];
        rest = λ b n. let away : (iblock sb inum == b) ≡ false = ground arith in rw away refl;
      }

  abbrev pub IallocResult : ℕ → ℕ → Icache → Disk → Option (ℕ × Icache × Disk) → Type 0
  IallocResult dev type c d none =
      ((j : ℕ) → 1 ≤ j → j < sb.ninodes → disk_type sb d j ≢ 0)
      ⊎ ((inum : ℕ) × (d' : Disk) × Alloced type d inum d' × IgetResult dev inum c none)
  IallocResult dev type c d (some (i, c', d')) =
      (inum : ℕ) × Alloced type d inum d' × Got dev inum i c c'

  -- `ialloc` of a type of 16 bits, with a table of inodes in which no two entries in use are the same
  -- inode. It takes the first inode from 1 on whose type on the disk is 0, gives it the type and zeros
  -- in all else, and returns its entry of the table, as `iget` does. No other inode and no other block
  -- of the disk changes. It panics only where no type is 0, or where the inode has no entry and all
  -- entries are in use.
  pub ialloc_lem :
      (dev type : ℕ) (c : Icache) (d : Disk)
      → type < 2 ^ 16
      → IsUnique c
      → IallocResult dev type c d (ialloc sb dev type c d)
  unfolding ialloc
  ialloc_lem dev type c d l u = go (ialloc_disk sb type d) (ialloc_disk_lem type d l)
    where
      with_entry :
          (inum : ℕ) (d' : Disk) (r : Option (ℕ × Icache))
          → Alloced type d inum d'
          → IgetResult dev inum c r
          → IallocResult dev type c d (elim r [ some (i, c') ↦ some (i, c', d') | none ↦ none ])
      with_entry inum d' none a g = inr (inum, d', a, g)
      with_entry inum d' (some (i, c')) a g = (inum, a, g)

      go :
          (r : Option (ℕ × Disk))
          → AllocResult type d r
          → IallocResult dev type c d (elim r [
            | some (inum, d') ↦ elim (iget dev inum c) [
              | some (i, c') ↦ some (i, c', d')
              | none ↦ none
            ]
            | none ↦ none
          ])
      go none w = inl w
      go (some (inum, d')) w = with_entry inum d' (iget dev inum c) w (iget_lem dev inum c u)
