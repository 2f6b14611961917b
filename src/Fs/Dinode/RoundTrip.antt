-- ===== src/Fs/Dinode/RoundTrip.antt =====
-- What `iupdate` stores is what `ilock` loads, and the other inodes of the block stay.
use slab_study.Common.{
  ℕ, zero, suc, ◌+◌, ◌*◌, ◌/◌, ◌%◌, ◌^◌, ◌<◌, ◌≡◌, ◌≢◌, refl, sym, ap, ◌∙◌, arith, true, ltb, ◌==◌,
  Bool-cases, inl, inr,
}
use slab_study.Fs.{Disk, Superblock, Block, get_word, put_word}
use slab_study.Fs.Bytes.{get-put_word, get-put_word_other, put_word-byte}
use slab_study.Fs.Bmap.{Inode}
use slab_study.Fs.Dinode.{
  ipb, get_half, put_half, put_addrs, put_dinode, get_dinode, iblock, iupdate, load_inode,
}

-- A byte of a block after a store elsewhere.
put_word_far : (k v i : ℕ) (a : Block) → i / 4 ≢ k → put_word k v a i ≡ a i
unfolding put_word
put_word_far k v i a n = ground arith

put_half_far : (k v i : ℕ) (a : Block) → i / 2 ≢ k → put_half k v a i ≡ a i
unfolding put_half
put_half_far k v i a n = ground arith

put_addrs_far :
    (addrs : ℕ → ℕ) (w n i : ℕ) (a : Block)
    → ((k : ℕ) → k < n → i / 4 ≢ w + k)
    → put_addrs addrs w n a i ≡ a i
unfolding put_addrs
put_addrs_far addrs w zero i a h = refl
put_addrs_far addrs w (suc n) i a h =
    put_word_far (w + n) (addrs n) i (put_addrs addrs w n a) (h n (omega arith))
    ∙ put_addrs_far addrs w n i a (λ k l. h k (omega arith))

put_half-byte : (k v i : ℕ) (a : Block) → a i < 256 → put_half k v a i < 256
unfolding put_half
put_half-byte k v i a l = ground arith

put_addrs-byte : (addrs : ℕ → ℕ) (w n i : ℕ) (a : Block) → a i < 256 → put_addrs addrs w n a i < 256
unfolding put_addrs
put_addrs-byte addrs w zero i a l = l
put_addrs-byte addrs w (suc n) i a l =
    put_word-byte (put_addrs addrs w n a) (w + n) (addrs n) i (put_addrs-byte addrs w n i a l)

-- The stored block consists of bytes.
pub put_dinode-small :
    (i : ℕ) (ip : Inode) (a : Block) → ((b : ℕ) → a b < 256) → (b : ℕ) → put_dinode i ip a b < 256
unfolding put_dinode
put_dinode-small i ip a small b = put_addrs-byte ip.addrs (16 * i + 3) 13 b _ (
    put_word-byte _ (16 * i + 2) ip.size b (
      put_half-byte (32 * i + 3) ip.nlink b _ (
        put_half-byte (32 * i + 2) ip.minor b _ (
          put_half-byte (32 * i + 1) ip.major b _ (put_half-byte (32 * i) ip.kind b a (small b))))))

get-put_addrs :
    (addrs : ℕ → ℕ) (w n k : ℕ) (a : Block)
    → k < n
    → addrs k < 2 ^ 32
    → get_word (put_addrs addrs w n a) (w + k) ≡ addrs k
unfolding put_addrs
get-put_addrs addrs w zero k a l s = absurd (omega arith)
get-put_addrs addrs w (suc n) k a l s = elim (Bool-cases (k == n)) [
  | inl last ↦
      let same : k ≡ n = ground arith in
      ap (λ j. get_word (put_word (w + n) (addrs n) (put_addrs addrs w n a)) (w + j)) same
      ∙ get-put_word (put_addrs addrs w n a) (w + n) (addrs n) (ground (arith, ap addrs same))
      ∙ ap addrs (sym same)
  | inr before ↦
      get-put_word_other (put_addrs addrs w n a) (w + n) (w + k) (addrs n) (ground arith)
      ∙ get-put_addrs addrs w n k a (ground arith) s
]

get_word-same :
    (a b : Block) (k : ℕ) → ((i : ℕ) → i / 4 ≡ k → a i ≡ b i) → get_word a k ≡ get_word b k
unfolding get_word
get_word-same a b k h = omega (
  arith,
  h (4 * k) (omega arith),
  h (4 * k + 1) (omega arith),
  h (4 * k + 2) (omega arith),
  h (4 * k + 3) (omega arith),
)

get_half-same :
    (a b : Block) (k : ℕ) → ((i : ℕ) → i / 2 ≡ k → a i ≡ b i) → get_half a k ≡ get_half b k
unfolding get_half
get_half-same a b k h = omega (arith, h (2 * k) (omega arith), h (2 * k + 1) (omega arith))

get-put_half : (k v : ℕ) (a : Block) → v < 2 ^ 16 → get_half (put_half k v a) k ≡ v
unfolding get_half put_half
get-put_half k v a l = ground arith

get-put_half_other : (k j v : ℕ) (a : Block) → j ≢ k → get_half (put_half k v a) j ≡ get_half a j
get-put_half_other k j v a n =
    get_half-same (put_half k v a) a j (λ i e. put_half_far k v i a (λ f. n (sym e ∙ f)))

-- The fields of an inode fit their types.
pub record IsSized (ip : Inode) : Type 0 where
  pub kind : ip.kind < 2 ^ 16
  pub major : ip.major < 2 ^ 16
  pub minor : ip.minor < 2 ^ 16
  pub nlink : ip.nlink < 2 ^ 16
  pub size : ip.size < 2 ^ 32
  pub addrs : (k : ℕ) → k < 13 → ip.addrs k < 2 ^ 32

-- The inode `ip` and what is loaded: all fields, and the 13 addresses.
pub record Same (ip jp : Inode) : Type 0 where
  pub kind : ip.kind ≡ jp.kind
  pub major : ip.major ≡ jp.major
  pub minor : ip.minor ≡ jp.minor
  pub nlink : ip.nlink ≡ jp.nlink
  pub size : ip.size ≡ jp.size
  pub addrs : (k : ℕ) → k < 13 → ip.addrs k ≡ jp.addrs k

module _ (i : ℕ) (ip : Inode) (a : Block) where
  halves : Block
  halves = put_half (32 * i + 3) ip.nlink (
      put_half (32 * i + 2) ip.minor (put_half (32 * i + 1) ip.major (put_half (32 * i) ip.kind a)))

  -- The halves are stored below the words.
  half_stays : (k : ℕ) → k < 32 * i + 4 → get_half (put_dinode i ip a) k ≡ get_half halves k
  unfolding put_dinode halves
  half_stays k l = get_half-same (put_dinode i ip a) halves k (λ b e.
      put_addrs_far ip.addrs (16 * i + 3) 13 b (put_word (16 * i + 2) ip.size halves)
        (λ j m. omega arith)
      ∙ put_word_far (16 * i + 2) ip.size b halves (omega arith))

  size_stored : ip.size < 2 ^ 32 → get_word (put_dinode i ip a) (16 * i + 2) ≡ ip.size
  unfolding put_dinode halves
  size_stored l =
      get_word-same (put_dinode i ip a) (put_word (16 * i + 2) ip.size halves) (16 * i + 2) (λ b e.
        put_addrs_far ip.addrs (16 * i + 3) 13 b (put_word (16 * i + 2) ip.size halves)
          (λ j m. omega arith))
      ∙ get-put_word halves (16 * i + 2) ip.size l

  -- A byte outside the 64 of the inode.
  byte_stays : (b : ℕ) → b / 64 ≢ i → put_dinode i ip a b ≡ a b
  unfolding put_dinode halves
  byte_stays b n =
      put_addrs_far ip.addrs (16 * i + 3) 13 b (put_word (16 * i + 2) ip.size halves)
        (λ j m. omega arith)
      ∙ put_word_far (16 * i + 2) ip.size b halves (omega arith)
      ∙ put_half_far (32 * i + 3) ip.nlink b _ (omega arith)
      ∙ put_half_far (32 * i + 2) ip.minor b _ (omega arith)
      ∙ put_half_far (32 * i + 1) ip.major b _ (omega arith)
      ∙ put_half_far (32 * i) ip.kind b a (omega arith)

  addrs_stored :
      (k : ℕ)
      → k < 13
      → ip.addrs k < 2 ^ 32
      → get_word (put_dinode i ip a) (16 * i + 3 + k) ≡ ip.addrs k
  unfolding put_dinode
  addrs_stored k l small = get-put_addrs ip.addrs (16 * i + 3) 13 k _ l small

  pub kind_stored : ip.kind < 2 ^ 16 → get_half (put_dinode i ip a) (32 * i) ≡ ip.kind
  unfolding halves
  kind_stored l =
      half_stays (32 * i) (omega arith)
      ∙ get-put_half_other (32 * i + 3) (32 * i) _ _ (omega arith)
      ∙ get-put_half_other (32 * i + 2) (32 * i) _ _ (omega arith)
      ∙ get-put_half_other (32 * i + 1) (32 * i) _ _ (omega arith)
      ∙ get-put_half (32 * i) ip.kind a l

  dinode_stored : (old : ℕ → ℕ) → IsSized ip → Same (get_dinode i old (put_dinode i ip a)) ip
  unfolding get_dinode halves
  dinode_stored old s = record {
    kind = kind_stored s.kind;
    major =
        half_stays (32 * i + 1) (omega arith)
        ∙ get-put_half_other (32 * i + 3) (32 * i + 1) _ _ (omega arith)
        ∙ get-put_half_other (32 * i + 2) (32 * i + 1) _ _ (omega arith)
        ∙ get-put_half (32 * i + 1) ip.major _ s.major;
    minor =
        half_stays (32 * i + 2) (omega arith)
        ∙ get-put_half_other (32 * i + 3) (32 * i + 2) _ _ (omega arith)
        ∙ get-put_half (32 * i + 2) ip.minor _ s.minor;
    nlink = half_stays (32 * i + 3) (omega arith) ∙ get-put_half (32 * i + 3) ip.nlink _ s.nlink;
    size = size_stored s.size;
    addrs = λ k l.
        let direct : ltb k 13 ≡ true = ground arith in rw direct (addrs_stored k l (s.addrs k l));
  }

-- Blocks that agree on the 64 bytes of an inode.
pub get_dinode-Same :
    (i : ℕ) (old : ℕ → ℕ) (a b : Block)
    → ((k : ℕ) → k / 64 ≡ i → a k ≡ b k)
    → Same (get_dinode i old a) (get_dinode i old b)
unfolding get_dinode
get_dinode-Same i old a b h = record {
  kind = get_half-same a b (32 * i) (λ k e. h k (omega arith));
  major = get_half-same a b (32 * i + 1) (λ k e. h k (omega arith));
  minor = get_half-same a b (32 * i + 2) (λ k e. h k (omega arith));
  nlink = get_half-same a b (32 * i + 3) (λ k e. h k (omega arith));
  size = get_word-same a b (16 * i + 2) (λ k e. h k (omega arith));
  addrs = λ j l.
      let direct : ltb j 13 ≡ true = ground arith in
      rw direct (get_word-same a b (16 * i + 3 + j) (λ k e. h k (omega arith)));
}

module _ (sb : Superblock) where
  -- After `iupdate` of an inode whose fields fit their types, `ilock` loads exactly this inode under
  -- its number, and under every other number what it loaded before.
  pub ilock_after_iupdate :
      (inum other : ℕ) (ip : Inode) (old : ℕ → ℕ) (d : Disk)
      → IsSized ip
      → Same (load_inode sb inum old (iupdate sb inum ip d)) ip
        × (other ≢ inum
            → Same (load_inode sb other old (iupdate sb inum ip d)) (load_inode sb other old d))
  unfolding iupdate load_inode
  ilock_after_iupdate inum other ip old d s =
      let own : (iblock sb inum == iblock sb inum) ≡ true = ground arith in
      (
        rw own (dinode_stored (inum % ipb) ip (d (iblock sb inum)) old s),
        λ n. elim (Bool-cases (iblock sb inum == iblock sb other)) [
          | inr away ↦ rw away (get_dinode-Same (other % ipb) old _ _ (λ k e. refl))
          | inl block ↦
              let same : d (iblock sb inum) ≡ d (iblock sb other) = ap d (ground arith) in
              rw block (
                get_dinode-Same (other % ipb) old _ _ (λ k e.
                  byte_stays (inum % ipb) ip (d (iblock sb inum)) k (ground arith)
                  ∙ ap (λ b. b k) same))
        ],
      )
