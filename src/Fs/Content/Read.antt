-- ===== src/Fs/Content/Read.antt =====
-- `readi` returns the bytes of the file.
use Prim.Native.Nat.{min}
use slab_study.Common.{
  ℕ, zero, suc, ◌+◌, ◌-◌, ◌/◌, ◌%◌, ◌^◌, ◌<◌, ◌≤◌, ◌≡◌, ◌≢◌, ◌⊎◌, inl, inr, refl, sym, ap, ◌∙◌,
  arith, true, false, Option, none, some, ltb, leb, ◌==◌, ◌&&◌, ◌||◌, if◌then◌else◌, Bool-cases,
}
use slab_study.Fs.{Disk, Superblock, bsize}
use slab_study.Fs.Bmap.{Inode}
use slab_study.Fs.Bmap.Slots.{slot, slot_of}
use slab_study.Fs.Bmap.Mapped.{bmap-mapped}
use slab_study.Fs.Content.{
  max_size, paste, stretch, read_loop, read_result, read_bytes, readi, ReadResult, failed, device,
  bytes, Devsw, t_dev,
}

-- The byte at offset `k` of the file.
abbrev pub content : Inode → Disk → ℕ → ℕ
content ip d k = d (slot ip.addrs d (slot_of (k / bsize))) (k % bsize)

-- Every block up to offset `n` is there.
abbrev pub IsFilled : Inode → Disk → ℕ → Type 0
IsFilled ip d n = (k : ℕ) → k < n → slot ip.addrs d (slot_of (k / bsize)) ≢ 0

module _ (sb : Superblock) (ip : Inode) (d : Disk) where
  -- Inside a stretch the block is that of the first byte.
  pub same_block :
      (off i : ℕ)
      → off % bsize + i < bsize
      → ((off + i) / bsize ≡ off / bsize) × ((off + i) % bsize ≡ off % bsize + i)
  same_block off i l = (omega arith, omega arith)

  -- A pass of the loop, and the passes behind it.
  byte_step :
      (n tot off : ℕ) (dst : ℕ → ℕ) (j : ℕ)
      → tot < n
      → let m = stretch n tot off in
        (if leb (tot + m) j && ltb j n
          then content ip d (off + m + (j - (tot + m)))
          else paste tot m
              (λ x. d (slot ip.addrs d (slot_of (off / bsize))) (off % bsize + x))
              dst
              j)
        ≡ (if leb tot j && ltb j n then content ip d (off + (j - tot)) else dst j)
  unfolding paste
  byte_step n tot off dst j l =
      let m = stretch n tot off in
      elim (Bool-cases (leb (tot + m) j && ltb j n)) [
        | inl behind ↦
            let wide : (leb tot j && ltb j n) ≡ true = ground arith in
            let index : off + m + (j - (tot + m)) ≡ off + (j - tot) = ground arith in
            rw (behind, wide, index) refl
        | inr before ↦ rw before (elim (Bool-cases (leb tot j && ltb j (tot + m))) [
          | inl here ↦
              let wide : (leb tot j && ltb j n) ≡ true = ground arith in
              let (block, index) = same_block off (j - tot) (ground arith) in
              rw (here, wide, block, index) refl
          | inr out ↦
              let narrow : (leb tot j && ltb j n) ≡ false = ground arith in rw (out, narrow) refl
        ])
      ]

  -- What the loop leaves: a byte of the caller's array is a byte of the file, or as it was.
  read_loop_lem :
      (fuel n tot off : ℕ) (dst : ℕ → ℕ) (j : ℕ)
      → tot ≤ n
      → n < tot + fuel
      → off + (n - tot) ≤ max_size
      → ((k : ℕ) → off ≤ k → k < off + (n - tot) → slot ip.addrs d (slot_of (k / bsize)) ≢ 0)
      → (out : ℕ → ℕ) × (read_loop sb fuel n tot off dst ip d ≡ some (out, ip, d))
        × (out j ≡ (if leb tot j && ltb j n then content ip d (off + (j - tot)) else dst j))
  unfolding read_loop
  read_loop_lem zero n tot off dst j t f l h = absurd (omega arith)
  read_loop_lem (suc fuel) n tot off dst j t f l h = elim (Bool-cases (ltb tot n)) [
    | inr through ↦ rw (through, read_loop) (dst, refl, ground arith)
    | inl more ↦
        let m = stretch n tot off in
        let lt : tot < n = ground arith in
        let mapped =
          bmap-mapped sb ip d (off / bsize) (omega (arith, lt))
            (h off (omega arith) (omega (arith, lt))) in
        let (out, e, b) =
          read_loop_lem fuel n (tot + m) (off + m)
            (paste tot m (λ x. d (slot ip.addrs d (slot_of (off / bsize))) (off % bsize + x)) dst) j
            (omega (arith, lt)) (omega (arith, lt)) (omega (arith, lt))
            (λ k p q. h k (omega (arith, p)) (omega (arith, lt, q))) in
        rw (more, read_loop, mapped) (out, e, b ∙ byte_step n tot off dst j lt)
  ]

-- The guards of `readi` let the call through, for the bytes up to the end of the file.
readi-read_bytes :
    (sb : Superblock) (dev : Devsw) (off n : ℕ) (dst : ℕ → ℕ) (ip : Inode) (d : Disk)
    → ip.kind ≢ t_dev
    → off ≤ ip.size
    → off + n < 2 ^ 32
    → readi sb dev off n dst ip d ≡ read_bytes sb off (min n (ip.size - off)) dst ip d
unfolding readi
readi-read_bytes sb dev off n dst ip d k o w =
    let file : (ip.kind == t_dev) ≡ false = ground arith in
    let small : (off + n) % 2 ^ 32 ≡ off + n = omega arith in
    let inside : (ltb ip.size off || ltb (off + n) off) ≡ false = ground arith in
    rw (file, small, inside, readi)
      (elim (Bool-cases (ltb ip.size (off + n))) [
        | inl over ↦
            let cut : min n (ip.size - off) ≡ ip.size - off = ground arith in rw (over, cut) refl
        | inr under ↦ let all : min n (ip.size - off) ≡ n = ground arith in rw (under, all) refl
      ])

read_bytes_lem :
    (sb : Superblock) (off n : ℕ) (dst : ℕ → ℕ) (ip : Inode) (d : Disk) (j : ℕ)
    → off + n ≤ max_size
    → IsFilled ip d (off + n)
    → (out : ℕ → ℕ) × (read_bytes sb off n dst ip d ≡ some (bytes n out, ip, d))
      × (out j ≡ (if ltb j n then content ip d (off + j) else dst j))
unfolding read_bytes read_result
read_bytes_lem sb off n dst ip d j l h =
    let (out, e, b) =
      read_loop_lem sb ip d (n + 1) n 0 off dst j (omega arith) (omega arith) (omega arith)
        (λ k p q. h k (omega (arith, q))) in
    let start : leb 0 j ≡ true = ground arith in
    let index : j - 0 ≡ j = omega arith in
    (out, rw (e, read_bytes, read_result) refl, b ∙ rw (start, index) refl)

-- The bytes that a `readi` has stored.
bytes_of : ReadResult → ℕ → ℕ
bytes_of (bytes m f) = f
bytes_of failed = λ i. 0
bytes_of (device major) = λ i. 0

all_bytes : Option (ReadResult × Inode × Disk) → ℕ → ℕ
all_bytes none = λ i. 0
all_bytes (some (r, i, b)) = bytes_of r

-- A read within the file, whose end does not wrap.
pub readi_inside :
    (sb : Superblock) (dev : Devsw) (off n : ℕ) (dst : ℕ → ℕ) (ip : Inode) (d : Disk)
    → ip.kind ≢ t_dev
    → ip.size ≤ max_size
    → IsFilled ip d ip.size
    → off ≤ ip.size
    → off + n < 2 ^ 32
    → let m = min n (ip.size - off) in
      (out : ℕ → ℕ) × (readi sb dev off n dst ip d ≡ some (bytes m out, ip, d))
      × ((j : ℕ) → out j ≡ (if ltb j m then content ip d (off + j) else dst j))
unfolding all_bytes bytes_of
readi_inside sb dev off n dst ip d k s h o w =
    let (out, e, b) = read 0 in
    (
      out,
      readi-read_bytes sb dev off n dst ip d k o w ∙ e,
      λ j.
          let (out', e', b') = read j in
          let same : out ≡ out' = ap all_bytes (sym e ∙ e') in ap (λ f. f j) same ∙ b',
    )
  where
    read :
        (j : ℕ)
        → (out : ℕ → ℕ) × (read_bytes sb off (min n (ip.size - off)) dst ip d
            ≡ some (bytes (min n (ip.size - off)) out, ip, d))
          × (out j ≡ (if ltb j (min n (ip.size - off)) then content ip d (off + j) else dst j))
    read j =
        read_bytes_lem sb off (min n (ip.size - off)) dst ip d j (omega arith)
          (λ i l. h i (omega arith))

-- `readi` of a file that is no device, whose blocks up to its size are there, changes neither the file
-- nor the disk. It returns -1 if the offset is behind the end of the file, or the end of the
-- read reaches 2 ^ 32, where `uint` wraps. Otherwise it returns the number of bytes up to the end of
-- the file, or `n` if that is less, and stores these bytes of the file in the array, and no others.
pub readi_lem :
    (sb : Superblock) (dev : Devsw) (off n : ℕ) (dst : ℕ → ℕ) (ip : Inode) (d : Disk)
    → ip.kind ≢ t_dev
    → ip.size ≤ max_size
    → IsFilled ip d ip.size
    → off < 2 ^ 32
    → n < 2 ^ 32
    → ((ip.size < off) ⊎ (2 ^ 32 ≤ off + n) → readi sb dev off n dst ip d ≡ some (failed, ip, d))
      × (off ≤ ip.size
          → off + n < 2 ^ 32
          → let m = min n (ip.size - off) in
            (out : ℕ → ℕ) × (readi sb dev off n dst ip d ≡ some (bytes m out, ip, d))
            × ((j : ℕ) → out j ≡ (if ltb j m then content ip d (off + j) else dst j)))
unfolding readi
readi_lem sb dev off n dst ip d k s h p q = (
  λ o. let file : (ip.kind == t_dev) ≡ false = ground arith in rw (file, outside o, readi) refl,
  λ o w. readi_inside sb dev off n dst ip d k s h o w,
)
  where
    outside :
        (ip.size < off) ⊎ (2 ^ 32 ≤ off + n)
        → (ltb ip.size off || ltb ((off + n) % 2 ^ 32) off) ≡ true
    outside (inl l) = let behind : ltb ip.size off ≡ true = ground arith in rw behind refl
    outside (inr l) =
        let wraps : ltb ((off + n) % 2 ^ 32) off ≡ true =
          (let e : (off + n) % 2 ^ 32 ≡ off + n - 2 ^ 32 = omega arith in ground (arith, e)) in
        ground (arith, wraps)
