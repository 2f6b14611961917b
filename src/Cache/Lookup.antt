-- ===== src/Cache/Lookup.antt =====
-- A block is in at most one buffer, and a buffer that somebody uses is never recycled.
use slab_study.Common.{
  ℕ, ◌+◌, ◌≡◌, ◌≢◌, ◌⊎◌, inl, inr, refl, sym, ap, arith, Bool, true, false, ◌==◌, Option, some,
  none, List, [], ◌∷◌, Bool-cases, Option-cases,
}
use mathlib.Core.Path.{subst}
use mathlib.Core.List.{Memᴰ}
use mathlib.Core.List.Memᴰ.{head, tail}
use slab_study.Cache.{
  Bcache, find_first, find_last, is_cached, is_unused, share, recycle, find_unused, bget,
}

-- No block of a device other than 0 is in two buffers of the list.
abbrev pub IsUnique : Bcache → Type 0
IsUnique c =
    (i j : ℕ)
    → Memᴰ i c.mru
    → Memᴰ j c.mru
    → (c.buf i).dev ≢ 0
    → (c.buf i).dev ≡ (c.buf j).dev
    → (c.buf i).blockno ≡ (c.buf j).blockno
    → i ≡ j

find_first-some :
    (test : ℕ → Bool) (l : List ℕ) (b : ℕ) → find_first test l ≡ some b → Memᴰ b l × (test b ≡ true)
unfolding find_first
find_first-some test [] b e = cc
find_first-some test (x ∷ l) b e = elim (Bool-cases (test x)) [
  | inl h ↦ let same : x ≡ b = ground arith in (head (sym same), ground arith)
  | inr h ↦ let (m, hit) = find_first-some test l b (ground arith) in (tail m, hit)
]

find_first-none :
    (test : ℕ → Bool) (l : List ℕ) (b : ℕ) → find_first test l ≡ none → Memᴰ b l → test b ≡ false
unfolding find_first
find_first-none test [] b e m = elim m [ ]
find_first-none test (x ∷ l) b e (head same) = ground (arith, ap test same)
find_first-none test (x ∷ l) b e (tail m) = find_first-none test l b (ground arith) m

find_last-some :
    (test : ℕ → Bool) (l : List ℕ) (b : ℕ) → find_last test l ≡ some b → Memᴰ b l × (test b ≡ true)
unfolding find_last
find_last-some test [] b e = cc
find_last-some test (x ∷ l) b e = elim (Option-cases (find_last test l)) [
  | inl h ↦ elim (Bool-cases (test x)) [
    | inl t ↦ let same : x ≡ b = ground arith in (head (sym same), ground arith)
    | inr t ↦ absurd (ground arith)
  ]
  | inr (c, h) ↦
      let same : c ≡ b = ground arith in
      let (m, hit) = find_last-some test l b (ground arith) in (tail m, hit)
]

find_last-none :
    (test : ℕ → Bool) (l : List ℕ) (b : ℕ) → find_last test l ≡ none → Memᴰ b l → test b ≡ false
unfolding find_last
find_last-none test [] b e m = elim m [ ]
find_last-none test (x ∷ l) b e (head same) = ground (arith, ap test same)
find_last-none test (x ∷ l) b e (tail m) = find_last-none test l b (ground arith) m

-- The buffer `b` that `bget` returns for a block.
pub record Got (c c' : Bcache) (dev blockno b : ℕ) : Type 0 where
  pub linked : Memᴰ b c.mru
  pub names : ((c'.buf b).dev ≡ dev) × ((c'.buf b).blockno ≡ blockno)
  pub counted :
      (c.buf b).dev ≡ dev
      → (c.buf b).blockno ≡ blockno
      → c'.buf b ≡ record (c.buf b) { refcnt = (c.buf b).refcnt + 1 }
  pub recycled :
      ((c.buf b).dev ≢ dev) ⊎ ((c.buf b).blockno ≢ blockno)
      → ((c.buf b).refcnt ≡ 0)
        × ((c.buf b).dirty ≡ false)
        × ((c'.buf b).refcnt ≡ 1)
        × ((c'.buf b).valid ≡ false)
  pub rest : (j : ℕ) → j ≢ b → c'.buf j ≡ c.buf j
  pub order : c'.mru ≡ c.mru
  pub unique : IsUnique c → IsUnique c'

-- Every buffer has another block, and is in use or has data that is not on the disk.
abbrev pub Exhausted : Bcache → ℕ → ℕ → Type 0
Exhausted c dev blockno =
    (b : ℕ)
    → Memᴰ b c.mru
    → (is_cached c.buf dev blockno b ≡ false) × (((c.buf b).refcnt ≢ 0) ⊎ ((c.buf b).dirty ≡ true))

pub BgetResult : Bcache → ℕ → ℕ → Option (ℕ × Bcache) → Type 0
BgetResult c dev blockno none = Exhausted c dev blockno
BgetResult c dev blockno (some (b, c')) = Got c c' dev blockno b

share-Got :
    (dev blockno b : ℕ) (c : Bcache)
    → Memᴰ b c.mru
    → is_cached c.buf dev blockno b ≡ true
    → Got c (share b c) dev blockno b
unfolding share
share-Got dev blockno b c m e = record {
  linked = m;
  names = (ground arith, ground arith);
  counted = λ _ _. ground arith;
  recycled = λ w. absurd (ground arith);
  rest = λ j d. ground arith;
  order = refl;
  unique = λ u i j mi mj z d n. u i j mi mj (ground arith) (ground arith) (ground arith);
}

recycle-Got :
    (dev blockno b : ℕ) (c : Bcache)
    → Memᴰ b c.mru
    → is_unused c.buf b ≡ true
    → ((j : ℕ) → Memᴰ j c.mru → is_cached c.buf dev blockno j ≡ false)
    → Got c (recycle dev blockno b c) dev blockno b
unfolding recycle
recycle-Got dev blockno b c m e new = record {
  linked = m;
  names = (ground arith, ground arith);
  counted = λ p q. absurd (ground (arith, new b m));
  recycled = λ _. (ground arith, ground arith, ground arith, ground arith);
  rest = λ j d. ground arith;
  order = refl;
  unique = λ u i j mi mj z d n. elim (Bool-cases (b == i)) [
    | inl here ↦ elim (Bool-cases (b == j)) [
      | inl also ↦ ground arith
      | inr away ↦ absurd (ground (arith, new j mj))
    ]
    | inr there ↦ elim (Bool-cases (b == j)) [
      | inl also ↦ absurd (ground (arith, new i mi))
      | inr away ↦ u i j mi mj (ground arith) (ground arith) (ground arith)
    ]
  ];
}

-- `bget` returns a buffer of the list that names the block: the one that has it, with one reference
-- more, or else one without references and without unsaved data, recycled. No other buffer and not
-- the order of the list changes, and blocks stay in one buffer each. It panics exactly when the
-- block is in no buffer and every buffer has references or unsaved data.
pub bget_lem : (dev blockno : ℕ) (c : Bcache) → BgetResult c dev blockno (bget dev blockno c)
unfolding bget find_unused BgetResult
bget_lem dev blockno c = elim (Option-cases (find_first (is_cached c.buf dev blockno) c.mru)) [
  | inl none_cached ↦
      let new = λ (j : ℕ) (m : Memᴰ j c.mru).
        find_first-none (is_cached c.buf dev blockno) c.mru j none_cached m in
      elim (Option-cases (find_last (is_unused c.buf) c.mru)) [
        | inl none_free ↦
            rw (none_cached, bget, none_free, find_unused)
              (λ j m. (new j m, busy j (find_last-none (is_unused c.buf) c.mru j none_free m)))
        | inr (b, free) ↦
            let (m, e) = find_last-some (is_unused c.buf) c.mru b free in
            rw (none_cached, bget, free, find_unused) (recycle-Got dev blockno b c m e new)
      ]
  | inr (b, cached) ↦
      let (m, e) = find_first-some (is_cached c.buf dev blockno) c.mru b cached in
      rw (cached, bget) (share-Got dev blockno b c m e)
]
  where
    busy : (j : ℕ) → is_unused c.buf j ≡ false → ((c.buf j).refcnt ≢ 0) ⊎ ((c.buf j).dirty ≡ true)
    busy j e = ground arith

pub got :
    (dev blockno b : ℕ) (c c' : Bcache) → bget dev blockno c ≡ some (b, c') → Got c c' dev blockno b
unfolding BgetResult
got dev blockno b c c' e = subst (λ r. BgetResult c dev blockno r) e (bget_lem dev blockno c)
