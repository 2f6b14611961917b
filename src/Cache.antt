-- ===== src/Cache.antt =====
-- xv6_lab3/bio.c: the buffer cache. The circular list through `prev` and `next` is the list of its
-- buffers from `head.next` on, most recently used first.
pub mod Lookup
pub mod Release
pub mod Coherence
mod Tests
use slab_study.Common.{
  zero, suc, ℕ, ◌+◌, ◌-◌, Bool, true, false, Option, some, none, List, [], ◌∷◌, ◌==◌, ◌&&◌, not,
  if◌then◌else◌, update,
}

-- `struct buf`. Of its flags, `valid` is B_VALID and `dirty` is B_DIRTY; its data is what the disk
-- driver and the file system put there.
pub record Buf : Type 0 where
  pub valid : Bool
  pub dirty : Bool
  pub dev : ℕ
  pub blockno : ℕ
  pub refcnt : ℕ

-- `bcache`; a pointer to a buffer is its index.
pub record Bcache : Type 0 where
  pub buf : ℕ → Buf
  pub mru : List ℕ

-- `NBUF`
abbrev pub nbuf : ℕ
nbuf = 30

-- A buffer in the zeroed `bcache`.
abbrev pub zeroed : Buf
zeroed = record { valid = false; dirty = false; dev = 0; blockno = 0; refcnt = 0 }

-- The loop of `binit` over the `n` buffers from `b` on: each is linked behind `head`.
pub link_all : ℕ → ℕ → List ℕ → List ℕ
link_all b zero mru = mru
link_all b (suc n) mru = link_all (b + 1) n (b ∷ mru)

pub binit : Bcache
binit = record { buf = λ _. zeroed; mru = link_all 0 nbuf [] }

-- A walk from `head.next` along `next`, up to the first buffer that passes the test.
pub find_first : (ℕ → Bool) → List ℕ → Option ℕ
find_first test [] = none
find_first test (b ∷ rest) = let later = find_first test rest in if test b then some b else later

-- A walk from `head.prev` along `prev`.
pub find_last : (ℕ → Bool) → List ℕ → Option ℕ
find_last test [] = none
find_last test (b ∷ rest) = elim (find_last test rest) [
  | some c ↦ some c
  | none ↦ if test b then some b else none
]

-- `b->dev == dev && b->blockno == blockno`
abbrev pub is_cached : (ℕ → Buf) → ℕ → ℕ → ℕ → Bool
is_cached buf dev blockno b = (buf b).dev == dev && (buf b).blockno == blockno

-- `b->refcnt == 0 && (b->flags & B_DIRTY) == 0`
abbrev pub is_unused : (ℕ → Buf) → ℕ → Bool
is_unused buf b = (buf b).refcnt == 0 && not (buf b).dirty

-- The buffer `b` has the block: `b->refcnt++`. A count stays below the number of processes.
pub share : ℕ → Bcache → Bcache
share b c =
    let old = c.buf b in record c { buf = update c.buf b (record old { refcnt = old.refcnt + 1 }) }

-- The buffer `b` is given to another block.
pub recycle : ℕ → ℕ → ℕ → Bcache → Bcache
recycle dev blockno b c =
    let new : Buf = record {
      valid = false;
      dirty = false;
      dev = dev;
      blockno = blockno;
      refcnt = 1;
    } in
    record c { buf = update c.buf b new }

-- The second loop of `bget`; `none` is the panic "bget: no buffers".
pub find_unused : ℕ → ℕ → Bcache → Option (ℕ × Bcache)
find_unused dev blockno c = elim (find_last (is_unused c.buf) c.mru) [
  | some b ↦ some (b, recycle dev blockno b c)
  | none ↦ none
]

-- `bget`, up to `acquiresleep`.
pub bget : ℕ → ℕ → Bcache → Option (ℕ × Bcache)
unfolding find_unused
bget dev blockno c = elim (find_first (is_cached c.buf dev blockno) c.mru) [
  | some b ↦ some (b, share b c)
  | none ↦ find_unused dev blockno c
]

-- `b` taken out of the list.
pub unlink : ℕ → List ℕ → List ℕ
unlink b [] = []
unlink b (x ∷ rest) = let after = unlink b rest in if x == b then rest else x ∷ after

-- `brelse` behind `releasesleep`.
pub brelse : ℕ → Bcache → Bcache
brelse b c =
    let old = c.buf b in
    let left = old.refcnt - 1 in
    let c' = record c { buf = update c.buf b (record old { refcnt = left }) } in
    if left == 0 then record c' { mru = b ∷ unlink b c.mru } else c'
