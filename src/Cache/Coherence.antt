-- ===== src/Cache/Coherence.antt =====
-- However the cache is used, a block is in one buffer at most, and no buffer is lost.
use mathlib.Core.List.{Memᴰ}
use mathlib.Core.List.Memᴰ.{head, tail}
use mathlib.Core.Path.{subst}
use slab_study.Common.{
  ℕ, zero, suc, ◌+◌, ◌<◌, ◌≤◌, ◌≡◌, inl, inr, refl, sym, arith, some, Bool, ◌==◌, List, [], ◌∷◌,
  Bool-cases,
}
use slab_study.Cache.{Bcache, nbuf, link_all, binit, bget, brelse}
use slab_study.Cache.Lookup.{IsUnique, Got, got}
use slab_study.Cache.Release.{brelse_lem}

-- The states of the cache that calls of `bget` and `brelse` lead to. Between them, the file system,
-- the log and the disk driver set the flags of the buffers: `flags` says which.
pub data Reach : Bcache → Type 0 where
  boot : Reach binit
  gets :
      {c c' : Bcache} (dev blockno b : ℕ) → Reach c → bget dev blockno c ≡ some (b, c') → Reach c'
  puts : {c : Bcache} (b : ℕ) → Reach c → Memᴰ b c.mru → 0 < (c.buf b).refcnt → Reach (brelse b c)
  flags :
      {c : Bcache} (valid dirty : ℕ → Bool)
      → Reach c
      → Reach (record c { buf = λ b. record (c.buf b) { valid = valid b; dirty = dirty b } })

link_all_old : (b n j : ℕ) (l : List ℕ) → Memᴰ j l → Memᴰ j (link_all b n l)
unfolding link_all
link_all_old b zero j l m = m
link_all_old b (suc n) j l m = link_all_old (b + 1) n j (b ∷ l) (tail m)

link_all_new : (b n j : ℕ) (l : List ℕ) → b ≤ j → j < b + n → Memᴰ j (link_all b n l)
unfolding link_all
link_all_new b zero j l p q = absurd (omega arith)
link_all_new b (suc n) j l p q = elim (Bool-cases (j == b)) [
  | inl here ↦ link_all_old (b + 1) n j (b ∷ l) (head (ground arith))
  | inr later ↦ link_all_new (b + 1) n j (b ∷ l) (ground arith) (omega arith)
]

-- Every buffer is in the list.
abbrev pub Complete : Bcache → Type 0
Complete c = (b : ℕ) → b < nbuf → Memᴰ b c.mru

-- In every state that the cache reaches from `binit`, by calls of `bget` that do not panic and of
-- `brelse` with a buffer in use, and by changes of the flags between them, every buffer is in the
-- list, and no block of a device other than 0 is in two buffers of the list.
pub cache_is_coherent : (c : Bcache) → Reach c → IsUnique c × Complete c
unfolding binit
cache_is_coherent _ boot =
    (λ i j mi mj z. absurd (z refl), λ b l. link_all_new 0 nbuf b [] (omega arith) (omega arith))
cache_is_coherent c' (gets {c = c} dev blockno b r e) =
    let (unique, all) = cache_is_coherent c r in
    let g : Got c c' dev blockno b = got dev blockno b c c' e in
    (g.unique unique, λ j l. subst (λ m. Memᴰ j m) (sym g.order) (all j l))
cache_is_coherent _ (puts {c = c} b r m used) =
    let (unique, all) = cache_is_coherent c r in
    let p = brelse_lem b c m used in (p.unique unique, λ j l. (p.members j).1 (all j l))
cache_is_coherent _ (flags {c = c} valid dirty r) =
    let (unique, all) = cache_is_coherent c r in (λ i j. unique i j, all)
