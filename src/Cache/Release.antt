-- ===== src/Cache/Release.antt =====
-- A buffer that is released stays in the list, in front if nobody else uses it.
use mathlib.Core.List.{Memᴰ}
use mathlib.Core.List.Memᴰ.{head, tail, cast}
use slab_study.Common.{
  ℕ, ◌-◌, ◌<◌, ◌≡◌, ◌≢◌, ◌↔◌, inl, inr, sym, ◌∙◌, arith, false, ◌==◌, List, [], ◌∷◌, Bool-cases,
}
use slab_study.Cache.{Bcache, unlink, brelse}
use slab_study.Cache.Lookup.{IsUnique}

unlink_from : (b j : ℕ) (l : List ℕ) → Memᴰ j (unlink b l) → Memᴰ j l
unfolding unlink
unlink_from b j [] m = elim m [ ]
unlink_from b j (x ∷ l) m = elim (Bool-cases (x == b)) [
  | inl same ↦ tail (rw same at m)
  | inr other ↦ elim (rw other at m) [ head e ↦ head e | tail n ↦ tail (unlink_from b j l n) ]
]

unlink_others : (b j : ℕ) (l : List ℕ) → j ≢ b → Memᴰ j l → Memᴰ j (unlink b l)
unfolding unlink
unlink_others b j [] d m = elim m [ ]
unlink_others b j (x ∷ l) d (head e) =
    let other : (x == b) ≡ false = ground (arith, e) in rw other (head e)
unlink_others b j (x ∷ l) d (tail m) = elim (Bool-cases (x == b)) [
  | inl same ↦ rw same m
  | inr other ↦ rw other (tail (unlink_others b j l d m))
]

-- What `brelse` leaves.
pub record Released (c c' : Bcache) (b : ℕ) : Type 0 where
  pub counted : c'.buf b ≡ record (c.buf b) { refcnt = (c.buf b).refcnt - 1 }
  pub rest : (j : ℕ) → j ≢ b → c'.buf j ≡ c.buf j
  pub members : (j : ℕ) → Memᴰ j c'.mru ↔ Memᴰ j c.mru
  pub recent : (c.buf b).refcnt ≡ 1 → (l : List ℕ) × (c'.mru ≡ b ∷ l)
  pub shared : 1 < (c.buf b).refcnt → c'.mru ≡ c.mru
  pub unique : IsUnique c → IsUnique c'

members_of : (b j : ℕ) (l : List ℕ) → Memᴰ b l → Memᴰ j (b ∷ unlink b l) ↔ Memᴰ j l
members_of b j l m = (out, into)
  where
    out : Memᴰ j (b ∷ unlink b l) → Memᴰ j l
    out (head e) = cast e m
    out (tail n) = unlink_from b j l n

    into : Memᴰ j l → Memᴰ j (b ∷ unlink b l)
    into n = elim (Bool-cases (j == b)) [
      | inl same ↦ head (ground arith)
      | inr other ↦ tail (unlink_others b j l (ground arith) n)
    ]

same_blocks :
    (c c' : Bcache)
    → ((j : ℕ) → ((c'.buf j).dev ≡ (c.buf j).dev) × ((c'.buf j).blockno ≡ (c.buf j).blockno))
    → ((j : ℕ) → Memᴰ j c'.mru → Memᴰ j c.mru)
    → IsUnique c
    → IsUnique c'
same_blocks c c' names back u i j mi mj z d n =
    let (di, ni) = names i in
    let (dj, nj) = names j in
    u i j (back i mi) (back j mj) (ground arith) (sym di ∙ d ∙ dj) (sym ni ∙ n ∙ nj)

-- `brelse` of a buffer of the list that has references gives up one of them and changes no other
-- buffer. The list keeps its members: its order too, if references are left, and otherwise the
-- buffer becomes the first. Blocks stay in one buffer each.
pub brelse_lem :
    (b : ℕ) (c : Bcache) → Memᴰ b c.mru → 0 < (c.buf b).refcnt → Released c (brelse b c) b
unfolding brelse
brelse_lem b c m used = record {
  counted = ground arith;
  rest = λ j d. ground arith;
  members = members;
  recent = λ e. (unlink b c.mru, ground arith);
  shared = λ e. ground arith;
  unique = same_blocks c (brelse b c) (λ j. (ground arith, ground arith)) (λ j. (members j).0);
}
  where
    members : (j : ℕ) → Memᴰ j (brelse b c).mru ↔ Memᴰ j c.mru
    members j = elim (Bool-cases ((c.buf b).refcnt - 1 == 0)) [
      | inl e ↦ rw (e, brelse) (members_of b j c.mru m)
      | inr e ↦ rw (e, brelse) (λ x. x, λ x. x)
    ]
