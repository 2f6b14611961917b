-- ===== src/Kalloc.antt =====
-- xv6_lab3/kalloc.c: the allocator of physical pages.
pub mod FreeList
pub mod Boot
pub mod Owners
mod Tests
use slab_study.Common.{
  ℕ, zero, suc, ◌+◌, ◌-◌, ◌/◌, ◌*◌, ◌%◌, ◌^◌, Bool, true, false, Option, some, none, leb, ltb, ◌==◌,
  ◌||◌, not, if◌then◌else◌, update,
}

-- `PGSIZE`, `KERNBASE` and `PHYSTOP`
abbrev pub page_size : ℕ
page_size = 4096

abbrev pub kern_base : ℕ
kern_base = 0x80000000

abbrev pub phys_top : ℕ
phys_top = 0xe000000

-- `V2P`, an unsigned difference
abbrev pub v2p : ℕ → ℕ
v2p v = (v + (2 ^ 32 - kern_base)) % 2 ^ 32

-- `kmem.freelist`, and the first word of each page, which is `next` of a page in the list. `end` is
-- the first address behind the kernel.
pub record Kmem : Type 0 where
  pub end : ℕ
  pub freelist : ℕ
  pub next : ℕ → ℕ

-- The guard of `kfree`, with the end of the kernel.
pub is_bad_page : ℕ → ℕ → Bool
is_bad_page kernel_end v = not (v % page_size == 0) || ltb v kernel_end || leb phys_top (v2p v)

-- `none` is the panic "kfree". The junk that `memset` writes into the page is overwritten in its
-- first word, and no other word is modelled.
pub kfree : ℕ → Kmem → Option Kmem
unfolding is_bad_page
kfree v m =
    if is_bad_page m.end v
    then none
    else some (record m { next = update m.next v m.freelist; freelist = v })

-- 0 is a null pointer.
pub kalloc : Kmem → ℕ × Kmem
kalloc m = let r = m.freelist in if r == 0 then (r, m) else (r, record m { freelist = m.next r })

-- What the holder of a page writes into its first word.
pub scribble : ℕ → ℕ → Kmem → Kmem
scribble v x m = record m { next = update m.next v x }

-- `PGROUNDUP`
pub page_round_up : ℕ → ℕ
page_round_up a = (a + page_size - 1) % 2 ^ 32 / page_size * page_size

-- The loop of `freerange` for `n` pages from `p` on; `none` is the panic of `kfree`.
pub free_pages : ℕ → ℕ → Kmem → Option Kmem
free_pages p zero m = some m
free_pages p (suc n) m = elim (kfree p m) [
  | some m' ↦ free_pages (p + page_size) n m'
  | none ↦ none
]

-- The addresses of `freerange` do not reach 2 ^ 32.
pub freerange : ℕ → ℕ → Kmem → Option Kmem
freerange vstart vend m = let p = page_round_up vstart in free_pages p ((vend - p) / page_size) m
