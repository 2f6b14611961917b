-- ===== src/Kalloc/Boot.antt =====
-- `freerange`: the pages of a range are put on the free list.
use slab_study.Common.{
  ℕ, zero, suc, ◌+◌, ◌-◌, ◌*◌, ◌/◌, ◌%◌, ◌<◌, ◌≤◌, ◌≡◌, ◌⊎◌, inl, inr, refl, true, false, arith,
  List, [], ◌∷◌, some, leb, Bool-cases,
}
use slab_study.Kalloc.{
  Kmem, is_bad_page, page_size, kern_base, phys_top, v2p, page_round_up, free_pages, freerange,
}
use slab_study.Kalloc.FreeList.{Lacks, Frees, kfree_lem}

-- `n` pages from `p` on, the last of them first, before the pages `xs`.
unfoldable pub stack_pages : ℕ → ℕ → List ℕ → List ℕ
stack_pages p zero xs = xs
stack_pages p (suc n) xs = stack_pages (p + page_size) n (p ∷ xs)

abbrev AllBelow : ℕ → List ℕ → Type 0
AllBelow p [] = Unit {0}
AllBelow p (x ∷ xs) = (x < p) × AllBelow p xs

below-Lacks : (p : ℕ) (xs : List ℕ) → AllBelow p xs → Lacks p xs
below-Lacks p [] b = tt
below-Lacks p (x ∷ xs) b = (λ e. absurd (omega (arith, b.0, e)), below-Lacks p xs b.1)

raise-AllBelow : (p q : ℕ) (xs : List ℕ) → p ≤ q → AllBelow p xs → AllBelow q xs
raise-AllBelow p q [] l b = tt
raise-AllBelow p q (x ∷ xs) l b = (omega (arith, b.0, l), raise-AllBelow p q xs l b.1)

good_range :
    (kernel_end p : ℕ)
    → p % page_size ≡ 0
    → kernel_end ≤ p
    → kern_base ≤ p
    → p < kern_base + phys_top
    → is_bad_page kernel_end p ≡ false
unfolding is_bad_page
good_range kernel_end p a k b t =
    let physical : v2p p ≡ p - kern_base = omega (arith, b, t) in ground (arith, physical)

free_pages_lem :
    (n p : ℕ) (m : Kmem) (xs : List ℕ)
    → Frees m xs
    → AllBelow p xs
    → p % page_size ≡ 0
    → m.end ≤ p
    → kern_base ≤ p
    → p + page_size * n ≤ kern_base + phys_top
    → (m' : Kmem) × (free_pages p n m ≡ some m') × Frees m' (stack_pages p n xs)
unfolding free_pages stack_pages
free_pages_lem zero p m xs f b a k l t = (m, refl, f)
free_pages_lem (suc n) p m xs f b a k l t =
    let (m1, ran, g, same) =
      kfree_lem p xs f (below-Lacks p xs b) (good_range m.end p a k l (omega arith)) in
    let (m2, rest, h) =
      free_pages_lem n (p + page_size) m1 (p ∷ xs) g
        (omega arith, raise-AllBelow p (p + page_size) xs (omega arith) b) (omega arith)
        (omega (arith, same)) (omega arith) (omega arith) in
    (m2, rw (ran, free_pages) rest, h)

-- `freerange` of a range that lies behind the kernel and in the memory that the kernel maps does not
-- panic. It puts the whole pages of the range on the empty free list, each of them once.
pub freerange_lem :
    (vstart vend : ℕ) (m : Kmem)
    → Frees m []
    → m.end ≤ vstart
    → kern_base ≤ vstart
    → vend ≤ kern_base + phys_top
    → vstart ≤ vend
    → (m' : Kmem) × (freerange vstart vend m ≡ some m')
      × Frees m' (stack_pages (page_round_up vstart) ((vend - page_round_up vstart) / page_size) [])
unfolding freerange page_round_up
freerange_lem vstart vend m f k l t o =
    free_pages_lem _ _ m [] f tt (omega arith) (omega (arith, k, l, t, o)) (omega (arith, l, t, o))
      (ends (Bool-cases (leb (page_round_up vstart) vend)))
  where
    ends :
        ((leb (page_round_up vstart) vend ≡ true) ⊎ (leb (page_round_up vstart) vend ≡ false))
        → page_round_up vstart + page_size * ((vend - page_round_up vstart) / page_size)
          ≤ kern_base + phys_top
    ends (inl a) = let below : page_round_up vstart ≤ vend = ground arith in omega (arith, below, t)
    ends (inr a) =
        let above : vend < page_round_up vstart = ground arith in omega (arith, above, t, o, l)
