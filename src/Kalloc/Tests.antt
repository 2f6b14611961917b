-- ===== src/Kalloc/Tests.antt =====
-- The page allocator at an input: the boot code owns two pages, and gives one of them to it.
use slab_study.Common.{ℕ, ◌≡◌, ◌⊎◌, refl, arith, List, [], ◌∷◌, some}
use slab_study.Kalloc.{Kmem, is_bad_page, kfree, kalloc}
use slab_study.Kalloc.FreeList.{Lacks}
use slab_study.Kalloc.Owners.{Takes, here, AllDifferent, Reach, start, frees, page_has_one_owner}

abbrev no_page : Kmem
no_page = record { end = 0x8010_0000; freelist = 0; next = λ _. 0 }

abbrev two_owned : List ℕ
two_owned = 0x8020_0000 ∷ 0x8020_1000 ∷ []

no_page-Reach : Reach no_page two_owned
no_page-Reach = start no_page two_owned refl (omega arith) ((omega arith, tt), (tt, tt))

given : (m : Kmem) × (kfree 0x8020_0000 no_page ≡ some m)
unfolding kfree is_bad_page
given = (record no_page { next = _; freelist = 0x8020_0000 }, refl)

page_has_one_owner_example :
    (((kalloc given.0).0 ≡ 0) ⊎ Lacks (kalloc given.0).0 (0x8020_1000 ∷ []))
    × AllDifferent (0x8020_1000 ∷ [])
    × ((v : ℕ) (left : List ℕ) (m : Kmem)
        → Takes v (0x8020_1000 ∷ []) left
        → kfree v given.0 ≡ some m
        → (kalloc m).0 ≡ v)
page_has_one_owner_example =
    page_has_one_owner given.0 (0x8020_1000 ∷ []) (frees 0x8020_0000 no_page-Reach here given.1)
