-- ===== src/Kalloc/FreeList.antt =====
-- The free list holds each free page once, and a page is never handed out twice.
use slab_study.Common.{ℕ, ◌<◌, ◌≡◌, ◌≢◌, refl, false, arith, ◌==◌, update, List, [], ◌∷◌, some}
use slab_study.Kalloc.{Kmem, is_bad_page, kfree, kalloc, scribble}

-- A page is in the list, once.
abbrev pub Lacks : ℕ → List ℕ → Type 0
Lacks v [] = Unit {0}
Lacks v (x ∷ xs) = (v ≢ x) × Lacks v xs

-- The pages on the list that begins at `p`.
abbrev pub Chain : (ℕ → ℕ) → ℕ → List ℕ → Type 0
Chain next p [] = p ≡ 0
Chain next p (x ∷ xs) = (p ≡ x) × (x ≢ 0) × Lacks x xs × Chain next (next x) xs

-- Every page of the list passes the guard of `kfree`.
abbrev pub AllGood : ℕ → List ℕ → Type 0
AllGood kernel_end [] = Unit {0}
AllGood kernel_end (x ∷ xs) = (is_bad_page kernel_end x ≡ false) × AllGood kernel_end xs

-- The free pages, in the order of the list.
pub record Frees (m : Kmem) (xs : List ℕ) : Type 0 where
  pub kernel : 0 < m.end
  pub chain : Chain m.next m.freelist xs
  pub good : AllGood m.end xs

-- A write into a page that is not on the list leaves the list.
Chain-update :
    (next : ℕ → ℕ) (p v x : ℕ) (xs : List ℕ)
    → Lacks v xs
    → Chain next p xs
    → Chain (update next v x) p xs
Chain-update next p v x [] l c = c
Chain-update next p v x (y ∷ xs) (d, l) (e, nz, once, c) =
    let same : update next v x y ≡ next y = ground arith in
    (e, nz, once, rw same (Chain-update next (next y) v x xs l c))

-- A page that passes the guard lies behind the kernel.
good_page : (kernel_end v : ℕ) → 0 < kernel_end → is_bad_page kernel_end v ≡ false → v ≢ 0
unfolding is_bad_page
good_page kernel_end v l e = ground arith

-- `kfree` of a page that passes its guard and is not on the free list puts it in front of the list.
pub kfree_lem :
    {m : Kmem} (v : ℕ) (xs : List ℕ)
    → Frees m xs
    → Lacks v xs
    → is_bad_page m.end v ≡ false
    → (m' : Kmem) × (kfree v m ≡ some m') × Frees m' (v ∷ xs) × (m'.end ≡ m.end)
unfolding kfree
kfree_lem {m} v xs f l ok =
    let here : update m.next v m.freelist v ≡ m.freelist = ground arith in
    (
      record m { next = update m.next v m.freelist; freelist = v },
      rw ok,
      record {
        kernel = f.kernel;
        chain = (
          refl,
          good_page m.end v f.kernel ok,
          l,
          rw here (Chain-update m.next m.freelist v m.freelist xs l f.chain),
        );
        good = (ok, f.good);
      },
      refl,
    )

-- `kalloc` returns 0 exactly when the free list is empty, and then changes nothing. Otherwise it
-- returns the first page of the list, which is not 0 and is not on the list any more.
abbrev pub Allocated : Kmem → List ℕ → ℕ × Kmem → Type 0
Allocated m [] (r, m') = (r ≡ 0) × (m' ≡ m)
Allocated m (x ∷ xs) (r, m') = (r ≡ x) × (r ≢ 0) × Lacks r xs × Frees m' xs

-- The result of `kalloc`, on a free list of any length: 0 and no change if the list is empty, and
-- otherwise its first page, which is not null and not on the list that is left.
pub kalloc_lem : (m : Kmem) (xs : List ℕ) → Frees m xs → Allocated m xs (kalloc m)
unfolding kalloc
kalloc_lem m [] f = let e : m.freelist ≡ 0 = f.chain in rw e (refl, refl)
kalloc_lem m (x ∷ xs) f =
    let (e, nz, once, c) = f.chain in
    let test : (m.freelist == 0) ≡ false = ground arith in
    rw (test, kalloc)
      (e, rw e nz, rw e once, record { kernel = f.kernel; chain = rw e c; good = f.good.1 })

-- A holder that writes into its page does not disturb the free list.
pub scribble-Frees :
    (m : Kmem) (v x : ℕ) (xs : List ℕ) → Frees m xs → Lacks v xs → Frees (scribble v x m) xs
unfolding scribble
scribble-Frees m v x xs f l = record {
  kernel = f.kernel;
  chain = Chain-update m.next m.freelist v x xs l f.chain;
  good = f.good;
}
