-- ===== src/Kalloc/Owners.antt =====
-- Every page has one owner: the allocator, or who got it from `kalloc`.
use mathlib.Core.Option.{some-injective}
use mathlib.Core.Path.{subst}
use slab_study.Common.{
  ℕ, ◌<◌, ◌≡◌, ◌≢◌, ◌⊎◌, ◌∙◌, inl, inr, refl, sym, List, [], ◌∷◌, some, none, Option, Bool-cases,
}
use slab_study.Kalloc.{Kmem, is_bad_page, kfree, kalloc, scribble}
use slab_study.Kalloc.FreeList.{Lacks, Frees, Allocated, kfree_lem, kalloc_lem, scribble-Frees}

-- `owned` without one page `v`.
pub data Takes (v : ℕ) : List ℕ → List ℕ → Type 0 where
  here : {xs : List ℕ} → Takes v (v ∷ xs) xs
  there : {x : ℕ} {xs ys : List ℕ} → Takes v xs ys → Takes v (x ∷ xs) (x ∷ ys)

abbrev pub AllDifferent : List ℕ → Type 0
AllDifferent [] = Unit {0}
AllDifferent (x ∷ xs) = Lacks x xs × AllDifferent xs

-- The allocator and the pages `owned` by its callers. At the start it has no page, and its callers,
-- the boot code among them, own different pages. They give pages back with `kfree`, get pages from
-- `kalloc`, and write into the pages that they own.
pub data Reach : Kmem → List ℕ → Type 0 where
  start :
      (m : Kmem) (owned : List ℕ) → m.freelist ≡ 0 → 0 < m.end → AllDifferent owned → Reach m owned
  frees :
      {m m' : Kmem} {owned left : List ℕ} (v : ℕ)
      → Reach m owned
      → Takes v owned left
      → kfree v m ≡ some m'
      → Reach m' left
  allocates :
      {m m' : Kmem} {owned : List ℕ} (r : ℕ)
      → Reach m owned
      → kalloc m ≡ (r, m')
      → r ≢ 0
      → Reach m' (r ∷ owned)
  writes :
      {m : Kmem} {owned left : List ℕ} (v x : ℕ)
      → Reach m owned
      → Takes v owned left
      → Reach (scribble v x m) owned

-- No page of the first list is in the second.
abbrev Apart : List ℕ → List ℕ → Type 0
Apart [] ys = Unit {0}
Apart (x ∷ xs) ys = Lacks x ys × Apart xs ys

Takes-Lacks : {v x : ℕ} {xs ys : List ℕ} → Takes v xs ys → Lacks x xs → (x ≢ v) × Lacks x ys
Takes-Lacks here l = l
Takes-Lacks (there t) l = let r = Takes-Lacks t l.1 in (r.0, (l.0, r.1))

Takes-different :
    {v : ℕ} {xs ys : List ℕ} → Takes v xs ys → AllDifferent xs → Lacks v ys × AllDifferent ys
Takes-different here d = d
Takes-different (there t) d =
    let r = Takes-different t d.1 in
    let l = Takes-Lacks t d.0 in (((λ e. l.0 (sym e)), r.0), (l.1, r.1))

Takes-Apart :
    {v : ℕ} {xs ys : List ℕ} (fs : List ℕ) → Takes v xs ys → Apart fs xs → Lacks v fs × Apart fs ys
Takes-Apart [] t a = (tt, tt)
Takes-Apart (f ∷ fs) t a =
    let l = Takes-Lacks t a.0 in
    let r = Takes-Apart fs t a.1 in (((λ e. l.0 (sym e)), r.0), (l.1, r.1))

Apart-extend : (r : ℕ) (fs xs : List ℕ) → Lacks r fs → Apart fs xs → Apart fs (r ∷ xs)
Apart-extend r [] xs l a = tt
Apart-extend r (f ∷ fs) xs l a = (((λ e. l.0 (sym e)), a.0), Apart-extend r fs xs l.1 a.1)

-- The free list, apart from the pages that are owned.
record Separate (m : Kmem) (owned : List ℕ) : Type 0 where
  free : List ℕ
  frees_all : Frees m free
  apart : Apart free owned
  different : AllDifferent owned

freed_page :
    {m m' : Kmem} (v : ℕ) (fs : List ℕ)
    → Frees m fs
    → Lacks v fs
    → kfree v m ≡ some m'
    → Frees m' (v ∷ fs)
unfolding kfree
freed_page {m} {m'} v fs f l e = elim (Bool-cases (is_bad_page m.end v)) [
  | inl bad ↦ absurd (not_some (sym (rw (bad, kfree) refl) ∙ e))
  | inr good ↦
      let (m1, ran, g, same) = kfree_lem v fs f l good in
      subst (λ x. Frees x (v ∷ fs)) (some-injective _ _ (sym ran ∙ e)) g
]
  where
    not_some : ◌≢◌ {A = Option Kmem} none (some m')
    not_some p = cc

next_page :
    (m : Kmem) {m' : Kmem} {owned : List ℕ} (r : ℕ) (s : List ℕ)
    → Allocated m s (r, m')
    → r ≢ 0
    → Apart s owned
    → (rest : List ℕ) × Lacks r owned × Lacks r rest × Frees m' rest × Apart rest owned
next_page m r [] a nz p = absurd (nz a.0)
next_page m {owned = owned} r (x ∷ xs) a nz p =
    (xs, subst (λ y. Lacks y owned) (sym a.0) p.0, a.2, a.3, p.1)

Reach-Separate : {m : Kmem} {owned : List ℕ} → Reach m owned → Separate m owned
Reach-Separate (start m owned z k d) = record {
  free = [];
  frees_all = record { kernel = k; chain = z; good = tt };
  apart = tt;
  different = d;
}
Reach-Separate (frees {m = m} v r t e) =
    let s = Reach-Separate r in
    let (lacks, apart) = Takes-Apart s.free t s.apart in
    let (gone, different) = Takes-different t s.different in
    record {
      free = v ∷ s.free;
      frees_all = freed_page v s.free s.frees_all lacks e;
      apart = (gone, apart);
      different = different;
    }
Reach-Separate (allocates {m = m} {owned = owned} a r e nz) =
    let s = Reach-Separate r in
    let (rest, unowned, once, f, apart) =
      next_page m a s.free (subst (Allocated m s.free) e (kalloc_lem m s.free s.frees_all)) nz
        s.apart in
    record {
      free = rest;
      frees_all = f;
      apart = Apart-extend a rest owned once apart;
      different = (unowned, s.different);
    }
Reach-Separate (writes {m = m} v x r t) =
    let s = Reach-Separate r in
    record {
      free = s.free;
      frees_all = scribble-Frees m v x s.free s.frees_all (Takes-Apart s.free t s.apart).0;
      apart = s.apart;
      different = s.different;
    }

-- While callers free only pages that they own, and write only into these: `kalloc` returns 0, or a
-- page that nobody owns; the pages that are owned are all different; and after the `kfree` of an owned
-- page, `kalloc` returns this page.
pub page_has_one_owner :
    (m : Kmem) (owned : List ℕ)
    → Reach m owned
    → (((kalloc m).0 ≡ 0) ⊎ Lacks (kalloc m).0 owned)
      × AllDifferent owned
      × ((v : ℕ) (left : List ℕ) (m' : Kmem)
          → Takes v owned left
          → kfree v m ≡ some m'
          → (kalloc m').0 ≡ v)
page_has_one_owner m owned r =
    let s = Reach-Separate r in
    (
      unowned s.free (kalloc_lem m s.free s.frees_all) s.apart,
      s.different,
      λ v left m' t e.
          (kalloc_lem m' (v ∷ s.free)
            (freed_page v s.free s.frees_all (Takes-Apart s.free t s.apart).0 e)).0,
    )
  where
    unowned :
        (fs : List ℕ)
        → Allocated m fs (kalloc m)
        → Apart fs owned
        → ((kalloc m).0 ≡ 0) ⊎ Lacks (kalloc m).0 owned
    unowned [] a p = inl a.0
    unowned (x ∷ xs) a p = inr (subst (λ y. Lacks y owned) (sym a.0) p.0)
