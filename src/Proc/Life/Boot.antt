-- ===== src/Proc/Life/Boot.antt =====
-- `userinit`: the first process, in the process table as it is loaded.
use mathlib.Core.Path.{subst}
use mathlib.Core.Option.{some-injective}
use slab_study.Common.{Option, ℕ, ◌<◌, ◌≡◌, ◌≢◌, some, none, arith, pos, ◌==◌, Bool-cases, inl, inr}
use slab_study.Proc.Table.{Table, nproc, runnable, unused}
use slab_study.Proc.Invariant.{IsValid}
use slab_study.Proc.Life.{Services, Kernel, init_into, init_from, userinit}
use slab_study.Proc.Life.Alloc.{taken, allocproc-cases}
use slab_study.Proc.Life.Preserve.{Valid}

module _ (s : Services) where
  -- The process table as it is loaded: no entry is in use, or has a pid, a parent or a priority.
  pub record IsBlank (k : Kernel s) : Type 0 where
    pub first : k.nextpid ≡ 1
    pub free : (i : ℕ) → (k.table i).state ≡ unused
    pub unnamed : (i : ℕ) → (k.table i).pid ≡ 0
    pub orphan : (i : ℕ) → (k.table i).parent ≡ none
    pub plain : (i : ℕ) → (k.table i).priority ≡ pos 0

  -- The first process in an otherwise blank table.
  first-Valid :
      (k : Kernel s) (t : Table) (i : ℕ)
      → IsBlank k
      → i < nproc
      → (t i).state ≡ runnable
      → (t i).pid ≡ 1
      → (t i).parent ≡ none
      → (t i).priority ≡ pos 0
      → ((j : ℕ) → j ≢ i → t j ≡ k.table j)
      → IsValid t 2 i
  first-Valid k t i b l r q o z frame = record {
    unique = λ x y lx ly d e. elim (Bool-cases (x == i)) [
      | inl here ↦ elim (Bool-cases (y == i)) [
        | inl also ↦ ground arith
        | inr away ↦ absurd (ground (arith, frame y, b.unnamed y))
      ]
      | inr away ↦ absurd (ground (arith, frame x, b.unnamed x))
    ];
    fresh = λ x lx. ground (arith, frame x, b.unnamed x);
    named = λ x lx u. ground (arith, frame x, b.free x);
    parented = λ x p lx e. absurd (ground (arith, frame x, b.orphan x));
    init_alive = (l, ground arith);
    ranked = λ x lx. elim (Bool-cases (x == i)) [
      | inl here ↦ let e : x ≡ i = ground arith in rw (e, z) (ground arith)
      | inr away ↦ rw (frame x (ground arith), b.plain x) (ground arith)
    ];
  }

  init_into-Valid :
      (i : ℕ) (k k' : Kernel s)
      → IsBlank k
      → i < nproc
      → init_into s i (taken s i k) ≡ some k'
      → Valid s k'
  unfolding init_into
  init_into-Valid i k k' b l e = elim (Bool-cases ((s.init_image (s.kalloc k.world).1).0 == 0)) [
    | inl failed ↦ absurd (ground arith)
    | inr done ↦ subst (Valid s) (some-injective _ _ (rw done at e)) (
        rw b.first (
          first-Valid k _ i b l (ground arith) (ground (arith, b.first))
            (ground (arith, b.orphan i)) (ground (arith, b.plain i)) (λ j d. ground arith)))
  ]

  -- `userinit` on the table as it is loaded makes it valid.
  pub userinit-Valid : (k k' : Kernel s) → IsBlank k → userinit s k ≡ some k' → Valid s k'
  unfolding userinit init_from
  userinit-Valid k k' b e = elim (allocproc-cases s k) [
    | inl full ↦ absurd (none_is_none (rw (full, userinit, init_from) at e))
    | inr (i, l, free, how) ↦ elim how [
      | inl (page, lost) ↦ absurd (none_is_none (rw (lost, userinit, init_from) at e))
      | inr (page, got) ↦ init_into-Valid i k k' b l (rw (got, userinit, init_from) at e)
    ]
  ]
    where
      none_is_none : ◌≡◌ {A = Option (Kernel s)} none (some k') → ⊥
      none_is_none q = cc
