-- ===== src/Fs/Trunc/Frees.antt =====
-- Blocks that are given up one after the other.
use slab_study.Common.{
  ℕ, ◌+◌, ◌<◌, ◌≤◌, ◌≡◌, ◌≢◌, inl, inr, refl, sym, ap, ◌∙◌, arith, true, false, Option, some, none,
  ltb, ◌==◌, Bool-cases,
}
use slab_study.Fs.{Disk, Superblock}
use slab_study.Fs.Bitmap.{bfree}
use slab_study.Fs.Bitmap.Bits.{in_use}
use slab_study.Fs.Bitmap.Laws.{Layout, IsSound, BfreeResult, bfree_lem}
use slab_study.Fs.Bmap.Slots.{true-ne-false}
use slab_study.Fs.Trunc.{free_if}

module _ (sb : Superblock) (nmeta : ℕ) where
  -- The blocks that the slots `f` from `lo` to below `hi` name are free now, and no others.
  pub record Frees (f : ℕ → ℕ) (lo hi : ℕ) (d d' : Disk) : Type 0 where
    pub gone : (j : ℕ) → lo ≤ j → j < hi → f j ≢ 0 → in_use sb d' (f j) ≡ false
    pub kept :
        (c : ℕ) → ((j : ℕ) → lo ≤ j → j < hi → f j ≢ 0 → f j ≢ c) → in_use sb d' c ≡ in_use sb d c
    pub rest : (c : ℕ) → nmeta ≤ c → d' c ≡ d c
    pub sound : IsSound sb nmeta d'

  -- The slots from `lo` to below `hi` hold different data blocks in use.
  pub record Holds (f : ℕ → ℕ) (lo hi : ℕ) (d : Disk) : Type 0 where
    pub range : (j : ℕ) → lo ≤ j → j < hi → f j ≢ 0 → (nmeta ≤ f j) × (f j < sb.size)
    pub held : (j : ℕ) → lo ≤ j → j < hi → f j ≢ 0 → in_use sb d (f j) ≡ true
    pub once : (i j : ℕ) → lo ≤ i → i < hi → lo ≤ j → j < hi → f i ≢ 0 → f i ≡ f j → i ≡ j

  -- Slots that are 0 name no block.
  pub Frees-none :
      (f : ℕ → ℕ) (lo hi : ℕ) (d : Disk)
      → ((j : ℕ) → lo ≤ j → j < hi → f j ≡ 0)
      → IsSound sb nmeta d
      → Frees f lo hi d d
  Frees-none f lo hi d l s = record {
    gone = λ j p q z. absurd (z (l j p q));
    kept = λ c n. refl;
    rest = λ c n. refl;
    sound = s;
  }

  pub Frees-trans :
      (f : ℕ → ℕ) (lo mid hi : ℕ) (d d1 d2 : Disk)
      → lo ≤ mid
      → mid ≤ hi
      → Holds f lo hi d
      → Frees f lo mid d d1
      → Frees f mid hi d1 d2
      → Frees f lo hi d d2
  Frees-trans f lo mid hi d d1 d2 p q w g h = record {
    gone = λ j a b z. elim (Bool-cases (ltb j mid)) [
      | inl first ↦
          let below : j < mid = ground arith in
          h.kept (f j) (λ i u v y e.
            impossible i j (omega (arith, u, below)) (w.once i j (omega (arith, p, u)) v a b y e))
          ∙ g.gone j a below z
      | inr second ↦ h.gone j (ground arith) b z
    ];
    kept = λ c n.
        h.kept c (λ j a b z. n j (omega (arith, a)) b z)
        ∙ g.kept c (λ j a b z. n j a (omega (arith, b)) z);
    rest = λ c n. h.rest c n ∙ g.rest c n;
    sound = h.sound;
  }
    where
      impossible : (i j : ℕ) → j < i → i ≢ j
      impossible i j l e = absurd (omega arith)

  -- What is left to give up.
  pub Holds-rest :
      (f : ℕ → ℕ) (lo mid hi : ℕ) (d d1 : Disk)
      → lo ≤ mid
      → Holds f lo hi d
      → Frees f lo mid d d1
      → Holds f mid hi d1
  Holds-rest f lo mid hi d d1 p w g = record {
    range = λ j a b z. w.range j (omega (arith, a)) b z;
    held = λ j a b z.
        g.kept (f j) (λ i u v y e.
          impossible i j (omega (arith, a, v))
            (w.once i j u (omega (arith, a, b, v)) (omega (arith, a)) b y e))
        ∙ w.held j (omega (arith, a)) b z;
    once = λ i j a b u v z e. w.once i j (omega (arith, a)) b (omega (arith, u)) v z e;
  }
    where
      impossible : (i j : ℕ) → i < j → i ≢ j
      impossible i j l e = absurd (omega arith)

  pub Holds-part :
      (f : ℕ → ℕ) (lo mid hi : ℕ) (d : Disk) → mid ≤ hi → Holds f lo hi d → Holds f lo mid d
  Holds-part f lo mid hi d l w = record {
    range = λ j a b z. w.range j a (omega (arith, b)) z;
    held = λ j a b z. w.held j a (omega (arith, b)) z;
    once = λ i j a b u v z e. w.once i j a (omega (arith, b)) u (omega (arith, v)) z e;
  }

  module _ (lay : Layout sb nmeta) where
    -- One slot.
    pub free_if_lem :
        (f : ℕ → ℕ) (lo hi : ℕ) (d : Disk)
        → lo < hi
        → Holds f lo hi d
        → IsSound sb nmeta d
        → (d' : Disk) × (free_if sb (f lo) d ≡ some d') × Frees f lo (lo + 1) d d'
    unfolding free_if
    free_if_lem f lo hi d l w s = elim (Bool-cases (f lo == 0)) [
      | inl empty ↦
          rw (empty, free_if)
            (
              d,
              refl,
              record {
                gone = λ j a b z.
                    absurd (z (let same : j ≡ lo = omega arith in ap f same ∙ ground arith));
                kept = λ c n. refl;
                rest = λ c n. refl;
                sound = s;
              },
            )
      | inr there ↦
          rw (there, free_if)
            (given_up (bfree sb (f lo) d)
              (bfree_lem sb nmeta lay (f lo) d s (w.range lo (omega arith) l (ground arith)).0
                (w.range lo (omega arith) l (ground arith)).1)
              (w.held lo (omega arith) l (ground arith)) (ground arith))
    ]
      where
        given_up :
            (r : Option Disk)
            → BfreeResult sb nmeta d (f lo) r
            → in_use sb d (f lo) ≡ true
            → f lo ≢ 0
            → (d' : Disk) × (r ≡ some d') × Frees f lo (lo + 1) d d'
        given_up none free used z = absurd (true-ne-false sb nmeta (sym used ∙ free))
        given_up (some d') (was, g) used z = (
          d',
          refl,
          record {
            gone = λ j a b y.
                let same : j ≡ lo = omega (arith, a, b) in
                let own : (f lo == f lo) ≡ true = ground arith in
                ap (λ x. in_use sb d' (f x)) same ∙ g.bits (f lo) ∙ rw own refl;
            kept = λ c n.
                let away : (f lo == c) ≡ false = ne_test (n lo (omega arith) (omega arith) z) in
                g.bits c ∙ rw away refl;
            rest = g.rest;
            sound = g.sound;
          },
        )
          where
            ne_test : {x y : ℕ} → x ≢ y → (x == y) ≡ false
            ne_test d = ground arith
