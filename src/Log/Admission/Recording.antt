-- ===== src/Log/Admission/Recording.antt =====
-- `log_write` records a block in the list of the transaction.
use mathlib.Core.Path.{subst}
use mathlib.Core.Option.{some-injective}
use slab_study.Common.{
  ◌∙◌, ℕ, ◌+◌, ◌≤◌, ◌<◌, ◌≡◌, ◌≢◌, ◌⊎◌, ◌||◌, inl, inr, refl, ap, sym, true, arith, ltb, leb, ◌==◌,
  update, Bool-cases, find_index, find_index-some, find_index-none, Option-cases, some,
}
use slab_study.Log.Admission.{Log, slot_of, record_block, log_write, log_size}

-- The block is in the list of the transaction.
abbrev pub IsListed : Log → ℕ → Type 0
IsListed l b = (i : ℕ) × (i < l.n) × (l.block i ≡ b)

-- No block is in the list twice.
abbrev pub IsDistinct : Log → Type 0
IsDistinct l = (i j : ℕ) → i < l.n → j < l.n → l.block i ≡ l.block j → i ≡ j

-- Where `log_write` records a block: in its old place, or in a new one at the end.
slot_of-cases :
    (l : Log) (b : ℕ)
    → ((slot_of l b < l.n) × (l.block (slot_of l b) ≡ b))
      ⊎ ((slot_of l b ≡ l.n) × ((j : ℕ) → j < l.n → l.block j ≢ b))
unfolding slot_of
slot_of-cases l b = elim (Option-cases (find_index (λ i. l.block i == b) 0 l.n)) [
  | inl e ↦
      inr (rw (e, slot_of), λ j m. ground (arith, find_index-none (λ i. l.block i == b) 0 l.n e j))
  | inr (i, e) ↦
      let w = find_index-some (λ i. l.block i == b) 0 l.n e in
      inl (rw (e, slot_of) (omega (arith, w.below)), rw (e, slot_of) (ground (arith, w.hit)))
]

-- What `log_write` owes to the list.
pub record Recorded (l l' : Log) (b : ℕ) : Type 0 where
  pub listed : IsListed l' b
  pub pinned : l'.dirty b ≡ true
  pub grown : (l.n ≤ l'.n) × (l'.n ≤ l.n + 1)
  pub kept : (i : ℕ) → i < l.n → l'.block i ≡ l.block i
  pub absorbed : IsListed l b → l'.n ≡ l.n
  pub appended : ((i : ℕ) → i < l.n → l.block i ≢ b) → (l'.n ≡ l.n + 1) × (l'.block l.n ≡ b)
  pub distinct : IsDistinct l → IsDistinct l'
  pub rest : (l'.outstanding ≡ l.outstanding) × (l'.committing ≡ l.committing) × (l'.size ≡ l.size)

record_block-Recorded : (l : Log) (b : ℕ) → Recorded l (record_block b l) b
unfolding record_block
record_block-Recorded l b = elim (slot_of-cases l b) [
  | inl (m, same) ↦ record {
    listed = (slot_of l b, ground arith, ground arith);
    pinned = ground arith;
    grown = (ground arith, ground arith);
    kept = λ i k. elim (Bool-cases (slot_of l b == i)) [
      | inl here ↦ rw here (sym same ∙ ap l.block (at i here))
      | inr away ↦ rw away
    ];
    absorbed = λ _. ground arith;
    appended = λ new. absurd (new (slot_of l b) m same);
    distinct = λ d i j li lj e.
        d i j (ground arith) (ground arith) (sym (old i m same) ∙ e ∙ old j m same);
    rest = (refl, refl, refl);
  }
  | inr (last, fresh) ↦ record {
    listed = (slot_of l b, ground arith, ground arith);
    pinned = ground arith;
    grown = (ground arith, ground arith);
    kept = λ i k. ground arith;
    absorbed = λ w. absurd (fresh w.0 w.1 w.2);
    appended = λ _. (ground arith, ground arith);
    distinct = λ d i j li lj e. elim (Bool-cases (slot_of l b == i)) [
      | inl here ↦ elim (Bool-cases (slot_of l b == j)) [
        | inl also ↦ ground arith
        | inr away ↦ absurd (fresh j (ground arith) (ground arith))
      ]
      | inr there ↦ elim (Bool-cases (slot_of l b == j)) [
        | inl also ↦ absurd (fresh i (ground arith) (ground arith))
        | inr away ↦ d i j (ground arith) (ground arith) (ground arith)
      ]
    ];
    rest = (refl, refl, refl);
  }
]
  where
    at : (i : ℕ) → (slot_of l b == i) ≡ true → slot_of l b ≡ i
    at i h = ground arith

    old :
        (i : ℕ)
        → slot_of l b < l.n
        → l.block (slot_of l b) ≡ b
        → update l.block (slot_of l b) b i ≡ l.block i
    old i m same = elim (Bool-cases (slot_of l b == i)) [
      | inl here ↦ rw here (sym same ∙ ap l.block (at i here))
      | inr away ↦ rw away
    ]

-- `log_write` of a block, where it does not panic: the block is in the list and pinned in the
-- cache, no other block leaves its place, the list grows at its end by a block it does not have, and
-- not at all by a block it has, and it stays free of repetitions.
pub log_write_lem : (l l' : Log) (b : ℕ) → log_write b l ≡ some l' → Recorded l l' b
unfolding log_write
log_write_lem l l' b e =
    elim (Bool-cases ((leb log_size l.n || leb l.size (l.n + 1)) || ltb l.outstanding 1)) [
      | inl panics ↦ absurd (ground arith)
      | inr goes ↦
          subst (λ x. Recorded l x b) (some-injective _ _ (rw goes at e))
            (record_block-Recorded l b)
    ]
