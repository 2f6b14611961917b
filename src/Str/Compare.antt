-- ===== src/Str/Compare.antt =====
-- `memcmp` and `strncmp` return 0 exactly on equal bytes.
use slab_study.Common.{
  ℕ, zero, suc, ◌+◌, ◌-◌, ◌<◌, ◌≡◌, ◌≢◌, ◌⊎◌, ◌↔◌, ◌∙◌, inl, inr, refl, ap, sym, true, false, arith,
  ◌==◌, Bool-cases, pos,
}
use slab_study.Str.{byte_diff, memcmp, strncmp}

byte_diff_zero : (a b : ℕ) → byte_diff a b ≡ pos 0 → a ≡ b
unfolding byte_diff
byte_diff_zero a b e = ground arith

memcmp_sound :
    (mem : ℕ → ℕ) (n s1 s2 k : ℕ) → memcmp mem s1 s2 n ≡ pos 0 → k < n → mem (s1 + k) ≡ mem (s2 + k)
unfolding memcmp
memcmp_sound mem zero s1 s2 k e l = absurd (omega arith)
memcmp_sound mem (suc n) s1 s2 k e l = elim (Bool-cases (mem s1 == mem s2)) [
  | inl same ↦ elim (Bool-cases (k == 0)) [
    | inl first ↦ ground arith
    | inr later ↦
        ground (arith, memcmp_sound mem n (s1 + 1) (s2 + 1) (k - 1) (ground arith) (ground arith))
  ]
  | inr other ↦ absurd (ground (arith, byte_diff_zero (mem s1) (mem s2)))
]

memcmp_complete :
    (mem : ℕ → ℕ) (n s1 s2 : ℕ)
    → ((k : ℕ) → k < n → mem (s1 + k) ≡ mem (s2 + k))
    → memcmp mem s1 s2 n ≡ pos 0
unfolding memcmp
memcmp_complete mem zero s1 s2 h = refl
memcmp_complete mem (suc n) s1 s2 h = ground (
  arith,
  h 0 (omega arith),
  memcmp_complete mem n (s1 + 1) (s2 + 1) (λ k l. ground (arith, h (k + 1) (omega arith))),
)

-- `memcmp` returns 0 exactly if the two ranges hold the same bytes.
pub memcmp_lem :
    (mem : ℕ → ℕ) (s1 s2 n : ℕ)
    → (memcmp mem s1 s2 n ≡ pos 0) ↔ ((k : ℕ) → k < n → mem (s1 + k) ≡ mem (s2 + k))
memcmp_lem mem s1 s2 n = (λ e k l. memcmp_sound mem n s1 s2 k e l, memcmp_complete mem n s1 s2)

-- The strings at `p` and `q` agree in their first `n` bytes, or up to the end of the first.
abbrev pub Agree : (ℕ → ℕ) → ℕ → ℕ → ℕ → Type 0
Agree mem p q n = (k : ℕ) → k < n → ((j : ℕ) → j < k → mem (p + j) ≢ 0) → mem (p + k) ≡ mem (q + k)

byte_diff_same : (a b : ℕ) → a ≡ b → byte_diff a b ≡ pos 0
unfolding byte_diff
byte_diff_same a b e = ground arith

-- Agreement, a byte further on.
Agree-tail :
    (mem : ℕ → ℕ) (n p q : ℕ) → mem p ≢ 0 → Agree mem p q (suc n) → Agree mem (p + 1) (q + 1) n
Agree-tail mem n p q live h k l before =
    let e1 : p + (k + 1) ≡ p + 1 + k = omega arith in
    let e2 : q + (k + 1) ≡ q + 1 + k = omega arith in
    ap mem (sym e1) ∙ h (k + 1) (omega arith) (λ j m. started j m (Bool-cases (j == 0))) ∙ ap mem e2
  where
    started : (j : ℕ) → j < k + 1 → ((j == 0) ≡ true) ⊎ ((j == 0) ≡ false) → mem (p + j) ≢ 0
    started j m (inl first) z = live (let e : p ≡ p + j = ground arith in ap mem e ∙ z)
    started j m (inr more) z =
        before (j - 1) (ground arith)
          (let e : p + 1 + (j - 1) ≡ p + j = ground arith in ap mem e ∙ z)

Agree-extend :
    (mem : ℕ → ℕ) (n p q : ℕ)
    → mem p ≡ mem q
    → (mem p ≢ 0 → Agree mem (p + 1) (q + 1) n)
    → Agree mem p q (suc n)
Agree-extend mem n p q same tail k l before = elim (Bool-cases (k == 0)) [
  | inl first ↦
      let e : k ≡ 0 = ground arith in
      let e1 : p + k ≡ p = omega arith in
      let e2 : q ≡ q + k = omega arith in ap mem e1 ∙ same ∙ ap mem e2
  | inr later ↦
      let e1 : p + k ≡ p + 1 + (k - 1) = ground arith in
      let e2 : q + 1 + (k - 1) ≡ q + k = ground arith in
      let live : mem p ≢ 0 =
        λ z. before 0 (ground arith) (let e : p + 0 ≡ p = omega arith in ap mem e ∙ z) in
      ap mem e1
      ∙ tail live (k - 1) (ground arith) (λ j m z.
        before (j + 1) (ground arith)
          (let e : p + (j + 1) ≡ p + 1 + j = omega arith in ap mem e ∙ z))
      ∙ ap mem e2
]

strncmp_sound : (mem : ℕ → ℕ) (n p q : ℕ) → strncmp mem p q n ≡ pos 0 → Agree mem p q n
unfolding strncmp
strncmp_sound mem zero p q e = λ k l before. absurd (omega arith)
strncmp_sound mem (suc n) p q e = elim (Bool-cases (mem p == mem q)) [
  | inl same ↦
      Agree-extend mem n p q (ground arith)
        (λ live. strncmp_sound mem n (p + 1) (q + 1) (ground arith))
  | inr other ↦ absurd (ground (arith, byte_diff_zero (mem p) (mem q)))
]

strncmp_complete : (mem : ℕ → ℕ) (n p q : ℕ) → Agree mem p q n → strncmp mem p q n ≡ pos 0
unfolding strncmp
strncmp_complete mem zero p q h = refl
strncmp_complete mem (suc n) p q h =
    let same = first_byte in
    elim (Bool-cases (mem p == 0)) [
      | inl ended ↦ ground (arith, same, byte_diff_same (mem p) (mem q) same)
      | inr live ↦ ground (
        arith,
        same,
        strncmp_complete mem n (p + 1) (q + 1) (Agree-tail mem n p q (ground arith) h),
      )
    ]
  where
    first_byte : mem p ≡ mem q
    first_byte =
        let e1 : p ≡ p + 0 = omega arith in
        let e2 : q + 0 ≡ q = omega arith in
        ap mem e1 ∙ h 0 (omega arith) (λ j m. absurd (omega arith)) ∙ ap mem e2

-- `strncmp` returns 0 exactly if the strings agree in their first `n` bytes, or up to and with the
-- NUL of the first.
pub strncmp_lem : (mem : ℕ → ℕ) (p q n : ℕ) → (strncmp mem p q n ≡ pos 0) ↔ Agree mem p q n
strncmp_lem mem p q n = (strncmp_sound mem n p q, strncmp_complete mem n p q)
