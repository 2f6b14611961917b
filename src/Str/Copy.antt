-- ===== src/Str/Copy.antt =====
-- `memmove` copies rightly, also where the two ranges overlap.
use slab_study.Common.{
  ℕ, zero, suc, ◌+◌, ◌-◌, ◌<◌, ◌≤◌, ◌≡◌, ◌⊎◌, inl, inr, refl, sym, ap, ◌∙◌, arith, true, false,
  ◌==◌, ◌&&◌, ltb, leb, if◌then◌else◌, update, Bool-cases,
}
use slab_study.Str.{copy_up, copy_down, memmove}

-- The memory `mem` with `n` bytes from `s` copied to `d`, all at once.
pub copied : (ℕ → ℕ) → ℕ → ℕ → ℕ → ℕ → ℕ
copied mem d s n j = if leb d j && ltb j (d + n) then mem (s + (j - d)) else mem j

copied_none : (mem : ℕ → ℕ) (d s j : ℕ) → mem j ≡ copied mem d s 0 j
unfolding copied
copied_none mem d s j = ground arith

-- The first byte of the rest of the copy lies behind the one that is written.
step_up_in :
    (n : ℕ) (mem : ℕ → ℕ) (d s j : ℕ)
    → (d ≤ s) ⊎ (s + n < d)
    → d < j
    → j < d + 1 + n
    → update mem d (mem s) (s + 1 + (j - (d + 1))) ≡ mem (s + (j - d))
step_up_in n mem d s j h l m =
    let same : s + 1 + (j - (d + 1)) ≡ s + (j - d) = omega arith in
    let away : (d == s + (j - d)) ≡ false = apart h in ap (update mem d (mem s)) same ∙ rw away refl
  where
    apart : (d ≤ s) ⊎ (s + n < d) → (d == s + (j - d)) ≡ false
    apart (inl before) = ground arith
    apart (inr behind) = ground arith

step_up :
    (n : ℕ) (mem : ℕ → ℕ) (d s j : ℕ)
    → (d ≤ s) ⊎ (s + n < d)
    → copied (update mem d (mem s)) (d + 1) (s + 1) n j ≡ copied mem d s (suc n) j
unfolding copied
step_up n mem d s j h = elim (Bool-cases (leb (d + 1) j && ltb j (d + 1 + n))) [
  | inl inside ↦
      let wide : (leb d j && ltb j (d + suc n)) ≡ true = ground arith in
      rw (inside, wide) (step_up_in n mem d s j h (ground arith) (ground arith))
  | inr outside ↦ rw outside (elim (Bool-cases (d == j)) [
    | inl here ↦
        let wide : (leb d j && ltb j (d + suc n)) ≡ true = ground arith in
        let none_on : s + (j - d) ≡ s = ground arith in rw (here, wide) (ap mem (sym none_on))
    | inr there ↦
        let wide : (leb d j && ltb j (d + suc n)) ≡ false = ground arith in rw (there, wide) refl
  ])
]

copy_up_lem :
    (n : ℕ) (mem : ℕ → ℕ) (d s j : ℕ)
    → (d ≤ s) ⊎ (s + n ≤ d)
    → copy_up mem d s n j ≡ copied mem d s n j
unfolding copy_up
copy_up_lem zero mem d s j h = copied_none mem d s j
copy_up_lem (suc n) mem d s j h =
    copy_up_lem n (update mem d (mem s)) (d + 1) (s + 1) j
      (elim h [ inl before ↦ inl (omega arith) | inr behind ↦ inr (omega arith) ])
    ∙ step_up n mem d s j (elim h [ inl before ↦ inl before | inr behind ↦ inr (omega arith) ])

copy_down_lem :
    (n : ℕ) (mem : ℕ → ℕ) (d s j : ℕ) → s < d → copy_down mem d s n j ≡ copied mem d s n j
unfolding copy_down copied
copy_down_lem zero mem d s j h = ground arith
copy_down_lem (suc n) mem d s j h =
    ground (arith, copy_down_lem n (update mem (d + n) (mem (s + n))) d s j h)

-- After `memmove` every byte of the destination is what its counterpart was before the call, also
-- where source and destination overlap, and every other byte is as it was.
pub memmove_lem : (mem : ℕ → ℕ) (dst src n j : ℕ) → memmove mem dst src n j ≡ copied mem dst src n j
unfolding memmove
memmove_lem mem dst src n j = elim (Bool-cases (ltb src dst && ltb dst (src + n))) [
  | inl down ↦ rw down (copy_down_lem n mem dst src j (ground arith))
  | inr up ↦ rw up (copy_up_lem n mem dst src j (ground arith))
]
