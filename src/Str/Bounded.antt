-- ===== src/Str/Bounded.antt =====
-- `strncpy`, `safestrcpy` and `strlen`.
use mathlib.Core.Path.{subst}
use slab_study.Common.{
  ℕ, zero, suc, ◌+◌, ◌-◌, ◌<◌, ◌≤◌, ◌≡◌, ◌≢◌, ◌⊎◌, inl, inr, refl, sym, ap, ◌∙◌, arith, true, false,
  some, ltb, leb, ◌==◌, ◌&&◌, if◌then◌else◌, update, Bool-cases,
}
use slab_study.Str.{pad, strncpy, strlen_from, strlen}

-- The string at `t` up to its NUL, and 0 behind it.
unfoldable pub text : (ℕ → ℕ) → ℕ → ℕ → ℕ
text mem t zero = mem t
text mem t (suc i) = let rest = text mem (t + 1) i in if mem t == 0 then 0 else rest

pad_lem :
    (mem : ℕ → ℕ) (s n a : ℕ) → pad mem s n a ≡ (if leb s a && ltb a (s + n) then 0 else mem a)
unfolding pad
pad_lem mem s zero a = let out : (leb s a && ltb a (s + 0)) ≡ false = ground arith in rw out refl
pad_lem mem s (suc n) a = pad_lem (update mem s 0) (s + 1) n a ∙ ground arith

text_ended : (mem : ℕ → ℕ) (t i : ℕ) → (mem t == 0) ≡ true → text mem t i ≡ 0
unfolding text
text_ended mem t zero e = ground arith
text_ended mem t (suc i) e = rw e refl

text_next : (mem : ℕ → ℕ) (t i : ℕ) → (mem t == 0) ≡ false → text mem t (i + 1) ≡ text mem (t + 1) i
unfolding text
text_next mem t i e = let next : i + 1 ≡ suc i = omega arith in rw (next, e) refl

-- Up to the NUL.
pub text_live :
    (mem : ℕ → ℕ) (t i : ℕ) → ((j : ℕ) → j < i → mem (t + j) ≢ 0) → text mem t i ≡ mem (t + i)
unfolding text
text_live mem t zero h = let e : t ≡ t + 0 = omega arith in ap mem e
text_live mem t (suc i) h =
    let here : (mem t == 0) ≡ false =
      (let e : t + 0 ≡ t = omega arith in ground (arith, h 0 (omega arith), ap mem e)) in
    let next : (j : ℕ) → j < i → mem (t + 1 + j) ≢ 0 = λ j l z.
      h (j + 1) (omega arith) ((let e : t + (j + 1) ≡ t + 1 + j = omega arith in ap mem e) ∙ z) in
    let e : t + 1 + i ≡ t + suc i = omega arith in rw here (text_live mem (t + 1) i next ∙ ap mem e)

pub text_small :
    (mem : ℕ → ℕ) (t i : ℕ) → ((j : ℕ) → j ≤ i → mem (t + j) < 256) → text mem t i < 256
unfolding text
text_small mem t zero h = let e : t + 0 ≡ t = omega arith in ground (arith, h 0, ap mem e)
text_small mem t (suc i) h = elim (Bool-cases (mem t == 0)) [
  | inl ended ↦ rw ended (omega arith)
  | inr live ↦ rw live (
      text_small mem (t + 1) i (λ j l.
        let e : t + (j + 1) ≡ t + 1 + j = omega arith in
        subst (λ x. mem x < 256) e (h (j + 1) (omega arith))))
]

-- `text` looks only at the bytes from `t` on.
text_same :
    (mem other : ℕ → ℕ) (t i : ℕ)
    → ((k : ℕ) → k ≤ i → mem (t + k) ≡ other (t + k))
    → text mem t i ≡ text other t i
unfolding text
text_same mem other t zero h =
    let e : t + 0 ≡ t = omega arith in sym (ap mem e) ∙ h 0 (omega arith) ∙ ap other e
text_same mem other t (suc i) h =
    let here : mem t ≡ other t =
      (let e : t + 0 ≡ t = omega arith in sym (ap mem e) ∙ h 0 (omega arith) ∙ ap other e) in
    let rest : text mem (t + 1) i ≡ text other (t + 1) i = text_same mem other (t + 1) i (λ k l.
      let e : t + 1 + k ≡ t + (k + 1) = omega arith in
      ap mem e ∙ h (k + 1) (omega (arith, l)) ∙ sym (ap other e)) in
    rw (here, rest) refl

untouched :
    (s t n a k : ℕ)
    → k + s + 1 ≤ a
    → a < s + suc n
    → (s + suc n ≤ t) ⊎ (t + suc n ≤ s)
    → (s == t + 1 + k) ≡ false
untouched s t n a k h l (inl m) = ground (arith, h)
untouched s t n a k h l (inr m) = ground (arith, h)

-- The bytes behind the first, when that is not NUL.
strncpy_later :
    (mem : ℕ → ℕ) (s t n a : ℕ)
    → (s + suc n ≤ t) ⊎ (t + suc n ≤ s)
    → (s == a) ≡ false
    → (mem t == 0) ≡ false
    → (if leb (s + 1) a && ltb a (s + 1 + n)
        then text (update mem s (mem t)) (t + 1) (a - (s + 1))
        else update mem s (mem t) a)
      ≡ (if leb s a && ltb a (s + suc n) then text mem t (a - s) else mem a)
strncpy_later mem s t n a o other live = elim (Bool-cases (leb s a && ltb a (s + suc n))) [
  | inl within ↦
      let at : (leb (s + 1) a && ltb a (s + 1 + n)) ≡ true = ground arith in
      let far : s + 1 ≤ a = ground arith in
      let end : a < s + suc n = ground arith in
      let index : a - s ≡ a - (s + 1) + 1 = omega arith in
      rw (within, at)
        (text_same (update mem s (mem t)) mem (t + 1) (a - (s + 1))
            (λ k l. let away = untouched s t n a k (omega (arith, l)) end o in rw away refl)
          ∙ sym (text_next mem t (a - (s + 1)) live)
          ∙ ap (text mem t) (sym index))
  | inr out ↦
      let at : (leb (s + 1) a && ltb a (s + 1 + n)) ≡ false = ground arith in
      rw (out, at, other) refl
]

-- `strncpy` to `n` bytes that do not overlap the first `n` of the source stores the source's string
-- up to its NUL and zeros behind it, and changes no other byte.
pub strncpy_lem :
    (mem : ℕ → ℕ) (s t n a : ℕ)
    → (s + n ≤ t) ⊎ (t + n ≤ s)
    → strncpy mem s t n a ≡ (if leb s a && ltb a (s + n) then text mem t (a - s) else mem a)
unfolding strncpy text
strncpy_lem mem s t zero a o =
    let out : (leb s a && ltb a (s + 0)) ≡ false = ground arith in rw out refl
strncpy_lem mem s t (suc n) a o = elim (Bool-cases (mem t == 0)) [
  | inl ended ↦
      rw (ended, strncpy)
        (pad_lem (update mem s (mem t)) (s + 1) n a ∙ (elim (Bool-cases (s == a)) [
          | inl first ↦
              let same : s ≡ a = ground arith in
              let out : (leb (s + 1) a && ltb a (s + 1 + n)) ≡ false = ground arith in
              let within : (leb s a && ltb a (s + suc n)) ≡ true = ground arith in
              rw (out, first, within) (ground (arith, text_ended mem t (a - s) ended))
          | inr other ↦
              let at : (leb (s + 1) a && ltb a (s + 1 + n)) ≡ (leb s a && ltb a (s + suc n)) =
                ground arith in
              rw (at, other, text_ended mem t (a - s) ended) refl
        ]))
  | inr live ↦
      rw (live, strncpy)
        (strncpy_lem (update mem s (mem t)) (s + 1) (t + 1) n a (apart o)
          ∙ (elim (Bool-cases (s == a)) [
            | inl first ↦
                let same : s ≡ a = ground arith in
                let out : (leb (s + 1) a && ltb a (s + 1 + n)) ≡ false = ground arith in
                let within : (leb s a && ltb a (s + suc n)) ≡ true = ground arith in
                let index : a - s ≡ 0 = omega arith in rw (out, first, within, index) refl
            | inr other ↦ strncpy_later mem s t n a o other live
          ]))
]
  where
    apart : (s + suc n ≤ t) ⊎ (t + suc n ≤ s) → (s + 1 + n ≤ t + 1) ⊎ (t + 1 + n ≤ s + 1)
    apart (inl l) = inl (omega arith)
    apart (inr l) = inr (omega arith)

strlen_from_lem :
    (fuel : ℕ) (mem : ℕ → ℕ) (s n k : ℕ)
    → n ≤ k
    → mem (s + k) ≡ 0
    → ((j : ℕ) → n ≤ j → j < k → mem (s + j) ≢ 0)
    → k < n + fuel
    → strlen_from fuel mem s n ≡ some k
unfolding strlen_from
strlen_from_lem zero mem s n k l z before h = absurd (omega arith)
strlen_from_lem (suc fuel) mem s n k l z before h = elim (Bool-cases (n == k)) [
  | inl here ↦
      let same : n ≡ k = ground arith in
      let end : (mem (s + n) == 0) ≡ true = ground (arith, ap (λ x. mem (s + x)) same) in
      rw end (ap some same)
  | inr there ↦
      let next : n + 1 ≤ k = ground arith in
      let live : (mem (s + n) == 0) ≡ false = ground (arith, before n) in
      rw live (
        strlen_from_lem fuel mem s (n + 1) k next z (λ j a b. before j (omega (arith, a)) b)
          (omega arith))
]

-- `strlen` of a string with its first NUL at the index `k` ends after `k + 1` tests, and returns `k`.
pub strlen_lem :
    (fuel : ℕ) (mem : ℕ → ℕ) (s k : ℕ)
    → mem (s + k) ≡ 0
    → ((j : ℕ) → j < k → mem (s + j) ≢ 0)
    → k < fuel
    → strlen fuel mem s ≡ some k
unfolding strlen
strlen_lem fuel mem s k z before h =
    strlen_from_lem fuel mem s 0 k (omega arith) z (λ j a b. before j b) (omega arith)
