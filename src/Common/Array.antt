-- ===== src/Common/Array.antt =====
-- C arrays and tables: a fixed array is a function of its index, and a search loop over it is
-- `find_index`.
use Prim.Native.Nat.{ℕ, zero, suc, ◌+◌, ◌≤◌, ◌<◌}
use mathlib.Core.Path.{◌≡◌}
use mathlib.Core.Logic.{inl, inr}
use mathlib.Core.Bool.{Bool, true, false}
use mathlib.Core.Option.{Option, none, some}
use native.Mathlib.Omega.{arith}
use slab_study.Common.Tests.{◌==◌, if◌then◌else◌, Bool-cases, Option-cases}

-- `a[i] = v`
abbrev pub update {ℓ} : {A : Type ℓ} → (ℕ → A) → ℕ → A → ℕ → A
update f i v j = if i == j then v else f j

-- `for(k = i; k < i + n; k++) if(test(k)) break;`: the index where the loop stops, if it breaks.
unfoldable pub find_index : (ℕ → Bool) → ℕ → ℕ → Option ℕ
find_index test i zero = none
find_index test i (suc n) = let rest = find_index test (i + 1) n in if test i then some i else rest

-- What it says of the tests that the loop stopped at `j`.
pub record StopsAt (test : ℕ → Bool) (i n j : ℕ) : Type 0 where
  pub from : i ≤ j
  pub below : j < i + n
  pub hit : test j ≡ true
  pub first : (k : ℕ) → i ≤ k → k < j → test k ≡ false

module _ (test : ℕ → Bool) where
  -- The tests from `i` on fail if that at `i` and those from `i + 1` on do.
  extend_fail :
      (i n k : ℕ)
      → test i ≡ false
      → ((j : ℕ) → i + 1 ≤ j → j < n → test j ≡ false)
      → i ≤ k
      → k < n
      → test k ≡ false
  extend_fail i n k e rest h l = elim (Bool-cases (i == k)) [
    | inl same ↦ ground arith
    | inr differs ↦ rest k (ground arith) l
  ]

  pub find_index-some : (i n : ℕ) {j : ℕ} → find_index test i n ≡ some j → StopsAt test i n j
  unfolding find_index
  find_index-some i zero e = cc
  find_index-some i (suc n) {j} e = elim (Bool-cases (test i)) [
    | inl hit ↦ here hit
    | inr fail ↦ there fail (find_index-some (i + 1) n)
  ]
    where
      here : test i ≡ true → StopsAt test i (suc n) j
      here hit =
          let same : i ≡ j = ground arith in
          record {
            from = omega arith;
            below = omega arith;
            hit = rw (← same) hit;
            first = λ k p q. absurd (omega arith);
          }

      there :
          test i ≡ false
          → (find_index test (i + 1) n ≡ some j → StopsAt test (i + 1) n j)
          → StopsAt test i (suc n) j
      there fail ih =
          let later : StopsAt test (i + 1) n j = ih (ground arith) in
          record {
            from = omega (arith, later.from);
            below = omega (arith, later.below);
            hit = later.hit;
            first = λ k p q. extend_fail i j k fail later.first p q;
          }

  pub find_index-none :
      (i n : ℕ) → find_index test i n ≡ none → (k : ℕ) → i ≤ k → k < i + n → test k ≡ false
  unfolding find_index
  find_index-none i zero e k p q = absurd (omega arith)
  find_index-none i (suc n) e k p q = elim (Bool-cases (test i)) [
    | inl hit ↦ absurd (ground arith)
    | inr fail ↦
        extend_fail i (i + suc n) k fail
          (λ j a b. find_index-none (i + 1) n (ground arith) j a (omega arith)) p q
  ]

  -- A hit in range is not passed over.
  pub find_index-exists :
      (i n k : ℕ) → i ≤ k → k < i + n → test k ≡ true → (j : ℕ) × (find_index test i n ≡ some j)
  find_index-exists i n k p q hit = elim (Option-cases (find_index test i n)) [
    | inl e ↦ absurd (ground (arith, find_index-none i n e k p q))
    | inr found ↦ found
  ]
