-- ===== src/Fs/Trunc/Order.antt =====
-- The order in which `itrunc` gives up the blocks.
use slab_study.Common.{
  ℕ, ◌+◌, ◌-◌, ◌<◌, ◌≤◌, ◌≡◌, ◌≢◌, inl, inr, refl, sym, ap, ◌∙◌, arith, true, false, ltb, ◌==◌,
  if◌then◌else◌, Bool-cases,
}
use slab_study.Fs.{Disk, Superblock, get_word}
use slab_study.Fs.Bmap.{ndirect, nindirect}
use slab_study.Fs.Bmap.Slots.{nslots, slot, IsMapped}
use slab_study.Fs.Trunc.Frees.{Holds}

-- The slots in the order in which `itrunc` gives them up: the indirect block, slot 12, is the last.
abbrev pub place : ℕ → ℕ
place j = if j == nslots then ndirect else j

unfoldable pub in_order : (ℕ → ℕ) → ℕ → ℕ
in_order f j = if j == ndirect then 0 else f (place j)

pub order_direct : (f : ℕ → ℕ) (j : ℕ) → j < nslots → j ≢ ndirect → in_order f j ≡ f j
unfolding in_order
order_direct f j l n = ground arith

pub order_hole : (f : ℕ → ℕ) → in_order f ndirect ≡ 0
unfolding in_order
order_hole f = refl

pub order_last : (f : ℕ → ℕ) → in_order f nslots ≡ f ndirect
unfolding in_order
order_last f = refl

pub slot_direct : (addrs : ℕ → ℕ) (d : Disk) (k : ℕ) → k < 13 → slot addrs d k ≡ addrs k
unfolding slot
slot_direct addrs d k l = let near : ltb k 13 ≡ true = ground arith in rw near refl

slot_entry :
    (addrs : ℕ → ℕ) (d : Disk) (i : ℕ)
    → addrs ndirect ≢ 0
    → slot addrs d (13 + i) ≡ get_word (d (addrs ndirect)) i
unfolding slot
slot_entry addrs d i z =
    let far : ltb (13 + i) 13 ≡ false = ground arith in
    let there : (addrs ndirect == 0) ≡ false = ground arith in
    let index : 13 + i - 13 ≡ i = omega arith in rw (far, there, index) refl

slot_nothing : (addrs : ℕ → ℕ) (d : Disk) (j : ℕ) → addrs ndirect ≡ 0 → 12 < j → slot addrs d j ≡ 0
unfolding slot
slot_nothing addrs d j z l =
    let far : ltb j 13 ≡ false = ground arith in
    let empty : (addrs ndirect == 0) ≡ true = ground arith in rw (far, empty) refl

pub order_nothing :
    (addrs : ℕ → ℕ) (d : Disk)
    → addrs ndirect ≡ 0
    → (j : ℕ) → 12 ≤ j
    → j < 142
    → in_order (slot addrs d) j ≡ 0
unfolding in_order
order_nothing addrs d z j a b = elim (Bool-cases (j == 12)) [
  | inl hole ↦ rw hole refl
  | inr other ↦ rw other (elim (Bool-cases (j == nslots)) [
    | inl last ↦ rw last (slot_direct addrs d ndirect (omega arith) ∙ z)
    | inr entry ↦ rw entry (slot_nothing addrs d j z (ground (arith, a)))
  ])
]

pub order_entry :
    (addrs : ℕ → ℕ) (d d1 : Disk) (table i : ℕ)
    → table ≡ addrs ndirect
    → addrs ndirect ≢ 0
    → i < nindirect
    → d1 (addrs ndirect) ≡ d (addrs ndirect)
    → get_word (d1 table) i ≡ in_order (slot addrs d) (13 + i)
order_entry addrs d d1 table i e z l same =
    ap (λ b. get_word (d1 b) i) e
    ∙ ap (λ a. get_word a i) same
    ∙ sym (slot_entry addrs d i z)
    ∙ sym (order_direct (slot addrs d) (13 + i) (omega (arith, l)) (ground arith))

pub in_order_at : (f : ℕ → ℕ) (j : ℕ) → in_order f j ≢ 0 → in_order f j ≡ f (place j)
unfolding in_order
in_order_at f j z = elim (Bool-cases (j == ndirect)) [
  | inl here ↦ absurd (z (rw here refl))
  | inr away ↦ rw away refl
]

place_one : (i j : ℕ) → i ≢ 12 → j ≢ 12 → i < 142 → j < 142 → place i ≡ place j → i ≡ j
place_one i j a b l m e = ground arith

in_order-hole : (f : ℕ → ℕ) (j : ℕ) → in_order f j ≢ 0 → j ≢ 12
unfolding in_order
in_order-hole f j z e = z (rw e refl)

pub place_below : (j : ℕ) → j < 142 → place j < nslots
place_below j l = ground arith

module _ (sb : Superblock) (nmeta : ℕ) where
  pub in_order-Holds :
      (f : ℕ → ℕ) (d : Disk) → IsMapped sb nmeta f d → Holds sb nmeta (in_order f) 0 142 d
  in_order-Holds f d m = record {
    range = λ j a b z.
        let e = in_order_at f j z in rw e (m.range (place j) (place_below j b) (λ q. z (e ∙ q)));
    held = λ j a b z.
        let e = in_order_at f j z in rw e (m.held (place j) (place_below j b) (λ q. z (e ∙ q)));
    once = λ i j a b u v z e.
        let y : in_order f j ≢ 0 = λ q. z (e ∙ q) in
        let p = in_order_at f i z in
        place_one i j (in_order-hole f i z) (in_order-hole f j y) b v (
          m.once (place i) (place j) (place_below i b) (place_below j v) (λ q. z (p ∙ q))
            (sym p ∙ e ∙ in_order_at f j y));
  }
