-- ===== src/Proc/Life/Adopt.antt =====
-- The loop of `exit` that passes abandoned children to init.
use slab_study.Common.{
  ℕ, zero, suc, ◌+◌, ◌≤◌, ◌<◌, ◌≡◌, ◌≢◌, ◌⊎◌, inl, inr, refl, ap, sym, true, some, arith, ◌==◌, leb,
  ltb, ◌&&◌, ◌∙◌, Bool-cases, if◌then◌else◌,
}
use slab_study.Proc.Table.{Table, zombie, sleeping, runnable, Chan, wakeup1, is_child, proc}
use slab_study.Proc.Invariant.{Keeps, Keeps-trans}
use slab_study.Proc.Life.{adopt_one, adopt}

-- An entry of the loop: the child's parent becomes init, and nothing else but sleepers on init changes.
adopt_one-parent :
    (cur init i : ℕ) (t : Table) (j : ℕ)
    → (adopt_one cur init i t j).parent
      ≡ (if (i == j) && is_child (t j).parent cur then some init else (t j).parent)
unfolding adopt_one wakeup1
adopt_one-parent cur init i t j = ground arith

-- A process that does not sleep keeps its state.
adopt_one-state :
    (cur init i : ℕ) (t : Table) (j : ℕ)
    → (t j).state ≢ sleeping
    → (adopt_one cur init i t j).state ≡ (t j).state
unfolding adopt_one wakeup1
adopt_one-state cur init i t j e = ground arith

adopt_one-Keeps : (cur init i : ℕ) (t : Table) → Keeps init t (adopt_one cur init i t)
unfolding adopt_one wakeup1
adopt_one-Keeps cur init i t = record {
  pids = λ j. ground arith;
  used = λ j. ground arith;
  alive = λ j. ground arith;
  kin = λ j p. ground arith;
  ranks = λ j. ground arith;
}

pub adopt-Keeps : (cur init i n : ℕ) (t : Table) → Keeps init t (adopt cur init i n t)
unfolding adopt
adopt-Keeps cur init i zero t = record {
  pids = λ j. refl;
  used = λ j e. e;
  alive = λ j e. e;
  kin = λ j p e. inl e;
  ranks = λ j e. e;
}
adopt-Keeps cur init i (suc n) t =
    Keeps-trans (adopt_one-Keeps cur init i t)
      (adopt-Keeps cur init (i + 1) n (adopt_one cur init i t))

pub adopt-parent :
    (cur init i n : ℕ) (t : Table) (j : ℕ)
    → (adopt cur init i n t j).parent ≡ (
        if (leb i j && ltb j (i + n)) && is_child (t j).parent cur then some init else (t j).parent)
unfolding adopt
adopt-parent cur init i zero t j = ground arith
adopt-parent cur init i (suc n) t j = ground (
  arith,
  adopt-parent cur init (i + 1) n (adopt_one cur init i t) j,
  adopt_one-parent cur init i t j,
)

pub adopt-state :
    (cur init i n : ℕ) (t : Table) (j : ℕ)
    → (t j).state ≢ sleeping
    → (adopt cur init i n t j).state ≡ (t j).state
unfolding adopt
adopt-state cur init i zero t j e = refl
adopt-state cur init i (suc n) t j e =
    let one = adopt_one-state cur init i t j e in
    adopt-state cur init (i + 1) n (adopt_one cur init i t) j (rw one e) ∙ one

-- What an entry of the loop leaves of a child further on, and of init asleep on its children.
adopt_one_later :
    (cur init i j : ℕ) (t : Table)
    → i ≢ j
    → is_child (t j).parent cur ≡ true
    → (t j).state ≡ zombie
    → (is_child (adopt_one cur init i t j).parent cur ≡ true)
      × ((adopt_one cur init i t j).state ≡ zombie)
unfolding adopt_one wakeup1
adopt_one_later cur init i j t d c z = (ground arith, ground arith)

adopt_one_init :
    (cur init i : ℕ) (t : Table)
    → (t init).state ≡ sleeping
    → (t init).chan ≡ proc init
    → ((adopt_one cur init i t init).state ≡ runnable)
      ⊎ (((adopt_one cur init i t init).state ≡ sleeping)
          × ((adopt_one cur init i t init).chan ≡ proc init))
unfolding adopt_one wakeup1
adopt_one_init cur init i t s c = ground arith

adopt_one_wakes :
    (cur init i : ℕ) (t : Table)
    → (t init).state ≡ sleeping
    → (t init).chan ≡ proc init
    → is_child (t i).parent cur ≡ true
    → (t i).state ≡ zombie
    → (adopt_one cur init i t init).state ≡ runnable
unfolding adopt_one wakeup1
adopt_one_wakes cur init i t s c k z = ground arith

pub adopt-wakes :
    (cur init i n j : ℕ) (t : Table)
    → i ≤ j
    → j < i + n
    → (t init).state ≡ sleeping
    → (t init).chan ≡ proc init
    → is_child (t j).parent cur ≡ true
    → (t j).state ≡ zombie
    → (adopt cur init i n t init).state ≡ runnable
unfolding adopt
adopt-wakes cur init i zero j t p q s c k z = absurd (omega arith)
adopt-wakes cur init i (suc n) j t p q s c k z = elim (Bool-cases (i == j)) [
  | inl same ↦
      let e : j ≡ i = ground arith in
      stays (
        adopt_one_wakes cur init i t s c (ap (λ x. is_child (t x).parent cur) (sym e) ∙ k)
          (ap (λ x. (t x).state) (sym e) ∙ z))
  | inr differs ↦
      let (k', z') = adopt_one_later cur init i j t (ground arith) k z in
      elim (adopt_one_init cur init i t s c) [
        | inl up ↦ stays up
        | inr (s', c') ↦
            adopt-wakes cur init (i + 1) n j (adopt_one cur init i t) (ground arith) (omega arith)
              s' c' k' z'
      ]
]
  where
    stays :
        (adopt_one cur init i t init).state ≡ runnable
        → (adopt cur init (i + 1) n (adopt_one cur init i t) init).state ≡ runnable
    stays up = adopt-state cur init (i + 1) n (adopt_one cur init i t) init (λ e. cc) ∙ up

-- `wakeup1` wakes the sleepers on the channel, and leaves the parents and the other states alone.
pub wakeup1_facts :
    (c : Chan) (t : Table) (j : ℕ)
    → ((wakeup1 c t j).parent ≡ (t j).parent)
      × ((wakeup1 c t j).chan ≡ (t j).chan)
      × ((t j).state ≢ sleeping → (wakeup1 c t j).state ≡ (t j).state)
unfolding wakeup1
wakeup1_facts c t j = ground arith

pub wakeup1_sleeper :
    (c : Chan) (t : Table) (j : ℕ)
    → (t j).state ≡ sleeping
    → ((wakeup1 c t j).state ≡ runnable) ⊎ ((wakeup1 c t j).state ≡ sleeping)
unfolding wakeup1
wakeup1_sleeper c t j s = ground arith
