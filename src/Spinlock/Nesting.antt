-- ===== src/Spinlock/Nesting.antt =====
-- Interrupts come back exactly with the last `popcli`, and only the holder releases a lock.
use slab_study.Common.{
  ℕ, zero, suc, ◌-◌, ◌≡◌, ◌≢◌, refl, arith, Bool, true, false, Option, some, none, ◌==◌, ◌&&◌, List,
  [], ◌∷◌,
}
use slab_study.Spinlock.{
  CpuState, Lock, pushcli, popcli, holding, acquire, spin, release, acquired, spins, reentered,
}

-- What a processor does between two points of its code: it takes locks, and gives them back.
pub data Move : Type 0 where
  push pop : Move

pub step : Move → CpuState → Option CpuState
step push c = some (pushcli c)
step pop c = popcli c

pub steps : List Move → CpuState → Option CpuState
unfolding step
steps [] c = some c
steps (m ∷ ms) c = elim (step m c) [ some c' ↦ steps ms c' | none ↦ none ]

-- The depth that the moves lead to from depth `d`, if no pop comes too many.
abbrev pub depth : List Move → ℕ → Option ℕ
depth [] d = some d
depth (push ∷ ms) d = depth ms (suc d)
depth (pop ∷ ms) zero = none
depth (pop ∷ ms) (suc d) = depth ms d

-- At depth `d`, in code that began with the interrupts at `on`.
abbrev pub At : Bool → ℕ → CpuState → Type 0
At on d c = (c.ncli ≡ d) × (c.enabled ≡ ((d == 0) && on)) × (d ≢ 0 → c.intena ≡ on)

-- `steps` fails where a pop comes too many, and otherwise ends at the depth.
pub Ends : Bool → Option ℕ → Option CpuState → Type 0
Ends on none r = r ≡ none
Ends on (some d) r = (c : CpuState) × (r ≡ some c) × At on d c

push-At : (on : Bool) (d : ℕ) (c : CpuState) → At on d c → At on (suc d) (pushcli c)
unfolding pushcli
push-At on d c a = (ground arith, ground arith, λ _. ground arith)

pop-At :
    (on : Bool) (d : ℕ) (c : CpuState)
    → At on (suc d) c
    → (c' : CpuState) × (popcli c ≡ some c') × At on d c'
unfolding popcli
pop-At on d c a = (
  record c { ncli = c.ncli - 1; enabled = c.ncli - 1 == 0 && c.intena },
  ground arith,
  (ground arith, ground arith, λ _. ground arith),
)

pop_panics : (on : Bool) (c : CpuState) → At on 0 c → popcli c ≡ none
unfolding popcli
pop_panics on c a = ground arith

-- The code begins with no lock held and its interrupts at `on`, and goes through the moves. A
-- `popcli` panics exactly if there have been more of them than of `pushcli`. Otherwise the count is
-- the depth of nesting, the interrupts are off at any depth but 0, and at 0 they are as they were.
pub nesting_lem :
    (on : Bool) (ms : List Move) (d : ℕ) (c : CpuState)
    → At on d c
    → Ends on (depth ms d) (steps ms c)
unfolding Ends steps step
nesting_lem on [] d c a = (c, refl, a)
nesting_lem on (push ∷ ms) d c a = nesting_lem on ms (suc d) (pushcli c) (push-At on d c a)
nesting_lem on (pop ∷ ms) zero c a = rw (pop_panics on c a, steps, step) refl
nesting_lem on (pop ∷ ms) (suc d) c a =
    let (c', e, a') = pop-At on d c a in rw (e, steps, step) (nesting_lem on ms d c' a')

-- Only the processor that holds a lock gets past `release`: of two different processors one fails.
-- And while a processor holds it, no `acquire` and no retry of another takes it.
pub mutual_exclusion :
    (me other : ℕ) (lock : Lock) (c c' : CpuState)
    → me ≢ other
    → holding me lock ≡ true
    → (release other lock c' ≡ none)
      × (acquire other lock c ≡ (spins, lock, pushcli c))
      × (spin other lock ≡ (spins, lock))
      × (acquire me lock c ≡ (reentered, lock, pushcli c))
unfolding holding release acquire spin
mutual_exclusion me other lock c c' d h = (ground arith, ground arith, ground arith, ground arith)

pushcli_off : (c : CpuState) → (pushcli c).enabled ≡ false
unfolding pushcli
pushcli_off c = refl

-- A processor that takes a free lock at depth `d` holds it with its interrupts off, and its `release`
-- does not panic: the lock is free again, and the processor at depth `d` as before.
pub acquire_then_release :
    (me : ℕ) (on : Bool) (d : ℕ) (lock : Lock) (c : CpuState)
    → lock.locked ≡ false
    → At on d c
    → let (r, held, c1) = acquire me lock c in
      (r ≡ acquired)
      × (holding me held ≡ true)
      × (c1.enabled ≡ false)
      × (c2 : CpuState) × (release me held c1 ≡ some (record { locked = false; cpu = none }, c2))
      × At on d c2
unfolding holding acquire release
acquire_then_release me on d lock c free a =
    let p = push-At on d c a in
    let (c2, e, a2) = pop-At on d (pushcli c) p in
    (ground arith, ground arith, ground (arith, pushcli_off c), c2, ground (arith, e), a2)
