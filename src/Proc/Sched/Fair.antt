-- ===== src/Proc/Sched/Fair.antt =====
-- The scheduler's round robin: a process of the highest priority does not wait for ever.
use slab_study.Common.{
  ℕ, zero, suc, ◌+◌, ◌≤◌, ◌<◌, ◌≡◌, ◌≢◌, ◌⊎◌, inl, inr, Option, some, none, arith, ◌==◌, ◌≤ℤ◌, ℤ,
  pos, negsuc, Bool-cases, Option-cases, if◌then◌else◌, ltb,
}
use slab_study.Proc.Table.{Table, nproc, runnable}
use slab_study.Proc.Sched.{Cpu, pick, round, rounds}
use slab_study.Proc.Sched.Pick.{lap, pick-Elected, pick-some}

≤ℤ_antisymm : (a b : ℤ) → a ≤ℤ b → b ≤ℤ a → a ≡ b
≤ℤ_antisymm (pos a) (pos b) h k = ground arith
≤ℤ_antisymm (pos a) (negsuc b) h k = ground arith
≤ℤ_antisymm (negsuc a) (pos b) h k = ground arith
≤ℤ_antisymm (negsuc a) (negsuc b) h k = ground arith

-- The process `j` is ready to run, and no runnable process has a higher priority.
pub record IsTop (t : Table) (j : ℕ) : Type 0 where
  pub ready : (t j).state ≡ runnable
  pub low : negsuc 10 ≤ℤ (t j).priority
  pub top : (k : ℕ) → k < nproc → (t k).state ≡ runnable → (t k).priority ≤ℤ (t j).priority

cur-round : (c : Cpu) (ran : Table → Table) → c.cur < nproc → (round c ran).cur < nproc
unfolding round
cur-round c ran l = elim (Option-cases (pick c.table c.cur)) [
  | inl e ↦ rw (e, round) l
  | inr (i, e) ↦ rw (e, round) (ground arith)
]

pub cur-rounds :
    (env : ℕ → Table → Table) (c : Cpu) (k : ℕ) → c.cur < nproc → (rounds env c k).cur < nproc
unfolding rounds
cur-rounds env c zero l = l
cur-rounds env c (suc k) l = cur-round (rounds env c k) (env k) (cur-rounds env c k l)

-- The cursor just past `i` is nearer to `j` than the old one was, if `i` came before `j`.
lap-next :
    (cur i j : ℕ)
    → cur < nproc
    → i < nproc
    → j < nproc
    → i ≢ j
    → lap cur i ≤ lap cur j
    → lap (if ltb (i + 1) nproc then i + 1 else 0) j < lap cur j
lap-next cur i j l p m d h = ground arith

-- While a process of the highest priority is passed over, the cursor comes nearer to it.
round-lap :
    (c : Cpu) (ran : Table → Table) (j : ℕ)
    → c.cur < nproc
    → j < nproc
    → IsTop c.table j
    → pick c.table c.cur ≢ some j
    → lap (round c ran).cur j < lap c.cur j
unfolding round
round-lap c ran j l m h other =
    let (i, e) = pick-some c.table c.cur j l m h.ready h.low in
    let w = pick-Elected c.table c.cur l e in
    let same : (c.table j).priority ≡ (c.table i).priority =
      ≤ℤ_antisymm _ _ (w.top j m h.ready) (h.top i w.below w.ready) in
    rw (e, round)
      (lap-next c.cur i j l w.below m (λ q. other (rw (← q) e)) (w.turn j m h.ready same))

chosen_or_not : (o : Option ℕ) (j : ℕ) → (o ≡ some j) ⊎ (o ≢ some j)
chosen_or_not none j = inr (λ e. cc)
chosen_or_not (some i) j = elim (Bool-cases (i == j)) [
  | inl same ↦ inl (ground arith)
  | inr differs ↦ inr (λ e. ground arith)
]

-- Up to turn `k`, either `j` has been chosen or the cursor has come `k` entries nearer to it.
nearer :
    (env : ℕ → Table → Table) (c : Cpu) (j : ℕ)
    → c.cur < nproc
    → j < nproc
    → ((k : ℕ) → k < nproc → IsTop (rounds env c k).table j)
    → (n : ℕ) → n ≤ nproc
    → ((k : ℕ) × (k < n) × (pick (rounds env c k).table (rounds env c k).cur ≡ some j))
      ⊎ (lap (rounds env c n).cur j + n ≤ lap c.cur j)
unfolding rounds
nearer env c j l m h zero b = inr (omega arith)
nearer env c j l m h (suc n) b = elim (nearer env c j l m h n (omega arith)) [
  | inl (k, p, q) ↦ inl (k, omega arith, q)
  | inr near ↦ elim (chosen_or_not (pick (rounds env c n).table (rounds env c n).cur) j) [
    | inl now ↦ inl (n, omega arith, now)
    | inr other ↦ inr (
        omega (
          arith,
          round-lap (rounds env c n) (env n) j (cur-rounds env c n l) m (h n (omega arith)) other,
        ))
  ]
]

-- No starvation among equals: whatever the processes do to the table, a process that is runnable
-- with the highest priority at the start of each of the next NPROC turns of the scheduler is
-- chosen in one of them.
pub top_is_chosen :
    (env : ℕ → Table → Table) (c : Cpu) (j : ℕ)
    → c.cur < nproc
    → j < nproc
    → ((k : ℕ) → k < nproc → IsTop (rounds env c k).table j)
    → (k : ℕ) × (k < nproc) × (pick (rounds env c k).table (rounds env c k).cur ≡ some j)
top_is_chosen env c j l m h = elim (nearer env c j l m h nproc (omega arith)) [
  | inl found ↦ found
  | inr near ↦ absurd (ground arith)
]
