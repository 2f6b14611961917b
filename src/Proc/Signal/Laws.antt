-- ===== src/Proc/Signal/Laws.antt =====
-- What `kill`, `setpriority` and `getpriority` do to a valid process table.
use slab_study.Common.{
  ℕ, ◌<◌, ◌≡◌, ◌≢◌, ◌⊎◌, inl, inr, refl, true, false, some, none, arith, ◌≤ℤ◌, ℤ, ltb_ℤ, ◌==◌, ◌||◌,
  Bool-cases, Option-cases, if◌then◌else◌, find_index, find_index-some,
}
use slab_study.Proc.Table.{
  Table, nproc, Proc, unused, sleeping, runnable, eq_state, low_prio, high_prio,
}
use slab_study.Proc.Invariant.{
  IsAlive, IsValid, Keeps, Keeps-update, Keeps-refl, Keeps-trans, find_pid_unique,
}
use slab_study.Proc.Signal.{find_pid, kill, yield, target, setpriority, getpriority}

-- The entry that `kill` leaves.
abbrev killed_entry : Proc → Proc
killed_entry p =
    if eq_state p.state sleeping
    then record p { killed = true; state = runnable }
    else record p { killed = true }

-- `kill` with the pid of an entry in use of a valid table succeeds, marks that process as killed,
-- makes it runnable if it slept, and changes nothing else.
pub kill_by_pid :
    {t : Table} {n init : ℕ} (i : ℕ)
    → IsValid t n init
    → i < nproc
    → (t i).state ≢ unused
    → (kill (t i).pid t).0 ≡ true
      × ((kill (t i).pid t).1 i ≡ killed_entry (t i))
      × ((j : ℕ) → j ≢ i → (kill (t i).pid t).1 j ≡ t j)
unfolding kill find_pid
kill_by_pid {t} i v l u =
    let e = find_pid_unique i v l (v.named i l u) in
    (rw (e, kill), rw (e, kill) (ground arith), λ j d. rw (e, kill) (ground arith))

-- A search by pid that fails, or that stops at an entry of the table.
find_pid-cases :
    (t : Table) (pid : ℕ)
    → (find_pid t pid ≡ none)
      ⊎ ((i : ℕ) × (find_pid t pid ≡ some i) × (i < nproc) × ((t i).pid ≡ pid))
unfolding find_pid
find_pid-cases t pid = elim (Option-cases (find_index (λ i. (t i).pid == pid) 0 nproc)) [
  | inl e ↦ inl e
  | inr (i, e) ↦
      let w = find_index-some (λ i. (t i).pid == pid) 0 nproc e in
      inr (i, e, omega (arith, w.below), ground (arith, w.hit))
]

pub kill-Keeps : (pid init : ℕ) (t : Table) → Keeps init t (kill pid t).1
unfolding kill
kill-Keeps pid init t = elim (find_pid-cases t pid) [
  | inl e ↦ rw (e, kill) (Keeps-refl init t)
  | inr (i, e, l, q) ↦
      rw (e, kill)
        (Keeps-update init t i (killed_entry (t i)) (ground arith) (ground arith) (ground arith)
          (ground arith) (ground arith))
]

pub yield-Keeps : (cur init : ℕ) (t : Table) → IsAlive (t cur).state → Keeps init t (yield cur t)
unfolding yield
yield-Keeps cur init t a =
    Keeps-update init t cur _ refl refl (λ _. a.0) (λ _. ground arith) (λ r. r)

-- The tests of `setpriority` bound the priority.
in_range :
    (p : ℤ) → (ltb_ℤ p low_prio || ltb_ℤ high_prio p) ≡ false → (low_prio ≤ℤ p) × (p ≤ℤ high_prio)
in_range p e = ground arith

pub setpriority-Keeps :
    (cur pid init : ℕ) (p : ℤ) (t : Table)
    → IsAlive (t cur).state
    → Keeps init t (setpriority cur pid p t).1
unfolding setpriority
setpriority-Keeps cur pid init p t a = elim (Bool-cases (ltb_ℤ p low_prio || ltb_ℤ high_prio p)) [
  | inl out ↦ rw (out, setpriority) (Keeps-refl init t)
  | inr within ↦ elim (find_pid-cases t (target t cur pid)) [
    | inl e ↦ rw (within, e, setpriority) (Keeps-refl init t)
    | inr (i, e, l, q) ↦
        rw (within, e, setpriority)
          (Keeps-trans
            (Keeps-update init t i (record (t i) { priority = p }) refl refl (λ u. u) (λ u. u)
              (λ _. in_range p within))
            (yield-Keeps cur init _ (ground arith)))
  ]
]

-- `setpriority` with the pid of an entry in use of a valid table returns 0 exactly when the
-- priority lies between LOWPRIO and HIGHPRIO. If it does, that process has the new priority, the
-- caller is runnable, and no other entry changes; otherwise nothing changes.
pub setpriority_by_pid :
    {t : Table} {n init : ℕ} (cur i : ℕ) (p : ℤ)
    → IsValid t n init
    → i < nproc
    → (t i).state ≢ unused
    → ((low_prio ≤ℤ p) × (p ≤ℤ high_prio)
        → ((setpriority cur (t i).pid p t).0 ≡ true)
          × (((setpriority cur (t i).pid p t).1 i).priority ≡ p)
          × (((setpriority cur (t i).pid p t).1 cur).state ≡ runnable)
          × ((j : ℕ) → j ≢ i → j ≢ cur → (setpriority cur (t i).pid p t).1 j ≡ t j))
      × (¬ ((low_prio ≤ℤ p) × (p ≤ℤ high_prio)) → setpriority cur (t i).pid p t ≡ (false, t))
unfolding setpriority find_pid target yield
setpriority_by_pid {t} cur i p v l u = (
  λ r.
      let e = found in
      let within : (ltb_ℤ p low_prio || ltb_ℤ high_prio p) ≡ false = ground arith in
      (
        rw (within, e, setpriority),
        rw (within, e, setpriority) (ground arith),
        rw (within, e, setpriority) (ground arith),
        λ j d c. rw (within, e, setpriority) (ground arith),
      ),
  λ r. elim (Bool-cases (ltb_ℤ p low_prio || ltb_ℤ high_prio p)) [
    | inl out ↦ rw (out, setpriority)
    | inr within ↦ absurd (r (in_range p within))
  ],
)
  where
    found : find_pid t (target t cur (t i).pid) ≡ some i
    found =
        let d = v.named i l u in
        let plain : target t cur (t i).pid ≡ (t i).pid = ground arith in
        rw plain (find_pid_unique i v l d)

-- `getpriority` reports success for every process of a valid table, and never stores its priority:
-- what the pointer argument points at stays as it was.
pub getpriority_stores_nothing :
    {t : Table} {n init : ℕ} (cur i : ℕ) (out : ℤ)
    → IsValid t n init
    → i < nproc
    → (t i).state ≢ unused
    → getpriority cur (t i).pid out t ≡ (true, out)
unfolding getpriority find_pid target
getpriority_stores_nothing {t} cur i out v l u =
    let d = v.named i l u in
    let plain : target t cur (t i).pid ≡ (t i).pid = ground arith in
    rw (plain, find_pid_unique i v l d, getpriority)
