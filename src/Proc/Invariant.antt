-- ===== src/Proc/Invariant.antt =====
-- The invariant of the process table, and the operations that keep it.
use slab_study.Common.{
  ℕ, ◌<◌, ◌≡◌, ◌≢◌, ◌⊎◌, inl, inr, refl, some, arith, ◌≤ℤ◌, update, find_index, find_index-exists,
  find_index-some, ==_refl, ◌==◌, ◌∙◌, ap, sym,
}
use slab_study.Proc.Table.{
  Table, nproc, Proc, ProcState, unused, zombie, high_prio, low_prio, Chan, wakeup1,
}

abbrev pub IsAlive : ProcState → Type 0
IsAlive s = (s ≢ unused) × (s ≢ zombie)

-- No two entries share a pid other than 0, pids are below the counter, an entry in use has a pid,
-- a parent is a process that has not exited, init has not exited, and priorities are in range.
pub record IsValid (t : Table) (nextpid init : ℕ) : Type 0 where
  pub unique : (i j : ℕ) → i < nproc → j < nproc → (t i).pid ≢ 0 → (t i).pid ≡ (t j).pid → i ≡ j
  pub fresh : (i : ℕ) → i < nproc → (t i).pid < nextpid
  pub named : (i : ℕ) → i < nproc → (t i).state ≢ unused → (t i).pid ≢ 0
  pub parented : (i p : ℕ) → i < nproc → (t i).parent ≡ some p → (p < nproc) × IsAlive (t p).state
  pub init_alive : (init < nproc) × IsAlive (t init).state
  pub ranked : (i : ℕ) → i < nproc → (low_prio ≤ℤ (t i).priority) × ((t i).priority ≤ℤ high_prio)

-- A change that gives out no pid and ends no process.
pub record Keeps (init : ℕ) (t u : Table) : Type 0 where
  pub pids : (i : ℕ) → (u i).pid ≡ (t i).pid
  pub used : (i : ℕ) → (u i).state ≢ unused → (t i).state ≢ unused
  pub alive : (i : ℕ) → IsAlive (t i).state → IsAlive (u i).state
  pub kin : (i p : ℕ) → (u i).parent ≡ some p → ((t i).parent ≡ some p) ⊎ (p ≡ init)
  pub ranks :
      (i : ℕ)
      → (low_prio ≤ℤ (t i).priority) × ((t i).priority ≤ℤ high_prio)
      → (low_prio ≤ℤ (u i).priority) × ((u i).priority ≤ℤ high_prio)

pub Keeps-IsValid :
    {t u : Table} {n init : ℕ} → Keeps init t u → IsValid t n init → IsValid u n init
Keeps-IsValid {t} {u} {n} {init} k v = record {
  unique = λ i j l m d e.
      v.unique i j l m (ground (arith, k.pids i)) (ground (arith, k.pids i, k.pids j));
  fresh = λ i l. omega (arith, k.pids i, v.fresh i l);
  named = λ i l e. ground (arith, k.pids i, k.used i e, v.named i l);
  parented = λ i p l e. elim (k.kin i p e) [
    | inl old ↦ let (m, a) = v.parented i p l old in (m, k.alive p a)
    | inr adopted ↦ rw adopted (v.init_alive.0, k.alive init v.init_alive.1)
  ];
  init_alive = (v.init_alive.0, k.alive init v.init_alive.1);
  ranked = λ i l. k.ranks i (v.ranked i l);
}

pub Keeps-trans : {init : ℕ} {t u w : Table} → Keeps init t u → Keeps init u w → Keeps init t w
Keeps-trans {init} {t} {u} {w} a b = record {
  pids = λ i. ground (arith, a.pids i, b.pids i);
  used = λ i e. a.used i (b.used i e);
  alive = λ i e. b.alive i (a.alive i e);
  kin = λ i p e. elim (b.kin i p e) [ inl old ↦ a.kin i p old | inr new ↦ inr new ];
  ranks = λ i e. b.ranks i (a.ranks i e);
}

-- Nothing changes.
pub Keeps-refl : (init : ℕ) (t : Table) → Keeps init t t
Keeps-refl init t = record {
  pids = λ j. refl;
  used = λ j e. e;
  alive = λ j e. e;
  kin = λ j p e. inl e;
  ranks = λ j e. e;
}

-- A change of one entry that leaves its pid and parent alone.
pub Keeps-update :
    (init : ℕ) (t : Table) (i : ℕ) (q : Proc)
    → q.pid ≡ (t i).pid
    → q.parent ≡ (t i).parent
    → (q.state ≢ unused → (t i).state ≢ unused)
    → (IsAlive (t i).state → IsAlive q.state)
    → ((low_prio ≤ℤ (t i).priority) × ((t i).priority ≤ℤ high_prio)
        → (low_prio ≤ℤ q.priority) × (q.priority ≤ℤ high_prio))
    → Keeps init t (update t i q)
Keeps-update init t i q pid parent used alive rank = record {
  pids = λ j. ground arith;
  used = λ j. ground arith;
  alive = λ j. ground arith;
  kin = λ j p. ground arith;
  ranks = λ j. ground arith;
}

pub wakeup1-Keeps : (init : ℕ) (c : Chan) (t : Table) → Keeps init t (wakeup1 c t)
unfolding wakeup1
wakeup1-Keeps init c t = record {
  pids = λ i. ground arith;
  used = λ i. ground arith;
  alive = λ i. ground arith;
  kin = λ i p. ground arith;
  ranks = λ i. ground arith;
}

-- In a valid table the search by a pid other than 0 stops at the process that has it.
pub find_pid_unique :
    {t : Table} {n init : ℕ} (i : ℕ)
    → IsValid t n init
    → i < nproc
    → (t i).pid ≢ 0
    → find_index (λ j. (t j).pid == (t i).pid) 0 nproc ≡ some i
find_pid_unique {t} i v l d =
    let test = λ (j : ℕ). (t j).pid == (t i).pid in
    let (j, e) = find_index-exists test 0 nproc i (omega arith) (omega arith) (==_refl (t i).pid) in
    let w = find_index-some test 0 nproc e in
    let same : i ≡ j = v.unique i j l (omega (arith, w.below)) d (ground (arith, w.hit)) in
    e ∙ ap some (sym same)
