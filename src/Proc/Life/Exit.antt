-- ===== src/Proc/Life/Exit.antt =====
-- `exit`: abandoned children go to init, the parent is woken, and the table stays valid.
use slab_study.Common.{ℕ, ◌<◌, ◌≡◌, ◌≢◌, inl, inr, ap, sym, some, arith, ◌∙◌, update, if◌then◌else◌}
use slab_study.Proc.Table.{
  Table, nproc, unused, zombie, sleeping, runnable, running, wakeup1, is_child, proc,
}
use slab_study.Proc.Invariant.{IsValid, Keeps, Keeps-IsValid, Keeps-trans, wakeup1-Keeps}
use slab_study.Proc.Life.{adopt, become_zombie, chan_of}
use slab_study.Proc.Life.Adopt.{
  adopt-Keeps, adopt-parent, adopt-state, adopt-wakes, wakeup1_facts, wakeup1_sleeper,
}

-- The table just before the caller turns into a zombie.
handed_over : ℕ → ℕ → Table → Table
handed_over cur init t = adopt cur init 0 nproc (wakeup1 (chan_of (t cur).parent) t)

handed_over-Keeps : (cur init : ℕ) (t : Table) → Keeps init t (handed_over cur init t)
unfolding handed_over
handed_over-Keeps cur init t =
    Keeps-trans (wakeup1-Keeps init (chan_of (t cur).parent) t)
      (adopt-Keeps cur init 0 nproc (wakeup1 (chan_of (t cur).parent) t))

handed_over-parent :
    (cur init : ℕ) (t : Table) (j : ℕ)
    → j < nproc
    → (handed_over cur init t j).parent
      ≡ (if is_child (t j).parent cur then some init else (t j).parent)
unfolding handed_over
handed_over-parent cur init t j l =
    let w = wakeup1 (chan_of (t cur).parent) t in
    ground (arith, adopt-parent cur init 0 nproc w j, wakeup1_facts (chan_of (t cur).parent) t j)

-- No entry has the exiting process for a parent any more.
handed_over_childless :
    (cur init : ℕ) (t : Table) (j : ℕ)
    → cur ≢ init
    → j < nproc
    → (handed_over cur init t j).parent ≢ some cur
handed_over_childless cur init t j d l = ground (arith, handed_over-parent cur init t j l)

-- To end a process that nobody has for a parent keeps the table valid.
zombify-IsValid :
    (u : Table) (n init cur status : ℕ)
    → IsValid u n init
    → cur ≢ init
    → (u cur).state ≢ unused
    → ((j : ℕ) → j < nproc → (u j).parent ≢ some cur)
    → IsValid (update u cur (record (u cur) { state = zombie; exit_status = status })) n init
zombify-IsValid u n init cur status v d live childless = record {
  unique = λ i j l m p q. v.unique i j l m (ground arith) (ground arith);
  fresh = λ i l. ground (arith, v.fresh i l);
  named = λ i l e. ground (arith, v.named i l);
  parented = λ i p l e.
      let q : (u i).parent ≡ some p = ground arith in
      let (m, a) = v.parented i p l q in
      let other : cur ≢ p = λ same. childless i l (q ∙ ap some (sym same)) in (m, ground arith);
  init_alive = (v.init_alive.0, ground (arith, v.init_alive.1));
  ranked = λ i l. ground (arith, v.ranked i l);
}

-- What `exit` owes to the rest of the table `t` when it leaves the table `u`.
pub record Exited (t u : Table) (cur init status : ℕ) : Type 0 where
  pub dead : ((u cur).state ≡ zombie) × ((u cur).exit_status ≡ status) × ((u cur).pid ≡ (t cur).pid)
  pub adopted : (j : ℕ) → j < nproc → (t j).parent ≡ some cur → (u j).parent ≡ some init
  pub kept : (j : ℕ) → j < nproc → (t j).parent ≢ some cur → (u j).parent ≡ (t j).parent
  pub parent_woken :
      (p : ℕ)
      → (t cur).parent ≡ some p
      → (t p).state ≡ sleeping
      → (t p).chan ≡ proc p
      → (u p).state ≡ runnable
  pub init_woken :
      (j : ℕ)
      → j < nproc
      → (t j).parent ≡ some cur
      → (t j).state ≡ zombie
      → (t init).state ≡ sleeping
      → (t init).chan ≡ proc init
      → (u init).state ≡ runnable

woken_parent :
    (cur init p : ℕ) (t : Table)
    → (t cur).parent ≡ some p
    → (t p).state ≡ sleeping
    → (t p).chan ≡ proc p
    → (handed_over cur init t p).state ≡ runnable
unfolding handed_over wakeup1
woken_parent cur init p t e s c =
    adopt-state cur init 0 nproc (wakeup1 (chan_of (t cur).parent) t) p (ground arith)
    ∙ ground arith

woken_init :
    (cur init j : ℕ) (t : Table)
    → j < nproc
    → (t j).parent ≡ some cur
    → (t j).state ≡ zombie
    → (t init).state ≡ sleeping
    → (t init).chan ≡ proc init
    → (handed_over cur init t init).state ≡ runnable
unfolding handed_over
woken_init cur init j t l e z s c = elim (wakeup1_sleeper (chan_of (t cur).parent) t init s) [
  | inl up ↦ adopt-state cur init 0 nproc (wakeup1 (chan_of (t cur).parent) t) init (λ q. cc) ∙ up
  | inr down ↦
      adopt-wakes cur init 0 nproc j (wakeup1 (chan_of (t cur).parent) t) (omega arith)
        (omega arith) down ((wakeup1_facts (chan_of (t cur).parent) t init).1 ∙ c)
        (ground (arith, wakeup1_facts (chan_of (t cur).parent) t j))
        (ground (arith, wakeup1_facts (chan_of (t cur).parent) t j))
]

-- The part of `exit` under the lock, called by a running process that is not init in a valid table:
-- the table stays valid, the caller is a zombie with its status and pid, its children are init's,
-- every other entry keeps its parent, a parent asleep in `wait` is woken, and so is init if it
-- sleeps in `wait` and inherits a zombie.
pub become_zombie_lem :
    (t : Table) (n init cur status : ℕ)
    → IsValid t n init
    → (t cur).state ≡ running
    → cur ≢ init
    → IsValid (become_zombie cur init status t) n init
      × Exited t (become_zombie cur init status t) cur init status
unfolding become_zombie handed_over
become_zombie_lem t n init cur status v run d = (
  zombify-IsValid u n init cur status (Keeps-IsValid keeps v) d (keeps.alive cur (ground arith)).0
      (λ j. handed_over_childless cur init t j d),
  record {
    dead = (ground arith, ground arith, ground (arith, keeps.pids cur));
    adopted = λ j l e. ground (arith, handed_over-parent cur init t j l);
    kept = λ j l e. ground (arith, handed_over-parent cur init t j l);
    parent_woken = λ p e s c. ground (arith, woken_parent cur init p t e s c);
    init_woken = λ j l e z s c. ground (arith, woken_init cur init j t l e z s c);
  },
)
  where
    u : Table
    u = handed_over cur init t

    keeps : Keeps init t u
    keeps = handed_over-Keeps cur init t
