-- ===== src/Proc/Life/Preserve.antt =====
-- The operations of `Proc.Life` keep the process table valid.
use mathlib.Core.Path.{subst}
use mathlib.Core.Option.{some-injective}
use slab_study.Common.{
  ◌∙◌, ℕ, ◌<◌, ◌≡◌, true, some, refl, ℤ, arith, pos, negsuc, ◌==◌, if◌then◌else◌, Bool-cases,
  Option-cases, inl, inr, find_index, find_index-some, false, Bool,
}
use slab_study.Proc.Table.{sleeping, Table, nproc, running, zombie, Chan, proc, eq_state}
use slab_study.Proc.Invariant.{IsAlive, IsValid, Keeps, Keeps-IsValid, Keeps-update}
use slab_study.Proc.Life.{
  Services, Kernel, WaitResult, no_child, asleep, exit, wait_pass, waitpid_pass, growproc, sleep_on,
  tidy_up, become_zombie, close_all, set_size, chan_of,
}
use slab_study.Proc.Life.Exit.{become_zombie_lem}
use slab_study.Proc.Life.Wait.{reap-IsValid, wait_pass-cases}

pub sleep_on_sleeps :
    (cur : ℕ) (c : Chan) (t : Table)
    → ((sleep_on cur c t cur).state ≡ sleeping) × ((sleep_on cur c t cur).chan ≡ c)
unfolding sleep_on
sleep_on_sleeps cur c t = (ground arith, ground arith)

pub sleep_on-Keeps :
    (cur init : ℕ) (c : Chan) (t : Table) → IsAlive (t cur).state → Keeps init t (sleep_on cur c t)
unfolding sleep_on
sleep_on-Keeps cur init c t a =
    Keeps-update init t cur _ refl refl (λ _. a.0) (λ _. ground arith) (λ r. r)

pub tidy_up-Keeps : (cur init : ℕ) (t : Table) → Keeps init t (tidy_up cur t)
unfolding tidy_up
tidy_up-Keeps cur init t = Keeps-update init t cur _ refl refl (λ e. e) (λ e. e) (λ r. r)

module _ (s : Services) where
  abbrev pub Valid : Kernel s → Type 0
  Valid k = IsValid k.table k.nextpid k.initproc

  pub nextpid-pos : (k : Kernel s) → Valid k → 0 < k.nextpid
  nextpid-pos k v = omega (arith, v.fresh k.initproc v.init_alive.0)

  set_size-Valid :
      (cur : ℕ) (k : Kernel s) (r : ℕ × s.World) → Valid k → Valid (set_size s cur k r).1
  unfolding set_size
  set_size-Valid cur k (sz, w) v = elim (Bool-cases (sz == 0)) [
    | inl failed ↦ rw failed v
    | inr done ↦ rw done (
        Keeps-IsValid (Keeps-update k.initproc k.table cur _ refl refl (λ e. e) (λ e. e) (λ r. r))
          v)
  ]

  pub growproc-Valid : (cur : ℕ) (n : ℤ) (k : Kernel s) → Valid k → Valid (growproc s cur n k).1
  unfolding growproc
  growproc-Valid cur (pos m) k v = elim (Bool-cases (m == 0)) [
    | inl none_asked ↦ rw none_asked v
    | inr some_asked ↦ rw some_asked (set_size-Valid cur k _ v)
  ]
  growproc-Valid cur (negsuc m) k v = set_size-Valid cur k _ v

  pub close_all-Valid : (cur : ℕ) (k : Kernel s) → Valid k → Valid (close_all s cur k)
  unfolding close_all
  close_all-Valid cur k v =
      Keeps-IsValid (Keeps-update k.initproc k.table cur _ refl refl (λ e. e) (λ e. e) (λ r. r)) v

  close_all-same :
      (cur : ℕ) (k : Kernel s)
      → (((close_all s cur k).table cur).state ≡ (k.table cur).state)
        × ((close_all s cur k).initproc ≡ k.initproc)
  unfolding close_all
  close_all-same cur k = (ground arith, refl)

  pub exit-Valid :
      (cur status : ℕ) (k k' : Kernel s)
      → (k.table cur).state ≡ running
      → exit s cur status k ≡ some k'
      → Valid k
      → Valid k'
  unfolding exit close_all
  exit-Valid cur status k k' r e v = elim (Bool-cases (cur == k.initproc)) [
    | inl panics ↦ absurd (ground arith)
    | inr goes ↦
        let c = close_all s cur k in
        let (same, init) = close_all-same cur k in
        let left : record c { table = become_zombie cur k.initproc status c.table } ≡ k' =
          some-injective _ _ (rw goes at e) in
        subst Valid left (
          rw (← init)
            (become_zombie_lem c.table c.nextpid c.initproc cur status (close_all-Valid cur k v)
              (same ∙ r) (rw init (ground arith))).0)
  ]

  stay-Valid :
      (cur : ℕ) (c : Chan) (k : Kernel s) (b : Bool)
      → IsAlive (k.table cur).state
      → Valid k
      → Valid (
          let r : WaitResult × Kernel s =
            if b then (no_child, k) else (asleep, record k { table = sleep_on cur c k.table }) in
          r.1)
  stay-Valid cur c k true a v = v
  stay-Valid cur c k false a v = Keeps-IsValid (sleep_on-Keeps cur k.initproc c k.table a) v

  pub wait_pass-Valid :
      (cur : ℕ) (k : Kernel s) → IsAlive (k.table cur).state → Valid k → Valid (wait_pass s cur k).1
  wait_pass-Valid cur k a v = elim (wait_pass-cases s cur k) [
    | inl (i, h, e) ↦ rw e (reap-IsValid s i k h.below (nextpid-pos k v) h.dead v)
    | inr (b, e) ↦ rw e (stay-Valid cur (proc cur) k b a v)
  ]

  pub waitpid_pass-Valid :
      (cur pid : ℕ) (k : Kernel s)
      → IsAlive (k.table cur).state
      → Valid k
      → Valid (waitpid_pass s cur pid k).1
  unfolding waitpid_pass
  waitpid_pass-Valid cur pid k a v =
      elim (Option-cases (find_index (λ i. (k.table i).pid == pid) 0 nproc)) [
        | inl e ↦ rw (e, waitpid_pass) v
        | inr (i, e) ↦
            let w = find_index-some (λ i. (k.table i).pid == pid) 0 nproc e in
            elim (Bool-cases (eq_state (k.table i).state zombie)) [
              | inl z ↦
                  rw (e, z, waitpid_pass)
                    (reap-IsValid s i k (omega (arith, w.below)) (nextpid-pos k v) (ground arith) v)
              | inr z ↦
                  rw (e, z, waitpid_pass)
                    (stay-Valid cur (chan_of (k.table i).parent) k (k.table cur).killed a v)
            ]
      ]
