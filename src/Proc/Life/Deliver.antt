-- ===== src/Proc/Life/Deliver.antt =====
-- What `exit` leaves for `wait`: the parent gets the pid and the status of its child.
use slab_study.Common.{
  refl, ap, ◌==◌, false, ℕ, ◌<◌, ◌≡◌, ◌≢◌, ◌∙◌, sym, inl, inr, some, arith, Bool-cases,
}
use slab_study.Proc.Table.{nproc, running, is_child}
use slab_study.Proc.Life.{
  Services, Kernel, WaitResult, reaped, no_child, asleep, become_zombie, wait_pass, close_all, exit,
}
use slab_study.Proc.Life.Exit.{Exited, become_zombie_lem}
use slab_study.Proc.Life.Wait.{ExitedChild-intro, WaitSpec, wait_pass_lem}
use slab_study.Proc.Life.Preserve.{Valid, close_all-Valid}

module _ (s : Services) where
  -- The kernel once `cur` has gone through `exit`.
  abbrev pub after_exit : ℕ → ℕ → Kernel s → Kernel s
  after_exit cur status k = record k { table = become_zombie cur k.initproc status k.table }

  module _ (k : Kernel s) (cur p status : ℕ) (l : cur < nproc) (kin : (k.table cur).parent ≡ some p)
      (d : p ≢ cur) (di : p ≢ k.initproc)
      (only : (j : ℕ) → j < nproc → (k.table j).parent ≡ some p → j ≡ cur)
      (x : Exited k.table (after_exit cur status k).table cur k.initproc status) where
    -- The exited process still is its parent's child.
    still_child : ((after_exit cur status k).table cur).parent ≡ some p
    still_child = x.kept cur l (λ e. ground arith) ∙ kin

    -- A child of the parent after the exit was its child before.
    was_child :
        (j : ℕ)
        → j < nproc
        → ((after_exit cur status k).table j).parent ≡ some p
        → (k.table j).parent ≡ some p
    was_child j m e = elim (Bool-cases (is_child (k.table j).parent cur)) [
      | inl own ↦ absurd (ground (arith, x.adopted j m))
      | inr other ↦ sym (x.kept j m (λ q. ground arith)) ∙ e
    ]

    by_result :
        (r : WaitResult) (k' : Kernel s)
        → WaitSpec s p (after_exit cur status k) (r, k')
        → r ≡ reaped (k.table cur).pid status
    by_result (reaped pid st) k' (i, h, e, f, g, m, o) =
        let same : i ≡ cur = only i h.below (was_child i h.below h.kin) in
        ground (arith, x.dead.1, x.dead.2)
    by_result no_child k' (e, inl none_at_all) = absurd (none_at_all cur l still_child)
    by_result no_child k' (e, inr (killed, none_dead)) =
        absurd (none_dead cur (ExitedChild-intro s _ p cur l still_child x.dead.0))
    by_result asleep k' (kid, none_dead, spared, e) =
        absurd (none_dead cur (ExitedChild-intro s _ p cur l still_child x.dead.0))

  -- The part of `exit` under the lock.
  zombie_then_wait :
      (k : Kernel s) (cur p status : ℕ)
      → Valid s k
      → cur < nproc
      → (k.table cur).state ≡ running
      → cur ≢ k.initproc
      → (k.table cur).parent ≡ some p
      → p ≢ cur
      → p ≢ k.initproc
      → ((j : ℕ) → j < nproc → (k.table j).parent ≡ some p → j ≡ cur)
      → (wait_pass s p (after_exit cur status k)).0 ≡ reaped (k.table cur).pid status
  zombie_then_wait k cur p status v l r dc kin d di only =
      let x = (become_zombie_lem k.table k.nextpid k.initproc cur status v r dc).1 in
      let w = wait_pass s p (after_exit cur status k) in
      by_result k cur p status l kin d di only x w.0 w.1
        (wait_pass_lem s p (after_exit cur status k))

  close_all-parent :
      (k : Kernel s) (cur j : ℕ) → ((close_all s cur k).table j).parent ≡ (k.table j).parent
  unfolding close_all
  close_all-parent k cur j = elim (Bool-cases (cur == j)) [
    | inl own ↦
        (let same : cur ≡ j = ground arith in
          rw (own, close_all) (ap (λ x. (k.table x).parent) same))
    | inr other ↦ rw (other, close_all) refl
  ]

  close_all-own :
      (k : Kernel s) (cur : ℕ)
      → (((close_all s cur k).table cur).pid ≡ (k.table cur).pid)
        × (((close_all s cur k).table cur).state ≡ (k.table cur).state)
        × ((close_all s cur k).initproc ≡ k.initproc)
  unfolding close_all
  close_all-own k cur = (ground arith, ground arith, refl)

  -- A running process other than init, in a valid table, that is the only child of a parent other
  -- than itself and init: its `exit` does not panic, and the parent's next pass of `wait` returns its
  -- pid and the status that it passed to `exit`.
  pub exit_then_wait :
      (k : Kernel s) (cur p status : ℕ)
      → Valid s k
      → cur < nproc
      → (k.table cur).state ≡ running
      → cur ≢ k.initproc
      → (k.table cur).parent ≡ some p
      → p ≢ cur
      → p ≢ k.initproc
      → ((j : ℕ) → j < nproc → (k.table j).parent ≡ some p → j ≡ cur)
      → (k' : Kernel s) × (exit s cur status k ≡ some k')
        × ((wait_pass s p k').0 ≡ reaped (k.table cur).pid status)
  unfolding exit
  exit_then_wait k cur p status v l r dc kin d di only =
      let c = close_all s cur k in
      let (pid, state, init) = close_all-own k cur in
      let goes : (cur == k.initproc) ≡ false = ground arith in
      let same : after_exit cur status c
          ≡ record c { table = become_zombie cur k.initproc status c.table } =
        ap (λ i. record c { table = become_zombie cur i status c.table }) init in
      (
        record c { table = become_zombie cur k.initproc status c.table },
        rw (goes, exit) refl,
        ap (λ x. (wait_pass s p x).0) (sym same)
            ∙ zombie_then_wait c cur p status (close_all-Valid s cur k v) l (state ∙ r)
                (λ e. dc (e ∙ init)) (close_all-parent k cur cur ∙ kin) d (λ e. di (e ∙ init))
                (λ j m e. only j m (sym (close_all-parent k cur j) ∙ e))
            ∙ ap (λ x. reaped x status) pid,
      )
