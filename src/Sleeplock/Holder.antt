-- ===== src/Sleeplock/Holder.antt =====
-- At most one process holds a sleep lock, and one that waits for it is woken by its release.
use slab_study.Common.{ℕ, ◌<◌, ◌≡◌, ◌≢◌, refl, ap, arith, true}
use slab_study.Proc.Table.{
  Table, Chan, nproc, unused, sleeping, runnable, wakeup1, eq_chan, null, proc, object,
}
use slab_study.Proc.Invariant.{IsValid}
use slab_study.Proc.Life.{sleep_on, tidy_up}
use slab_study.Proc.Life.Preserve.{sleep_on_sleeps}
use slab_study.Sleeplock.{Lock, asleep, owned, acquire_pass, releasesleep, holdingsleep}

-- In a valid process table at most one process in use holds a sleep lock.
pub one_holder :
    (t : Table) (n init i j : ℕ) (lk : Lock)
    → IsValid t n init
    → i < nproc
    → j < nproc
    → (t i).state ≢ unused
    → holdingsleep i lk t ≡ true
    → holdingsleep j lk t ≡ true
    → i ≡ j
unfolding holdingsleep
one_holder t n init i j lk v l m live a b = v.unique i j l m (v.named i l live) (ground arith)

eq_chan_refl : (c : Chan) → eq_chan c c ≡ true
eq_chan_refl null = refl
eq_chan_refl (proc i) = ground arith
eq_chan_refl (object a) = ground arith

woken :
    (c : Chan) (t : Table) (j : ℕ)
    → (t j).state ≡ sleeping
    → (t j).chan ≡ c
    → (wakeup1 c t j).state ≡ runnable
unfolding wakeup1
woken c t j s e = ground (arith, eq_chan_refl c, ap (λ x. eq_chan x c) e)

-- A process that finds the lock held sleeps; when the holder releases it, the sleeper is runnable
-- again, and its next pass of the loop takes the lock, if no other process has taken it first.
pub acquire_after_release :
    (cur : ℕ) (lk : Lock) (t : Table)
    → lk.locked ≡ true
    → let (r, lk1, t1) = acquire_pass cur lk t in
      let (lk2, t2) = releasesleep lk1 t1 in
      let (r', lk3, t3) = acquire_pass cur lk2 (tidy_up cur t2) in
      (r ≡ asleep)
      × ((t1 cur).state ≡ sleeping)
      × ((t2 cur).state ≡ runnable)
      × (r' ≡ owned)
      × (holdingsleep cur lk3 t3 ≡ true)
unfolding acquire_pass releasesleep holdingsleep
acquire_after_release cur lk t e =
    let (s, c) = sleep_on_sleeps cur lk.chan t in
    rw (e, acquire_pass)
      (refl, s, woken lk.chan (sleep_on cur lk.chan t) cur s c, refl, ground arith)
