-- ===== src/Sleeplock/Tests.antt =====
-- Sleep locks at an input: entry 2 of the family holds the lock, and entry 1 asks for it.
use slab_study.Common.{ℕ, ◌≡◌, refl, true}
use slab_study.Proc.Table.{object, sleeping, runnable}
use slab_study.Proc.Life.{tidy_up}
use slab_study.Proc.Samples.{family}
use slab_study.Sleeplock.{Lock, asleep, owned, acquire_pass, releasesleep, holdingsleep}
use slab_study.Sleeplock.Holder.{acquire_after_release}

abbrev held : Lock
held = record { locked = true; pid = (family 2).pid; chan = object 9 }

holds : holdingsleep 2 held family ≡ true
unfolding holdingsleep
holds = refl

abbrev holder : ℕ
holder = 2

acquire_after_release_example :
    let (r, lk1, t1) = acquire_pass 1 held family in
    let (lk2, t2) = releasesleep lk1 t1 in
    let (r', lk3, t3) = acquire_pass 1 lk2 (tidy_up 1 t2) in
    (r ≡ asleep)
    × ((t1 1).state ≡ sleeping)
    × ((t2 1).state ≡ runnable)
    × (r' ≡ owned)
    × (holdingsleep 1 lk3 t3 ≡ true)
acquire_after_release_example = acquire_after_release 1 held family refl
