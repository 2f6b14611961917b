-- ===== src/Spinlock/Tests.antt =====
-- Locks at an input: processor 0 takes two locks and gives them back.
use slab_study.Common.{◌≡◌, refl, true, false, some, none}
use slab_study.Spinlock.{CpuState, Lock, initlock, holding, acquire, release, acquired}
use slab_study.Spinlock.Nesting.{At, acquire_then_release}

abbrev idle : CpuState
idle = record { enabled = true; ncli = 0; intena = false }

idle-At : At true 0 idle
idle-At = (refl, refl, λ d. absurd (d refl))

abbrev taken : Lock
taken = record { locked = true; cpu = some 0 }

taken_by : holding 0 taken ≡ true
unfolding holding
taken_by = refl

acquire_then_release_example :
    let (r, held, c1) = acquire 0 initlock idle in
    (r ≡ acquired)
    × (holding 0 held ≡ true)
    × (c1.enabled ≡ false)
    × (c2 : CpuState) × (release 0 held c1 ≡ some (record { locked = false; cpu = none }, c2))
    × At true 0 c2
unfolding initlock
acquire_then_release_example = acquire_then_release 0 true 0 initlock idle refl idle-At
