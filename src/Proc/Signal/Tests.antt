-- ===== src/Proc/Signal/Tests.antt =====
-- The theorems on `kill`, `setpriority` and `getpriority` at an input.
use slab_study.Common.{◌≡◌, arith, true, negsuc}
use slab_study.Proc.Samples.{family, family-IsValid}
use slab_study.Proc.Signal.{getpriority}
use slab_study.Proc.Signal.Laws.{getpriority_stores_nothing}

getpriority_stores_nothing_example : getpriority 2 2 (negsuc 41) family ≡ (true, negsuc 41)
getpriority_stores_nothing_example =
    getpriority_stores_nothing 2 1 (negsuc 41) family-IsValid (omega arith) (λ e. cc)
