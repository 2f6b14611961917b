-- ===== src/Log/Admission/Tests.antt =====
-- Three system calls in a transaction, and the theorems on `log_write` at an input.
use slab_study.Common.{ℕ, ◌<◌, ◌≡◌, arith, some, none, List, [], ◌∷◌}
use slab_study.Log.Admission.{Log, log_write}
use slab_study.Log.Admission.Budget.{Run, total, log_write_never_panics}
use slab_study.Log.Admission.Recording.{Recorded}
use slab_study.Log.Admission.Full.{three, three-Run, reservation_exceeds_log}

-- The log area of mkfs.
log_write_never_panics_example :
    (l' : Log) × (log_write 500 (three 30) ≡ some l') × Recorded (three 30) l' 500
log_write_never_panics_example =
    log_write_never_panics 30 (three 30) (10 ∷ 10 ∷ 10 ∷ []) 500 (three-Run 30) (omega arith)
      (omega arith)

reservation_exceeds_log_example :
    (l : Log) × (calls : List ℕ) × Run 30 l calls
    × (0 < total calls)
    × ((b : ℕ) → log_write b l ≡ none)
reservation_exceeds_log_example = reservation_exceeds_log 30 (omega arith) (omega arith)
