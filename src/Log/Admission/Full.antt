-- ===== src/Log/Admission/Full.antt =====
-- What `begin_op` reserves is more than a log area of LOGSIZE blocks holds.
use slab_study.Common.{
  ℕ, zero, suc, ◌==◌, Bool-cases, inl, inr, ◌+◌, ◌-◌, ◌≤◌, ◌<◌, ◌≡◌, ◌≢◌, refl, arith, ap, ◌∙◌,
  false, none, List, [], ◌∷◌,
}
use slab_study.Log.Admission.{Log, begin_pass, log_write, log_size}
use slab_study.Log.Admission.Budget.{
  Run, idle, enters, adds, Spends, here, there, total, room_to_write, Run-fixed,
}
use slab_study.Log.Admission.Recording.{log_write_lem}

abbrev pub quiet : ℕ → Log
quiet size = record {
  size = size;
  outstanding = 0;
  committing = false;
  n = 0;
  block = λ _. 0;
  dirty = λ _. false;
}

-- Three system calls are in the transaction.
abbrev pub three : ℕ → Log
three size = record (quiet size) { outstanding = 3 }

pub three-Run : (size : ℕ) → Run size (three size) (10 ∷ 10 ∷ 10 ∷ [])
unfolding begin_pass
three-Run size =
    enters {l = record (quiet size) { outstanding = 2 }}
      (enters {l = record (quiet size) { outstanding = 1 }}
        (enters {l = quiet size} (idle (quiet size) refl refl refl) refl) refl)
      refl

-- The first call that may add a block does.
spend_one :
    (calls : List ℕ)
    → 0 < total calls
    → (left : List ℕ) × Spends calls left × (total calls ≡ total left + 1)
spend_one [] l = absurd (omega (arith, l))
spend_one (zero ∷ xs) l =
    let (left, s, e) = spend_one xs (omega (arith, l)) in (zero ∷ left, there s, omega (arith, e))
spend_one (suc m ∷ xs) l = (m ∷ xs, here, omega arith)

-- The calls have written `k` different blocks.
record Filled (size k : ℕ) : Type 0 where
  log : Log
  calls : List ℕ
  run : Run size log calls
  owed : total calls + k ≡ 30
  held : log.n ≡ k
  low : (i : ℕ) → i < k → log.block i < k

filled : (size k : ℕ) → k < size → size ≤ log_size → Filled size k
filled size zero l t = record {
  log = three size;
  calls = 10 ∷ 10 ∷ 10 ∷ [];
  run = three-Run size;
  owed = refl;
  held = refl;
  low = λ i m. absurd (omega arith);
}
filled size (suc k) l t =
    let h = filled size k (omega arith) t in
    let (left, spends, less) = spend_one h.calls (omega (arith, h.owed)) in
    let (l', written) =
      room_to_write size h.log h.calls k h.run (omega (arith, h.owed)) (ground (arith, h.held)) in
    let w = log_write_lem h.log l' k written in
    let new : (i : ℕ) → i < h.log.n → h.log.block i ≢ k =
      λ i m. let small = h.low i (ground (arith, h.held)) in omega (arith, small) in
    let (longer, last) = w.appended new in
    record {
      log = l';
      calls = left;
      run = adds k h.run spends new written;
      owed = omega (arith, h.owed, less);
      held = longer ∙ ap (λ x. x + 1) h.held ∙ (omega arith);
      low = λ i m. elim (Bool-cases (i == k)) [
        | inl same ↦ ground (arith, last, h.held)
        | inr other ↦
            let before : i < h.log.n = ground (arith, h.held) in
            let small = h.low i (ground arith) in
            let kept = w.kept i before in ground (arith, kept, small)
      ];
    }

-- For every log area of at most LOGSIZE blocks with its header, as the one of LOGSIZE blocks that mkfs
-- lays out, there is a run in which the system calls may still add blocks to the list, all within
-- their MAXOPBLOCKS, and in which `log_write` of every block panics.
pub reservation_exceeds_log :
    (size : ℕ)
    → 0 < size
    → size ≤ log_size
    → (l : Log) × (calls : List ℕ) × Run size l calls
      × (0 < total calls)
      × ((b : ℕ) → log_write b l ≡ none)
unfolding log_write
reservation_exceeds_log size p t =
    let h = filled size (size - 1) (omega arith) t in
    let fixed : h.log.size ≡ size = Run-fixed h.run in
    (h.log, h.calls, h.run, omega (arith, h.owed), λ b. ground (arith, h.held, fixed))
