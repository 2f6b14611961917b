-- ===== src/Log/Disk/Recovery.antt =====
-- Recovery from the log: what `recover_from_log` makes of a disk, also if it is stopped itself.
use slab_study.Common.{ℕ, ◌+◌, ◌≤◌, ◌≡◌, ap, arith, List, [], ◌∷◌}
use slab_study.Log.Disk.{Block, Header, Store, read_head, recover_from_log}
use slab_study.Log.Disk.Loops.{IsHome}
use slab_study.Log.Disk.Heads.{read_head_state}
use slab_study.Log.Disk.Install.{StandsFor, IsRead, finished_full, finished_any}

-- The state in which the machine starts on the disk `d`: nothing is cached, the header in memory
-- is anything, and `p` writes are done before the next crash.
abbrev pub boot : (ℕ → Block) → Header → ℕ → Store
boot d h p = record { disk = d; mem = d; lh = h; power = p }

module _ (start size : ℕ) where
  boot-IsRead :
      (d : ℕ → Block) (h : Header) (p : ℕ) → IsRead start size (read_head start (boot d h p))
  boot-IsRead d h p =
      let r = read_head_state start (boot d h p) in
      record {
        count = ground (arith, r.0, ap (λ x. x start 0) r.2);
        names =
            λ j l. ground (arith, r.1 j, ap (λ x. x start 0) r.2, ap (λ x. x start (j + 1)) r.2);
        cached =
            λ j l. ground (arith, ap (λ x. x (start + j + 1)) r.2, ap (λ x. x (start + j + 1)) r.3);
      }

  -- The disk after a row of recoveries, each stopped by a crash once it has done so many writes.
  pub crashes : Header → (ℕ → Block) → List ℕ → ℕ → Block
  crashes h d [] = d
  crashes h d (p ∷ ps) = crashes h (recover_from_log start (boot d h p)).disk ps

  crashes-StandsFor :
      (h : Header) (d f : ℕ → Block) (ps : List ℕ)
      → StandsFor start size d f
      → StandsFor start size (crashes h d ps) f
  unfolding crashes recover_from_log read_head
  crashes-StandsFor h d f [] v = v
  crashes-StandsFor h d f (p ∷ ps) v =
      crashes-StandsFor h (recover_from_log start (boot d h p)).disk f ps
        (finished_any start size (read_head start (boot d h p)) f v (boot-IsRead d h p))

  -- Recovery may be stopped by crashes any number of times, after any number of writes. Once it
  -- runs with power for `size` writes, every block of the file system that the disk stood for is in
  -- its place, and the log is empty.
  pub recovery_lem :
      (h : Header) (d f : ℕ → Block) (ps : List ℕ) (p : ℕ)
      → StandsFor start size d f
      → size ≤ p
      → let r = recover_from_log start (boot (crashes h d ps) h p) in
        (r.disk start 0 ≡ 0) × ((b : ℕ) → IsHome start size b → f b ≡ r.disk b)
  unfolding recover_from_log read_head
  recovery_lem h d f ps p v enough =
      let c = crashes h d ps in
      let w = crashes-StandsFor h d f ps v in
      finished_full start size (read_head start (boot c h p)) f w (boot-IsRead c h p)
        (omega (arith, w.sane.few))
