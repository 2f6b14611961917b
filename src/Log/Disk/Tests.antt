-- ===== src/Log/Disk/Tests.antt =====
-- Transactions that a crash stops, and the theorems on them at an input.
use slab_study.Common.{ℕ, ◌+◌, ◌*◌, ◌≡◌, refl, arith, inr, [], ◌∷◌}
use slab_study.Log.Disk.{
  Header, Store, bwrite, put_blocks, get_blocks, clear, write_head, read_head, install,
  install_trans, log_blocks, write_log, commit, recover_from_log,
}
use slab_study.Log.Disk.Loops.{IsHome, IsSane}
use slab_study.Log.Disk.Install.{StandsFor, empty-StandsFor}
use slab_study.Log.Disk.Recovery.{boot, crashes, recovery_lem}
use slab_study.Log.Disk.Commit.{IsReady, after_commit, outcome, commit_completes, commit_is_atomic}

-- A transaction of the blocks 10 and 12, with the log area from block 2 to block 6. The cached
-- copy of a block holds its number, and the disk holds zeros.
abbrev two_blocks : Header
two_blocks = record { n = 2; block = λ j. 10 + 2 * j }

abbrev store : ℕ → Store
store p = record { disk = λ _ _. 0; mem = λ b _. b; lh = two_blocks; power = p }

two_blocks-IsSane : IsSane 2 5 two_blocks
two_blocks-IsSane = record {
  few = omega arith;
  home = λ j l. inr (omega arith);
  distinct = λ i j l m e. omega arith;
}

ready : (p : ℕ) → IsReady 2 5 (store p)
ready p = record { sane = two_blocks-IsSane; clean = refl }

-- All six writes.
commits : ((commit 2 (store 6)).disk 12 0 ≡ 12) × ((commit 2 (store 6)).disk 2 0 ≡ 0)
unfolding commit write_log log_blocks write_head put_blocks bwrite install_trans install clear
commits = (refl, refl)

-- The header is written and one block installed, then the machine stops; recovery does the rest.
recovers :
    ((commit 2 (store 4)).disk 12 0 ≡ 0)
    × ((recover_from_log 2 (boot (commit 2 (store 4)).disk two_blocks 5)).disk 12 0 ≡ 12)
unfolding commit write_log log_blocks write_head put_blocks bwrite install_trans install clear
    recover_from_log read_head get_blocks
recovers = (refl, refl)

commit_completes_example :
    ((commit 2 (store 6)).disk 2 0 ≡ 0)
    × ((b : ℕ) → IsHome 2 5 b → after_commit (store 6) b ≡ (commit 2 (store 6)).disk b)
commit_completes_example = commit_completes 2 5 (store 6) (ready 6) (omega arith) (omega arith)

commit_is_atomic_example :
    let r =
      recover_from_log 2
        (boot (crashes 2 5 two_blocks (commit 2 (store 4)).disk (1 ∷ 2 ∷ [])) two_blocks 5) in
    (r.disk 2 0 ≡ 0) × ((b : ℕ) → IsHome 2 5 b → outcome 2 5 (store 4) b ≡ r.disk b)
commit_is_atomic_example =
    commit_is_atomic 2 5 (store 4) two_blocks (1 ∷ 2 ∷ []) 5 (ready 4) (omega arith)

zeros-StandsFor : StandsFor 2 5 (λ _ _. 0) (λ _ _. 0)
zeros-StandsFor = empty-StandsFor 2 5 (λ _ _. 0) (λ _ _. 0) (omega arith) refl (λ b h. refl)

recovery_lem_example :
    let r = recover_from_log 2 (boot (crashes 2 5 two_blocks (λ _ _. 0) (0 ∷ [])) two_blocks 5) in
    (r.disk 2 0 ≡ 0) × ((b : ℕ) → IsHome 2 5 b → (λ _. 0) ≡ r.disk b)
recovery_lem_example =
    recovery_lem 2 5 two_blocks (λ _ _. 0) (λ _ _. 0) (0 ∷ []) 5 zeros-StandsFor (omega arith)
