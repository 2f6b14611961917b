-- ===== src/Log/Disk/Commit.antt =====
-- A crash during `commit` leaves the file system of before or that of after.
use mathlib.Core.Path.{subst, fun_ext}
use slab_study.Common.{
  ℕ, ◌+◌, ◌-◌, ◌*◌, ◌≤◌, ◌<◌, ◌≡◌, ◌≢◌, ◌⊎◌, ◌&&◌, ◌∙◌, inl, inr, ap, sym, false, arith, ltb, ◌==◌,
  if◌then◌else◌, Bool-cases, List, find_index, find_index-some, find_index-exists, ==_refl,
  Option-cases, some, none,
}
use slab_study.Log.Disk.{
  Block, Header, Store, clear, write_head, install, install_trans, write_log, commit,
  recover_from_log,
}
use slab_study.Log.Disk.Loops.{
  IsHome, IsSane, install_state, install_frozen, log_blocks_state, log_blocks_frame,
  log_blocks_done,
}
use slab_study.Log.Disk.Heads.{
  head_block, head_block-n, head_block-block, write_head-disk, write_head_state,
}
use slab_study.Log.Disk.Install.{StandsFor, empty-StandsFor, IsRead, finished_full, finished_any}
use slab_study.Log.Disk.Recovery.{boot, crashes, recovery_lem}

-- The data of block `b` once the transaction of `s` is done: the cached copy of a block that the
-- header in memory names, and the block on the disk otherwise.
pub after_commit : Store → ℕ → Block
after_commit s b = elim (find_index (λ j. s.lh.block j == b) 0 s.lh.n) [
  | some j ↦ s.mem b
  | none ↦ s.disk b
]

after_commit-other :
    (s : Store) (b : ℕ) → ((j : ℕ) → j < s.lh.n → s.lh.block j ≢ b) → after_commit s b ≡ s.disk b
unfolding after_commit
after_commit-other s b other = elim (Option-cases (find_index (λ j. s.lh.block j == b) 0 s.lh.n)) [
  | inl e ↦ rw (e, after_commit)
  | inr (j, e) ↦
      let w = find_index-some (λ j. s.lh.block j == b) 0 s.lh.n e in
      absurd (other j (omega (arith, w.below)) (ground (arith, w.hit)))
]

after_commit-named :
    (s : Store) (j : ℕ) → j < s.lh.n → after_commit s (s.lh.block j) ≡ s.mem (s.lh.block j)
unfolding after_commit
after_commit-named s j l =
    let (i, e) =
      find_index-exists (λ i. s.lh.block i == s.lh.block j) 0 s.lh.n j (omega arith) (omega arith)
        (==_refl (s.lh.block j)) in
    rw (e, after_commit)

module _ (start size : ℕ) where
  -- When `commit` is called the log on the disk is empty, and the header in memory fits.
  pub record IsReady (s : Store) : Type 0 where
    pub sane : IsSane start size s.lh
    pub clean : s.disk start 0 ≡ 0

  module _ (s : Store) (v : IsReady s) (busy : 0 < s.lh.n) where
    logged : Store
    logged = write_log start s

    headed : Store
    headed = write_head start logged

    -- The log area as `write_log` leaves it, and the blocks outside.
    logged_state : (logged.lh ≡ s.lh) × (logged.power ≡ s.power - s.lh.n)
    unfolding logged write_log
    logged_state = log_blocks_state start 0 s.lh.n s

    logged_home :
        (b : ℕ) → IsHome start size b → (logged.disk b ≡ s.disk b) × (logged.mem b ≡ s.mem b)
    unfolding logged write_log
    logged_home b home = log_blocks_frame start 0 s.lh.n b s (outside home)
      where
        outside : IsHome start size b → (b < start + 0 + 1) ⊎ (start + 0 + s.lh.n < b)
        outside (inl l) = inl (omega arith)
        outside (inr l) = inr (omega (arith, v.sane.few))

    logged_start : (logged.disk start ≡ s.disk start) × (logged.mem start ≡ s.mem start)
    unfolding logged write_log
    logged_start = log_blocks_frame start 0 s.lh.n start s (inl (omega arith))

    logged_done :
        (j : ℕ)
        → j < s.lh.n
        → (logged.mem (start + j + 1) ≡ s.mem (s.lh.block j))
          × (s.lh.n ≤ s.power → logged.disk (start + j + 1) ≡ s.mem (s.lh.block j))
    unfolding logged write_log
    logged_done j l =
        let r =
          log_blocks_done start size 0 s.lh.n j s v.sane (omega arith) (omega arith)
            (omega arith) in
        (r.0, λ e. r.1 ∙ ground arith)

    headed-disk :
        (b : ℕ)
        → headed.disk b ≡ (
            if (start == b) && ltb s.lh.n s.power
            then head_block s.lh (logged.mem start)
            else logged.disk b)
    unfolding headed
    headed-disk b =
        let g = logged_state in write_head-disk start logged b ∙ ground (arith, g.0, g.1)

    -- Before the header is written the disk stands for the file system of before.
    old-StandsFor : s.power ≤ s.lh.n → StandsFor start size headed.disk s.disk
    old-StandsFor short =
        empty-StandsFor start size headed.disk s.disk (omega (arith, v.sane.few))
          (ap (λ w. w 0) (same start ∙ logged_start.0) ∙ v.clean)
          (λ b home. sym (same b ∙ (logged_home b home).0))
      where
        same : (b : ℕ) → headed.disk b ≡ logged.disk b
        same b = headed-disk b ∙ ground arith

    module _ (enough : s.lh.n < s.power) where
      head : headed.disk start ≡ head_block s.lh (logged.mem start)
      head = headed-disk start ∙ ground arith

      head-n : headed.disk start 0 ≡ s.lh.n
      head-n = ap (λ w. w 0) head ∙ head_block-n s.lh (logged.mem start)

      head-block : (j : ℕ) → j < s.lh.n → headed.disk start (j + 1) ≡ s.lh.block j
      head-block j l = ap (λ w. w (j + 1)) head ∙ head_block-block s.lh (logged.mem start) j l

      headed-data : (j : ℕ) → j < s.lh.n → headed.disk (start + j + 1) ≡ s.mem (s.lh.block j)
      headed-data j l = headed-disk (start + j + 1) ∙ ground (arith, (logged_done j l).1)

      -- Once the header is written the disk stands for the file system of after.
      new-StandsFor : StandsFor start size headed.disk (after_commit s)
      new-StandsFor = record {
        sane = record {
          few = rw head-n v.sane.few;
          home =
              λ j l. let m : j < s.lh.n = rw head-n at l in rw (head-block j m) (v.sane.home j m);
          distinct = λ i j l m e.
              let li : i < s.lh.n = rw head-n at l in
              let lj : j < s.lh.n = rw head-n at m in
              v.sane.distinct i j li lj (sym (head-block i li) ∙ e ∙ head-block j lj);
        };
        logged = λ j l.
            let m : j < s.lh.n = rw head-n at l in
            rw (head-block j m) (after_commit-named s j m ∙ sym (headed-data j m));
        placed = λ b home other.
            after_commit-other s b (λ j l e. other j (rw head-n l) (head-block j l ∙ e))
            ∙ sym (headed-disk b ∙ ground (arith, (logged_home b home).0, v.sane.few));
      }

      headed-IsRead : IsRead start size headed
      unfolding headed
      headed-IsRead =
          let w = write_head_state start logged in
          let g = logged_state in
          record {
            count = ground (arith, w.0, g.0, head-n);
            names = λ j l.
                let m : j < s.lh.n = rw head-n at l in ground (arith, w.0, g.0, head-block j m);
            cached = λ j l.
                let m : j < s.lh.n = rw head-n at l in
                ground (arith, w.2 (start + j + 1), (logged_done j m).0, headed-data j m);
          }

    unpowered :
        (b : ℕ)
        → s.power ≤ s.lh.n
        → (write_head start (clear (install_trans start headed))).disk b ≡ headed.disk b
    unfolding clear install_trans headed
    unpowered b short =
        let g = logged_state in
        let w = write_head_state start logged in
        let none_left : headed.power ≡ 0 = omega (arith, g.1, w.1) in
        let q = install_state start 0 headed.lh.n headed in
        write_head-disk start (clear (install_trans start headed)) b
        ∙ (let dead : (install start 0 headed.lh.n headed).power ≡ 0 =
              omega (arith, q.1, none_left) in
            ground (arith, dead, install_frozen start 0 headed.lh.n b headed none_left))

    busy_commit : commit start s ≡ write_head start (clear (install_trans start headed))
    unfolding commit headed logged
    busy_commit = ground arith

    commit_old : s.power ≤ s.lh.n → StandsFor start size (commit start s).disk s.disk
    commit_old short = rw busy_commit (
        subst (λ d. StandsFor start size d s.disk) (fun_ext (λ b. sym (unpowered b short)))
          (old-StandsFor short))

    commit_new : s.lh.n < s.power → StandsFor start size (commit start s).disk (after_commit s)
    commit_new enough = rw busy_commit (
        finished_any start size headed (after_commit s) (new-StandsFor enough)
          (headed-IsRead enough))

    commit_done :
        2 * s.lh.n + 1 < s.power
        → ((commit start s).disk start 0 ≡ 0)
          × ((b : ℕ) → IsHome start size b → after_commit s b ≡ (commit start s).disk b)
    unfolding headed
    commit_done all =
        let enough : s.lh.n < s.power = omega arith in
        let left : headed.disk start 0 < headed.power =
          omega (arith, head-n enough, logged_state.1, (write_head_state start logged).1) in
        rw busy_commit (
          finished_full start size headed (after_commit s) (new-StandsFor enough)
            (headed-IsRead enough) left)

  -- `commit` of a transaction that is not empty, with the log on the disk empty and power for its
  -- 2 n + 2 writes, puts the cached data of every logged block in its place on the disk, leaves the
  -- other blocks of the file system, and empties the log.
  pub commit_completes :
      (s : Store)
      → IsReady s
      → 0 < s.lh.n
      → 2 * s.lh.n + 1 < s.power
      → ((commit start s).disk start 0 ≡ 0)
        × ((b : ℕ) → IsHome start size b → after_commit s b ≡ (commit start s).disk b)
  commit_completes s v busy all = commit_done s v busy all

  -- The file system that a crash during `commit` leaves the disk standing for: that of after, if
  -- the write of the header was done, and otherwise that of before.
  abbrev pub outcome : Store → ℕ → Block
  outcome s = if ltb s.lh.n s.power then after_commit s else s.disk

  commit-StandsFor :
      (s : Store) → IsReady s → StandsFor start size (commit start s).disk (outcome s)
  unfolding commit
  commit-StandsFor s v = elim (Bool-cases (ltb 0 s.lh.n)) [
    | inl busy ↦ elim (Bool-cases (ltb s.lh.n s.power)) [
      | inl enough ↦ rw enough (commit_new s v (ground arith) (ground arith))
      | inr short ↦ rw short (commit_old s v (ground arith) (ground arith))
    ]
    | inr idle ↦ rw (quiet idle) (
        empty-StandsFor start size s.disk (outcome s) (omega (arith, v.sane.few)) v.clean
          (same idle))
  ]
    where
      quiet : ltb 0 s.lh.n ≡ false → commit start s ≡ s
      quiet idle = rw (idle, commit)

      same : ltb 0 s.lh.n ≡ false → (b : ℕ) → IsHome start size b → outcome s b ≡ s.disk b
      same idle b _ = elim (Bool-cases (ltb s.lh.n s.power)) [
        | inl enough ↦ rw enough (after_commit-other s b (λ j l. absurd (ground arith)))
        | inr short ↦ rw short
      ]

  -- A transaction is atomic. The disk writes of a `commit` stop at any point, a row of recoveries
  -- is stopped at any points, and at last one recovery has power for `size` writes: the log is then
  -- empty, and the blocks of the file system are all as before the transaction, if `commit` was
  -- stopped before its write of the header, and all as after it otherwise.
  pub commit_is_atomic :
      (s : Store) (h : Header) (ps : List ℕ) (p : ℕ)
      → IsReady s
      → size ≤ p
      → let r = recover_from_log start (boot (crashes start size h (commit start s).disk ps) h p) in
        (r.disk start 0 ≡ 0) × ((b : ℕ) → IsHome start size b → outcome s b ≡ r.disk b)
  commit_is_atomic s h ps p v enough =
      recovery_lem start size h (commit start s).disk (outcome s) ps p (commit-StandsFor s v) enough
