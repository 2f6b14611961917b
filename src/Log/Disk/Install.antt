-- ===== src/Log/Disk/Install.antt =====
-- The second half of `commit` and of `recover_from_log`: the blocks are installed from the log and
-- the log is cleared, or a crash comes in between.
use slab_study.Common.{
  ℕ, ◌+◌, ◌≤◌, ◌<◌, ◌≡◌, ◌≢◌, ◌&&◌, ◌∙◌, inl, inr, ap, sym, arith, ltb, ◌==◌, if◌then◌else◌,
  Bool-cases, find_index, find_index-some, find_index-none, Option-cases,
}
use slab_study.Log.Disk.{Block, Header, Store, clear, write_head, install_trans}
use slab_study.Log.Disk.Loops.{IsHome, IsSane, install_state, install_frame, install_done}
use slab_study.Log.Disk.Heads.{head_block, head_block-n, write_head-disk}

module _ (start size : ℕ) where
  -- The header that a disk holds.
  abbrev pub header_on : (ℕ → Block) → Header
  header_on d = record { n = d start 0; block = λ j. d start (j + 1) }

  -- The disk `d` stands for the file system `f`: the blocks that its header names have their data
  -- in the log, and every other block of the file system is in its place.
  pub record StandsFor (d f : ℕ → Block) : Type 0 where
    pub sane : IsSane start size (header_on d)
    pub logged : (j : ℕ) → j < d start 0 → f (d start (j + 1)) ≡ d (start + j + 1)
    pub placed :
        (b : ℕ) → IsHome start size b → ((j : ℕ) → j < d start 0 → d start (j + 1) ≢ b) → f b ≡ d b

  -- A disk whose header is empty stands for what its blocks hold.
  pub empty-StandsFor :
      (d f : ℕ → Block)
      → 0 < size
      → d start 0 ≡ 0
      → ((b : ℕ) → IsHome start size b → f b ≡ d b)
      → StandsFor d f
  empty-StandsFor d f positive e h = record {
    sane = record {
      few = omega arith;
      home = λ j l. absurd (omega arith);
      distinct = λ i j l. absurd (omega arith);
    };
    logged = λ j l. absurd (omega arith);
    placed = λ b home _. h b home;
  }

  -- The header in memory is that of the disk, and so are the cached log blocks.
  pub record IsRead (s : Store) : Type 0 where
    pub count : s.lh.n ≡ s.disk start 0
    pub names : (j : ℕ) → j < s.disk start 0 → s.lh.block j ≡ s.disk start (j + 1)
    pub cached : (j : ℕ) → j < s.disk start 0 → s.mem (start + j + 1) ≡ s.disk (start + j + 1)

  module _ (s : Store) (f : ℕ → Block) (v : StandsFor s.disk f) (r : IsRead s) where
    installed : Store
    installed = install_trans start s

    in_memory : IsSane start size s.lh
    in_memory = record {
      few = ground (arith, r.count, v.sane.few);
      home =
          λ j l. rw (r.names j (ground (arith, r.count))) (v.sane.home j (ground (arith, r.count)));
      distinct = λ i j l m e.
          v.sane.distinct i j (ground (arith, r.count)) (ground (arith, r.count))
            (ground (arith, r.names i, r.names j, r.count));
    }

    -- The log area is not touched by the installation.
    log_kept : (b : ℕ) → ¬ IsHome start size b → installed.disk b ≡ s.disk b
    unfolding installed install_trans
    log_kept b away =
        (install_frame start 0 s.lh.n b s (λ j q l e. away (ground (arith, in_memory.home j, e)))).0

    -- A block that the header does not name is in its place.
    installed_placed :
        (b : ℕ)
        → IsHome start size b
        → ((j : ℕ) → j < s.disk start 0 → s.disk start (j + 1) ≢ b)
        → f b ≡ installed.disk b
    unfolding installed install_trans
    installed_placed b home other =
        v.placed b home other
        ∙ sym
            (install_frame start 0 s.lh.n b s (λ j q l e.
              other j (ground (arith, r.count)) (sym (r.names j (ground (arith, r.count))) ∙ e))).0

    -- A block that the header names is in its place if its write was done.
    installed_logged :
        (j : ℕ)
        → j < s.disk start 0
        → j < s.power
        → f (s.disk start (j + 1)) ≡ installed.disk (s.disk start (j + 1))
    unfolding installed install_trans
    installed_logged j l m =
        let at : s.lh.block j ≡ s.disk start (j + 1) = r.names j l in
        let w =
          install_done start size 0 s.lh.n j s in_memory (omega arith) (ground (arith, r.count))
            (omega arith) in
        v.logged j l ∙ sym (rw (← at) (w.1 ∙ ground (arith, r.cached j l)))

    installed_all :
        (b : ℕ) → IsHome start size b → s.disk start 0 ≤ s.power → f b ≡ installed.disk b
    installed_all b home enough =
        elim (Option-cases (find_index (λ j. s.disk start (j + 1) == b) 0 (s.disk start 0))) [
          | inl e ↦ installed_placed b home (λ j l q.
              ground
                (arith, find_index-none (λ j. s.disk start (j + 1) == b) 0 (s.disk start 0) e j))
          | inr (j, e) ↦
              let w = find_index-some (λ j. s.disk start (j + 1) == b) 0 (s.disk start 0) e in
              let same : s.disk start (j + 1) ≡ b = ground (arith, w.hit) in
              rw (← same) (installed_logged j (omega (arith, w.below)) (omega (arith, w.below)))
        ]

    abbrev pub finished : Store
    finished = write_head start (clear (install_trans start s))

    finished-disk :
        (b : ℕ)
        → finished.disk b ≡ (
            if (start == b) && ltb (s.disk start 0) s.power
            then head_block (record (s.lh) { n = 0 }) (installed.mem start)
            else installed.disk b)
    unfolding installed install_trans clear
    finished-disk b =
        let q = install_state start 0 s.lh.n s in
        ground (arith, write_head-disk start (clear (install_trans start s)) b, r.count, q.0, q.1)

    elsewhere : (b : ℕ) → start ≤ b → b < start + size → ¬ IsHome start size b
    elsewhere b l m (inl k) = omega arith
    elsewhere b l m (inr k) = omega arith

    -- With power for every block and the header, the file system is in its place and the log is
    -- empty.
    pub finished_full :
        s.disk start 0 < s.power
        → (finished.disk start 0 ≡ 0) × ((b : ℕ) → IsHome start size b → f b ≡ finished.disk b)
    finished_full enough = (
      ground (
        arith,
        ap (λ w. w 0) (finished-disk start),
        head_block-n (record (s.lh) { n = 0 }) (installed.mem start),
      ),
      λ b home.
          installed_all b home (omega arith) ∙ sym (finished-disk b ∙ ground (arith, v.sane.few)),
    )

    -- Without, the disk still stands for the same file system.
    finished_part : s.power ≤ s.disk start 0 → StandsFor finished.disk f
    finished_part short = record {
      sane = rw head v.sane;
      logged = λ j l.
          let m : j < s.disk start 0 = rw head at l in
          rw head (
            v.logged j m
            ∙ sym (
                kept (start + j + 1)
                  (elsewhere (start + j + 1) (omega arith) (omega (arith, v.sane.few)))));
      placed = λ b home other. installed_placed b home (rw head at other) ∙ sym (same b);
    }
      where
        same : (b : ℕ) → finished.disk b ≡ installed.disk b
        same b = finished-disk b ∙ ground arith

        kept : (b : ℕ) → ¬ IsHome start size b → finished.disk b ≡ s.disk b
        kept b away = same b ∙ log_kept b away

        head : finished.disk start ≡ s.disk start
        head = kept start (elsewhere start (omega arith) (omega (arith, v.sane.few)))

    pub finished_any : StandsFor finished.disk f
    finished_any = elim (Bool-cases (ltb (s.disk start 0) s.power)) [
      | inl enough ↦
          let w = finished_full (ground arith) in
          empty-StandsFor finished.disk f (omega (arith, v.sane.few)) w.0 w.1
      | inr short ↦ finished_part (ground arith)
    ]
