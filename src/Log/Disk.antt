-- ===== src/Log/Disk.antt =====
-- The log of xv6_lab3/log.c on its disk: `install_trans`, `read_head`, `write_head`, `write_log`,
-- `commit`, `recover_from_log`, and the crash that may stop them.
pub mod Loops
pub mod Heads
pub mod Install
pub mod Recovery
pub mod Commit
mod Tests
use slab_study.Common.{ℕ, zero, suc, ◌+◌, ◌-◌, ltb, if◌then◌else◌, update}

-- A block as its 128 words; block 0 of an array is its first word.
abbrev pub Block : Type 0
Block = ℕ → ℕ

-- `struct logheader`
pub record Header : Type 0 where
  pub n : ℕ
  pub block : ℕ → ℕ

-- What a log operation reads and writes. `bread` gives the cached copy of a block or else reads
-- the disk, which is `mem`. A crash stops the writes: `power` of them still reach the disk, and of
-- the state after a crash only `disk` is left.
pub record Store : Type 0 where
  pub disk : ℕ → Block
  pub mem : ℕ → Block
  pub lh : Header
  pub power : ℕ

-- The disk once `power` allows `p` writes: one more block, if there is power for it.
pub poke : ℕ → (ℕ → Block) → ℕ → Block → ℕ → Block
poke zero disk b v = disk
poke (suc p) disk b v = update disk b v

-- `bwrite` of block `b` with the data `v`
pub bwrite : ℕ → Block → Store → Store
unfolding poke
bwrite b v s = record s {
  disk = poke s.power s.disk b v;
  mem = update s.mem b v;
  power = s.power - 1;
}

-- `hb->block[i] = log.lh.block[i]` for the `n` indices from `i` on. The array starts at word 1.
pub put_blocks : (ℕ → ℕ) → ℕ → ℕ → Block → Block
put_blocks from i zero hb = hb
put_blocks from i (suc n) hb = put_blocks from (i + 1) n (update hb (i + 1) (from i))

-- `log.lh.block[i] = lh->block[i]` for the `n` indices from `i` on.
pub get_blocks : Block → ℕ → ℕ → (ℕ → ℕ) → ℕ → ℕ
get_blocks lh i zero to = to
get_blocks lh i (suc n) to = get_blocks lh (i + 1) n (update to i (lh (i + 1)))

-- `log.lh.n = 0`
pub clear : Store → Store
clear s = record s { lh = record (s.lh) { n = 0 } }

-- `log.start` is set once, by `initlog`.
module _ (start : ℕ) where
  pub write_head : Store → Store
  unfolding bwrite
  write_head s = bwrite start (put_blocks s.lh.block 0 s.lh.n (update (s.mem start) 0 s.lh.n)) s

  pub read_head : Store → Store
  read_head s =
      let buf = s.mem start in
      record s { lh = record { n = buf 0; block = get_blocks buf 0 (buf 0) s.lh.block } }

  -- The loop of `install_trans` over the `n` indices from `tail` on: from the log to the blocks' homes.
  pub install : ℕ → ℕ → Store → Store
  install tail zero s = s
  install tail (suc n) s =
      install (tail + 1) n (bwrite (s.lh.block tail) (s.mem (start + tail + 1)) s)

  pub install_trans : Store → Store
  install_trans s = install 0 s.lh.n s

  -- The loop of `write_log` over the `n` indices from `tail` on: from the cache to the log.
  pub log_blocks : ℕ → ℕ → Store → Store
  log_blocks tail zero s = s
  log_blocks tail (suc n) s =
      log_blocks (tail + 1) n (bwrite (start + tail + 1) (s.mem (s.lh.block tail)) s)

  pub write_log : Store → Store
  write_log s = log_blocks 0 s.lh.n s

  pub commit : Store → Store
  commit s =
      if ltb 0 s.lh.n then write_head (clear (install_trans (write_head (write_log s)))) else s

  pub recover_from_log : Store → Store
  recover_from_log s = write_head (clear (install_trans (read_head s)))
