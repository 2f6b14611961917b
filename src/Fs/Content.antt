-- ===== src/Fs/Content.antt =====
-- `readi` and `writei` of xv6_lab3/fs.c: the content of a file.
pub mod Read
pub mod Step
pub mod Write
pub mod Meta
pub mod Laws
pub mod RoundTrip
use Prim.Native.Nat.{min}
use slab_study.Common.{
  ℕ, zero, suc, ◌+◌, ◌-◌, ◌*◌, ◌/◌, ◌%◌, ◌^◌, Bool, true, false, Option, some, none, not, ltb, leb,
  ◌==◌, ◌&&◌, ◌||◌, if◌then◌else◌, update,
}
use slab_study.Fs.{Disk, Superblock, bsize}
use slab_study.Fs.Bmap.{Inode, ndirect, nindirect, bmap}
use slab_study.Fs.Dinode.{iupdate}

-- `T_DEV`, `NDEV`, and `MAXFILE * BSIZE`
abbrev pub t_dev : ℕ
t_dev = 3

abbrev pub ndev : ℕ
ndev = 10

abbrev pub max_size : ℕ
max_size = (ndirect + nindirect) * bsize

-- `devsw`: which entries have a `read` and a `write`.
pub record Devsw : Type 0 where
  pub reads : ℕ → Bool
  pub writes : ℕ → Bool

-- `ip->major < 0 || ip->major >= NDEV`, of the short whose bits are `major`.
abbrev pub is_bad_major : ℕ → Bool
is_bad_major major = leb (2 ^ 15) major || leb ndev major

-- `memmove` of `m` bytes of `src` to the address `i` of another array.
unfoldable pub paste : ℕ → ℕ → (ℕ → ℕ) → (ℕ → ℕ) → ℕ → ℕ
paste i m src a j = if leb i j && ltb j (i + m) then src (j - i) else a j

-- `min(n - tot, BSIZE - off%BSIZE)`
abbrev pub stretch : ℕ → ℕ → ℕ → ℕ
stretch n tot off = min (n - tot) (bsize - off % bsize)

-- What `readi` ends in: -1, a call of the device's function, or the number of bytes read with the
-- caller's array.
pub data ReadResult : Type 0 where
  failed : ReadResult
  device : (major : ℕ) → ReadResult
  bytes : (n : ℕ) (dst : ℕ → ℕ) → ReadResult

-- How the loop of `writei` ends: it is through, or `bmap` panics.
pub data Ran : Type 0 where
  done : Inode → Disk → Ran
  panicked : Inode → Disk → Ran
  no_fuel : Ran

pub data WriteResult : Type 0 where
  refused : WriteResult
  to_device : (major : ℕ) → WriteResult
  wrote : (n : ℕ) → Inode → Disk → WriteResult
  panics : Inode → Disk → WriteResult
  unfinished : WriteResult

module _ (sb : Superblock) where
  -- The loop of `readi`; `none` is a panic of `bmap`.
  pub read_loop : ℕ → ℕ → ℕ → ℕ → (ℕ → ℕ) → Inode → Disk → Option ((ℕ → ℕ) × Inode × Disk)
  read_loop zero n tot off dst ip d = none
  read_loop (suc fuel) n tot off dst ip d =
      if ltb tot n
      then elim (bmap sb (off / bsize) ip d) [
        | some (a, ip', d') ↦
            let m = stretch n tot off in
            read_loop fuel n (tot + m) (off + m) (paste tot m (λ x. d' a (off % bsize + x)) dst) ip'
              d'
        | none ↦ none
      ]
      else some (dst, ip, d)

  -- The result of the loop, with the `n` that `readi` returns.
  pub read_result : ℕ → Option ((ℕ → ℕ) × Inode × Disk) → Option (ReadResult × Inode × Disk)
  read_result n none = none
  read_result n (some (dst, ip, d)) = some (bytes n dst, ip, d)

  -- A pass of the loop copies a byte at least, so `n + 1` passes are enough.
  pub read_bytes : ℕ → ℕ → (ℕ → ℕ) → Inode → Disk → Option (ReadResult × Inode × Disk)
  unfolding read_result
  read_bytes off n dst ip d = read_result n (read_loop (n + 1) n 0 off dst ip d)

  pub readi : Devsw → ℕ → ℕ → (ℕ → ℕ) → Inode → Disk → Option (ReadResult × Inode × Disk)
  readi dev off n dst ip d =
      let end = (off + n) % 2 ^ 32 in
      if ip.kind == t_dev
      then (if is_bad_major ip.major || not (dev.reads ip.major)
          then some (failed, ip, d)
          else some (device ip.major, ip, d))
      else if ltb ip.size off || ltb end off
      then some (failed, ip, d)
      else if ltb ip.size end
      then read_bytes off (ip.size - off) dst ip d
      else read_bytes off n dst ip d

  -- The loop of `writei`.
  pub write_loop : ℕ → ℕ → ℕ → ℕ → (ℕ → ℕ) → Inode → Disk → Ran
  write_loop zero n tot off src ip d = no_fuel
  write_loop (suc fuel) n tot off src ip d =
      if ltb tot n
      then elim (bmap sb (off / bsize) ip d) [
        | some (a, ip', d') ↦
            let m = stretch n tot off in
            write_loop fuel n (tot + m) (off + m) src ip'
              (update d' a (paste (off % bsize) m (λ x. src (tot + x)) (d' a)))
        | none ↦ panicked ip d
      ]
      else done ip d

  -- `if(n > 0 && off > ip->size)`, where `end` is what the loop has made of `off`.
  pub new_size : ℕ → ℕ → ℕ → Inode → Disk → Inode × Disk
  new_size inum n end ip d =
      let ip' : Inode = record ip { size = end } in
      if ltb 0 n && ltb ip.size end then (ip', iupdate sb inum ip' d) else (ip, d)

  pub write_result : ℕ → ℕ → ℕ → Ran → WriteResult
  write_result inum n end (done ip d) = let (ip', d') = new_size inum n end ip d in wrote n ip' d'
  write_result inum n end (panicked ip d) = panics ip d
  write_result inum n end no_fuel = unfinished

  pub writei : Devsw → ℕ → ℕ → ℕ → (ℕ → ℕ) → Inode → Disk → WriteResult
  unfolding write_result
  writei dev inum off n src ip d =
      let end = (off + n) % 2 ^ 32 in
      if ip.kind == t_dev
      then (if is_bad_major ip.major || not (dev.writes ip.major)
          then refused
          else to_device ip.major)
      else if ltb ip.size off || ltb end off
      then refused
      else if ltb max_size end
      then refused
      else write_result inum n (off + n) (write_loop (n + 1) n 0 off src ip d)
