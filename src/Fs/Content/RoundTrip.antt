-- ===== src/Fs/Content/RoundTrip.antt =====
-- What `writei` writes, `readi` reads.
use Prim.Native.Nat.{min}
use slab_study.Common.{
  ℕ, ◌+◌, ◌-◌, ◌<◌, ◌≤◌, ◌≡◌, ◌≢◌, sym, ap, ◌∙◌, arith, true, some, ltb, ◌&&◌, if◌then◌else◌,
}
use slab_study.Fs.{Disk, Superblock}
use slab_study.Fs.Bitmap.Laws.{Layout}
use slab_study.Fs.Bmap.{Inode}
use slab_study.Fs.Bmap.Laws.{NearlyFull}
use slab_study.Fs.Dinode.{iblock}
use slab_study.Fs.Content.{
  max_size, t_dev, Devsw, readi, bytes, writei, WriteResult, refused, to_device, wrote, panics,
  unfinished,
}
use slab_study.Fs.Content.Read.{readi_inside}
use slab_study.Fs.Content.Laws.{IsFile, WriteSpec, writei_lem}

module _ (sb : Superblock) (nmeta : ℕ) (lay : Layout sb nmeta) (dev : Devsw) where
  -- A later `readi` of the same bytes, by the result of `writei`.
  abbrev pub ReadsBack : ℕ → ℕ → (ℕ → ℕ) → WriteResult → Type 0
  ReadsBack off n src refused = ⊥
  ReadsBack off n src (to_device major) = ⊥
  ReadsBack off n src (wrote m ip d) =
      (dst : ℕ → ℕ) (i : ℕ)
      → i < n
      → (out : ℕ → ℕ) × (readi sb dev off n dst ip d ≡ some (bytes n out, ip, d)) × (out i ≡ src i)
  ReadsBack off n src (panics ip d) = NearlyFull sb nmeta lay d
  ReadsBack off n src unfinished = ⊥

  reads_back :
      (off n : ℕ) (src : ℕ → ℕ) (ip : Inode) (d : Disk) (r : WriteResult)
      → ip.kind ≢ t_dev
      → off ≤ ip.size
      → off + n ≤ max_size
      → WriteSpec sb nmeta lay off n src ip d r
      → ReadsBack off n src r
  reads_back off n src ip d refused k o l w = w
  reads_back off n src ip d (to_device major) k o l w = w
  reads_back off n src ip d (panics ip' d') k o l w = w
  reads_back off n src ip d unfinished k o l w = w
  reads_back off n src ip d (wrote m ip' d') k o l w = λ dst i small.
      let end : off + n ≤ ip'.size = grown n off ip.size ip'.size (omega (arith, small)) w.1.size in
      let all : min n (ip'.size - off) ≡ n = omega (arith, end) in
      let (out, e, b) =
        readi_inside sb dev off n dst ip' d' (λ q. k (sym w.1.kind ∙ q)) w.1.file.small
          w.1.file.filled (omega (arith, end)) (omega (arith, l)) in
      let within : ltb i (min n (ip'.size - off)) ≡ true = ground (arith, all) in
      (
        out,
        e ∙ ap {A = ℕ} (λ x. some (bytes x out, ip', d')) all,
        b i ∙ rw within (w.1.new i small),
      )
    where
      grown :
          (n off old new : ℕ)
          → 0 < n
          → new ≡ (if ltb 0 n && ltb old (off + n) then off + n else old)
          → off + n ≤ new
      grown n off old new p e = ground arith

  -- For a file on a sound disk that is no device, whose inode is stored below the bitmap: the bytes that
  -- `writei` writes at an offset within the file, up to at most MAXFILE blocks, are what the next
  -- `readi` at this offset returns, or `balloc` panics, and then at most one block is free.
  pub writei_then_readi :
      (inum off n : ℕ) (src : ℕ → ℕ) (ip : Inode) (d : Disk)
      → IsFile sb nmeta ip d
      → ip.kind ≢ t_dev
      → off ≤ ip.size
      → off + n ≤ max_size
      → ((i : ℕ) → i < n → src i < 256)
      → iblock sb inum < sb.bmapstart
      → ReadsBack off n src (writei sb dev inum off n src ip d)
  writei_then_readi inum off n src ip d f k o l small i =
      reads_back off n src ip d _ k o l
        (writei_lem sb nmeta lay dev inum off n src ip d f k o l small i)
