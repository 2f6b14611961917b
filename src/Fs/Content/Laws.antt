-- ===== src/Fs/Content/Laws.antt =====
-- `writei` as a whole.
use mathlib.Core.Path.{subst, fun_ext}
use slab_study.Common.{
  ℕ, ◌+◌, ◌-◌, ◌/◌, ◌%◌, ◌^◌, ◌<◌, ◌≤◌, ◌≡◌, ◌≢◌, ◌⊎◌, inl, inr, refl, sym, ap, ◌∙◌, arith, true,
  false, ltb, ◌==◌, ◌&&◌, ◌||◌, if◌then◌else◌, update, Bool-cases,
}
use slab_study.Fs.{Disk, Superblock, bsize}
use slab_study.Fs.Bitmap.Bits.{in_use}
use slab_study.Fs.Bitmap.Laws.{Layout, IsSound}
use slab_study.Fs.Bmap.{Inode}
use slab_study.Fs.Bmap.Slots.{nslots, slot, slot_of, IsMapped}
use slab_study.Fs.Bmap.Laws.{NearlyFull}
use slab_study.Fs.Dinode.RoundTrip.{put_dinode-small}
use slab_study.Fs.Dinode.{ipb, iblock, iupdate, put_dinode}
use slab_study.Fs.Content.{
  max_size, t_dev, Devsw, write_loop, new_size, write_result, writei, WriteResult, refused,
  to_device, wrote, panics, unfinished, Ran, done, panicked, no_fuel,
}
use slab_study.Fs.Content.Read.{content, IsFilled}
use slab_study.Fs.Content.Step.{Wrote}
use slab_study.Fs.Content.Write.{write_loop_lem, RanResult}
use slab_study.Fs.Content.Meta.{meta_slot, meta_bytes, meta_block, meta-IsMapped, meta-IsSound}

module _ (sb : Superblock) (nmeta : ℕ) where
  -- A file on a sound disk: its blocks are different blocks in use, and there up to its size.
  pub record IsFile (ip : Inode) (d : Disk) : Type 0 where
    pub small : ip.size ≤ max_size
    pub filled : IsFilled ip d ip.size
    pub mapped : IsMapped sb nmeta (slot ip.addrs d) d
    pub sound : IsSound sb nmeta d

  -- The file once `n` bytes are written from `off` on.
  pub record Written (off n : ℕ) (src : ℕ → ℕ) (ip : Inode) (d : Disk) (ip' : Inode) (d' : Disk)
      : Type 0 where
    pub file : IsFile ip' d'
    pub size : ip'.size ≡ (if ltb 0 n && ltb ip.size (off + n) then off + n else ip.size)
    pub new : (i : ℕ) → i < n → content ip' d' (off + i) ≡ src i
    pub old : (k : ℕ) → k < ip.size → (k < off) ⊎ (off + n ≤ k) → content ip' d' k ≡ content ip d k
    pub others :
        (c : ℕ)
        → nmeta ≤ c
        → c < sb.size
        → in_use sb d c ≡ true
        → ((j : ℕ) → j < nslots → slot ip.addrs d j ≢ c)
        → d' c ≡ d c
    pub kind : ip'.kind ≡ ip.kind

  module _ (lay : Layout sb nmeta) where
    abbrev pub WriteSpec : ℕ → ℕ → (ℕ → ℕ) → Inode → Disk → WriteResult → Type 0
    WriteSpec off n src ip d refused = ⊥
    WriteSpec off n src ip d (to_device major) = ⊥
    WriteSpec off n src ip d (wrote m ip' d') = (m ≡ n) × Written off n src ip d ip' d'
    WriteSpec off n src ip d (panics ip' d') = NearlyFull sb nmeta lay d'
    WriteSpec off n src ip d unfinished = ⊥

    module _ (off n : ℕ) (src : ℕ → ℕ) (ip ip1 : Inode) (d d1 : Disk) (f : IsFile ip d)
        (w : Wrote sb nmeta off n src ip d ip1 d1) (within : off ≤ ip.size)
        (fits : off + n ≤ max_size) where
      -- The blocks of the old content and of the new.
      all_filled :
          (k : ℕ) → (k < ip.size) ⊎ (k < off + n) → slot ip1.addrs d1 (slot_of (k / bsize)) ≢ 0
      all_filled k l = elim (Bool-cases (ltb k ip.size)) [
        | inl old ↦
            let below : k < ip.size = ground arith in
            let in_range : slot_of (k / bsize) < nslots = ground (arith, f.small, below) in
            λ z. f.filled k below (sym (w.fixed _ in_range (f.filled k below)) ∙ z)
        | inr new ↦
            let past : ip.size ≤ k = ground arith in
            let end : k < off + n = elim l [
              | inl a ↦ absurd (omega (arith, a, past))
              | inr b ↦ b
            ] in
            let at : off + (k - off) ≡ k = omega (arith, past) in
            subst (λ x. slot ip1.addrs d1 (slot_of (x / bsize)) ≢ 0) at
              (w.filled (k - off) (omega (arith, past, end)))
      ]

      same_size : ip1.size ≡ ip.size
      same_size = ap (λ x. x.size) w.fields

      same_kind : ip1.kind ≡ ip.kind
      same_kind = ap (λ x. x.kind) w.fields

      -- The size stays.
      kept-Written : (ltb 0 n && ltb ip.size (off + n)) ≡ false → Written off n src ip d ip1 d1
      kept-Written e = record {
        file = record {
          small = ground (arith, same_size, f.small);
          filled = λ k l. all_filled k (inl (ground (arith, same_size)));
          mapped = w.mapped;
          sound = w.sound;
        };
        size = rw e same_size;
        new = w.new;
        old = λ k l o. w.old k (omega (arith, l, f.small)) (f.filled k l) o;
        others = w.others;
        kind = same_kind;
      }

      -- The file has grown, and its inode is stored in its block.
      module _ (inum : ℕ) (inode_block : iblock sb inum < sb.bmapstart) where
        abbrev ip2 : Inode
        ip2 = record ip1 { size = off + n }

        abbrev stored : ℕ → ℕ
        stored = put_dinode (inum % ipb) ip2 (d1 (iblock sb inum))

        abbrev d2 : Disk
        d2 = update d1 (iblock sb inum) stored

        byte_same :
            (k : ℕ)
            → k < max_size
            → slot ip1.addrs d1 (slot_of (k / bsize)) ≢ 0
            → content ip2 d2 k ≡ content ip1 d1 k
        byte_same k l z =
            meta_bytes sb nmeta lay (iblock sb inum) stored inode_block ip1.addrs d1 w.mapped
              (slot_of (k / bsize)) (k % bsize) (ground arith) z

        grown-Written : (ltb 0 n && ltb ip.size (off + n)) ≡ true → Written off n src ip d ip2 d2
        grown-Written e = record {
          file = record {
            small = fits;
            filled = λ k l z. all_filled k (inr l) (
                sym (
                  meta_slot sb nmeta lay (iblock sb inum) stored inode_block ip1.addrs d1 w.mapped
                    (slot_of (k / bsize)))
                ∙ z);
            mapped =
                meta-IsMapped sb nmeta lay (iblock sb inum) stored inode_block ip1.addrs d1
                  w.mapped;
            sound =
                meta-IsSound sb nmeta lay (iblock sb inum) stored inode_block d1
                  (put_dinode-small (inum % ipb) ip2 (d1 (iblock sb inum))
                    (w.sound.bytes (iblock sb inum)))
                  w.sound;
          };
          size = rw e refl;
          new = λ i l. byte_same (off + i) (omega (arith, l)) (w.filled i l) ∙ w.new i l;
          old = λ k l o.
              byte_same k (omega (arith, l, f.small)) (all_filled k (inl l))
              ∙ w.old k (omega (arith, l, f.small)) (f.filled k l) o;
          others = λ c b l u g.
              meta_block sb nmeta lay (iblock sb inum) stored inode_block d1 c b
              ∙ w.others c b l u g;
          kind = same_kind;
        }

    -- The end of `writei`, behind the loop.
    write_result_lem :
        (inum off n : ℕ) (src : ℕ → ℕ) (ip : Inode) (d : Disk) (r : Ran)
        → IsFile ip d
        → off ≤ ip.size
        → off + n ≤ max_size
        → iblock sb inum < sb.bmapstart
        → RanResult sb nmeta lay off n src ip d r
        → WriteSpec off n src ip d (write_result sb inum n (off + n) r)
    unfolding write_result new_size iupdate
    write_result_lem inum off n src ip d (panicked ip1 d1) f o l i w = w
    write_result_lem inum off n src ip d no_fuel f o l i w = w
    write_result_lem inum off n src ip d (done ip1 d1) f o l i w =
        let size = same_size off n src ip ip1 d d1 f w o l in
        elim (Bool-cases (ltb 0 n && ltb ip1.size (off + n))) [
          | inl grows ↦
              rw (grows, write_result, new_size)
                (
                  refl,
                  grown-Written off n src ip ip1 d d1 f w o l inum i
                      (ap (λ x. ltb 0 n && ltb x (off + n)) (sym size) ∙ grows),
                )
          | inr stays ↦
              rw (stays, write_result, new_size)
                (
                  refl,
                  kept-Written off n src ip ip1 d d1 f w o l
                      (ap (λ x. ltb 0 n && ltb x (off + n)) (sym size) ∙ stays),
                )
        ]

    -- `writei` of `n` bytes to a file on a sound disk, at an offset within it, that leaves the file no
    -- longer than MAXFILE blocks; the file is no device, and its inode is stored below the bitmap. It writes all of them, and the file is still a file on a sound disk:
    -- it holds the bytes at the offset, the rest of its old content is as it was, it has grown to the
    -- end of the write if that is behind its end, and no data block in use that is not a block of the
    -- file changes. Or `balloc` panics, and then at most one block is free.
    pub writei_lem :
        (dev : Devsw) (inum off n : ℕ) (src : ℕ → ℕ) (ip : Inode) (d : Disk)
        → IsFile ip d
        → ip.kind ≢ t_dev
        → off ≤ ip.size
        → off + n ≤ max_size
        → ((i : ℕ) → i < n → src i < 256)
        → iblock sb inum < sb.bmapstart
        → WriteSpec off n src ip d (writei sb dev inum off n src ip d)
    unfolding writei
    writei_lem dev inum off n src ip d f k o l small i =
        let file : (ip.kind == t_dev) ≡ false = ground arith in
        let no_wrap : (off + n) % 2 ^ 32 ≡ off + n = omega arith in
        let inside : (ltb ip.size off || ltb (off + n) off) ≡ false = ground arith in
        let fits : ltb max_size (off + n) ≡ false = ground arith in
        let whole : n - 0 ≡ n = omega arith in
        let bytes : (λ i. src (0 + i)) ≡ src = fun_ext (λ i. ap src (omega arith)) in
        rw (file, no_wrap, inside, fits, writei)
          (write_result_lem inum off n src ip d _ f o l i (
            subst
              (λ m. RanResult sb nmeta lay off m src ip d (write_loop sb (n + 1) n 0 off src ip d))
              whole
              (subst
                (λ g.
                  RanResult sb nmeta lay off (n - 0) g ip d
                    (write_loop sb (n + 1) n 0 off src ip d))
                bytes
                (write_loop_lem sb nmeta lay (n + 1) n 0 off src ip d (omega arith) (omega arith)
                  (omega arith) small f.mapped f.sound))))
