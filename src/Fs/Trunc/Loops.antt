-- ===== src/Fs/Trunc/Loops.antt =====
-- The two loops of `itrunc`.
use slab_study.Common.{
  ℕ, zero, suc, ◌+◌, ◌<◌, ◌≤◌, ◌≡◌, ◌⊎◌, inl, inr, refl, sym, ap, ◌∙◌, arith, false, some, ◌==◌,
  update, Bool-cases,
}
use slab_study.Fs.{Disk, Block, Superblock, get_word}
use slab_study.Fs.Bitmap.Laws.{Layout, IsSound}
use slab_study.Fs.Bmap.{Inode, ndirect, nindirect}
use slab_study.Fs.Trunc.{free_direct, free_entries}
use slab_study.Fs.Trunc.Frees.{Frees, Holds, Frees-none, Frees-trans, Holds-rest, free_if_lem}

module _ (sb : Superblock) (nmeta : ℕ) (lay : Layout sb nmeta) where
  -- The entries of a table are given up.
  pub free_entries_lem :
      (f : ℕ → ℕ) (table n j hi : ℕ) (t : Block) (d : Disk)
      → j + n ≡ nindirect
      → hi ≡ 13 + nindirect
      → nmeta ≤ table
      → d table ≡ t
      → ((i : ℕ) → i < nindirect → get_word t i ≡ f (13 + i))
      → Holds sb nmeta f (13 + j) hi d
      → IsSound sb nmeta d
      → (d' : Disk) × (free_entries sb table j n d ≡ some d') × Frees sb nmeta f (13 + j) hi d d'
  unfolding free_entries
  free_entries_lem f table zero j hi t d e h above same entries w s =
      (d, refl, Frees-none sb nmeta f (13 + j) hi d (λ i a b. absurd (omega (arith, a, b))) s)
  free_entries_lem f table (suc n) j hi t d e h above same entries w s =
      let (d1, ran, g) = free_if_lem sb nmeta lay f (13 + j) hi d (omega arith) w s in
      let word : get_word (d table) j ≡ f (13 + j) =
        ap (λ a. get_word a j) same ∙ entries j (omega arith) in
      let next : 13 + j + 1 ≡ 13 + (j + 1) = omega arith in
      let g' : Frees sb nmeta f (13 + j) (13 + (j + 1)) d d1 = rw (sym next) g in
      let (d2, rest, q) =
        free_entries_lem f table n (j + 1) hi t d1 (omega arith) h above (g.rest table above ∙ same)
          entries (Holds-rest sb nmeta f (13 + j) (13 + (j + 1)) hi d d1 (omega arith) w g')
          g.sound in
      (
        d2,
        rw (word, ran, free_entries) rest,
        Frees-trans sb nmeta f (13 + j) (13 + (j + 1)) hi d d1 d2 (omega arith) (omega arith) w g'
            q,
      )

  -- The direct blocks are given up, and no other field of the inode changes.
  pub record Cleared (i : ℕ) (ip ip' : Inode) : Type 0 where
    pub gone : (k : ℕ) → i ≤ k → k < ndirect → ip'.addrs k ≡ 0
    pub kept : (k : ℕ) → (k < i) ⊎ (ndirect ≤ k) → ip'.addrs k ≡ ip.addrs k

  pub free_direct_lem :
      (f : ℕ → ℕ) (n i : ℕ) (ip : Inode) (d : Disk)
      → i + n ≡ ndirect
      → ((j : ℕ) → i ≤ j → j < ndirect → ip.addrs j ≡ f j)
      → Holds sb nmeta f i ndirect d
      → IsSound sb nmeta d
      → (ip' : Inode) × (d' : Disk) × (free_direct sb i n ip d ≡ some (ip', d'))
        × Frees sb nmeta f i ndirect d d'
        × Cleared i ip ip'
  unfolding free_direct
  free_direct_lem f zero i ip d e same w s = (
    ip,
    d,
    refl,
    Frees-none sb nmeta f i ndirect d (λ j a b. absurd (omega (arith, a, b))) s,
    record { gone = λ k a b. absurd (omega (arith, a, b)); kept = λ k o. refl },
  )
  free_direct_lem f (suc n) i ip d e same w s =
      let (d1, ran, g) = free_if_lem sb nmeta lay f i ndirect d (omega arith) w s in
      let ip1 : Inode = record ip { addrs = update ip.addrs i 0 } in
      let later : (j : ℕ) → i + 1 ≤ j → j < ndirect → update ip.addrs i 0 j ≡ f j =
        λ j a b. ground (arith, same j) in
      let (ip2, d2, rest, q, c) =
        free_direct_lem f n (i + 1) ip1 d1 (omega arith) later
          (Holds-rest sb nmeta f i (i + 1) ndirect d d1 (omega arith) w g) g.sound in
      (
        ip2,
        d2,
        rw (same i (omega arith) (omega arith), ran, free_direct) rest,
        Frees-trans sb nmeta f i (i + 1) ndirect d d1 d2 (omega arith) (omega arith) w g q,
        record {
          gone = λ k a b. elim (Bool-cases (i == k)) [
            | inl here ↦ c.kept k (inl (ground arith)) ∙ rw here refl
            | inr away ↦ c.gone k (ground (arith, a)) b
          ];
          kept = λ k o.
              let away : (i == k) ≡ false = other k o in c.kept k (before k o) ∙ rw away refl;
        },
      )
    where
      other : (k : ℕ) → (k < i) ⊎ (ndirect ≤ k) → (i == k) ≡ false
      other k (inl l) = ground arith
      other k (inr l) = ground arith

      before : (k : ℕ) → (k < i) ⊎ (ndirect ≤ k) → (k < i + 1) ⊎ (ndirect ≤ k)
      before k (inl l) = inl (omega arith)
      before k (inr l) = inr l
