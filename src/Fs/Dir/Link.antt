-- ===== src/Fs/Dir/Link.antt =====
-- `dirlink` behind its check that the name is not present.
use slab_study.Common.{
  ℕ, ◌+◌, ◌*◌, ◌%◌, ◌^◌, ◌<◌, ◌≤◌, ◌≡◌, ◌≢◌, ◌⊎◌, inl, inr, refl, sym, ap, ◌∙◌, arith, true, false,
  ltb, ◌==◌, ◌&&◌, Bool-cases,
}
use mathlib.Core.Path.{subst}
use slab_study.Fs.{Disk, Superblock}
use slab_study.Fs.Bitmap.Laws.{Layout}
use slab_study.Fs.Bmap.{Inode}
use slab_study.Fs.Bmap.Laws.{NearlyFull}
use slab_study.Fs.Dinode.{iblock}
use slab_study.Fs.Content.{
  Devsw, max_size, WriteResult, refused, to_device, wrote, panics, unfinished,
}
use slab_study.Fs.Content.Laws.{IsFile, Written, WriteSpec, writei_lem}
use slab_study.Fs.Dir.{
  entry_inum, entry_count, find_entry, Search, found, absent, unreadable, find_free, Slot, slot_at,
  no_slot, new_entry, Added, added, no_blocks, not_added, linked, write_entry, add_entry,
}
use slab_study.Fs.Dir.Entries.{HasEntries, entry_at}
use slab_study.Fs.Dir.Find.{Matches, Matches-same, FindResult, dirlookup_lem}
use slab_study.Fs.Dir.NewEntry.{
  new_entry-SameName, new_entry-inum, new_entry-small, FreeResult, find_free_lem,
}

module _ (sb : Superblock) (nmeta : ℕ) (lay : Layout sb nmeta) (dev : Devsw) where
  -- The directory once `dirlink` has added the entry (name, inum).
  pub record Linked (name : ℕ → ℕ) (inum : ℕ) (ip : Inode) (d : Disk) (ip' : Inode) (d' : Disk)
      : Type 0 where
    pub file : IsFile sb nmeta ip' d'
    pub dir : HasEntries ip' d'
    pub kind : ip'.kind ≡ ip.kind
    pub looked_up :
        (de : ℕ → ℕ)
        → (off : ℕ) × (find_entry sb dev name (entry_count ip'.size) 0 de ip' d'
            ≡ found inum off ip' d')
    pub slot : ℕ
    pub unused : 16 * slot < ip.size → entry_inum (entry_at ip d slot) ≡ 0
    pub kept :
        (j i : ℕ) → j ≢ slot → 16 * j < ip.size → i < 16 → entry_at ip' d' j i ≡ entry_at ip d j i

  abbrev pub AddResult : (ℕ → ℕ) → ℕ → Inode → Disk → Added → Type 0
  AddResult name inum ip d (added ip' d') = Linked name inum ip d ip' d'
  AddResult name inum ip d (no_blocks ip' d') = NearlyFull sb nmeta lay d'
  AddResult name inum ip d not_added = ⊥

  -- The one entry of the name is found.
  only_one :
      (name : ℕ → ℕ) (inum k : ℕ) (ip : Inode) (d : Disk) (r : Search)
      → 16 * k < ip.size
      → Matches name (entry_at ip d k)
      → entry_inum (entry_at ip d k) ≡ inum
      → ((j : ℕ) → 16 * j < ip.size → j ≢ k → ¬ (Matches name (entry_at ip d j)))
      → FindResult name 0 ip d r
      → (off : ℕ) × (r ≡ found inum off ip d)
  only_one name inum k ip d unreadable l m e others w = absurd w
  only_one name inum k ip d (absent ip' d') l m e others w = absurd (w.0 k (omega arith) l m)
  only_one name inum k ip d (found inum' off ip' d') l m e others w =
      let here : w.index ≡ k = elim (Bool-cases (w.index == k)) [
        | inl same ↦ ground arith
        | inr other ↦ absurd (others w.index w.below (ground arith) w.hit)
      ] in
      let number : inum' ≡ inum = w.number ∙ ap (λ j. entry_inum (entry_at ip d j)) here ∙ e in
      (
        off,
        ap (λ n. found n off ip' d') number
            ∙ ap (λ p. found inum off p d') w.same.0
            ∙ ap (λ q. found inum off ip q) w.same.1,
      )

  module _ (name : ℕ → ℕ) (inum slot : ℕ) (de : ℕ → ℕ) (ip : Inode) (d : Disk) (ip' : Inode)
      (d' : Disk) (positive : 0 < inum) (short : inum < 2 ^ 16) (s : HasEntries ip d)
      (inside : 16 * slot ≤ ip.size)
      (missing : (j : ℕ) → 16 * j < ip.size → ¬ (Matches name (entry_at ip d j)))
      (w : Written sb nmeta (16 * slot) 16 (new_entry name inum de) ip d ip' d') where
    new_bytes : (i : ℕ) → i < 16 → entry_at ip' d' slot i ≡ new_entry name inum de i
    new_bytes i l = w.new i l

    old_bytes :
        (j i : ℕ) → j ≢ slot → 16 * j < ip.size → i < 16 → entry_at ip' d' j i ≡ entry_at ip d j i
    old_bytes j i n l m =
        w.old (16 * j + i) (omega (arith, s.entries)) (apart (Bool-cases (ltb j slot)))
      where
        apart :
            ((ltb j slot ≡ true) ⊎ (ltb j slot ≡ false))
            → (16 * j + i < 16 * slot) ⊎ (16 * slot + 16 ≤ 16 * j + i)
        apart (inl below) = inl (ground arith)
        apart (inr above) = inr (ground arith)

    inum_there : entry_inum (entry_at ip' d' slot) ≡ inum
    inum_there = ground (arith, new_bytes 0, new_bytes 1, new_entry-inum name de inum short)

    match_there : Matches name (entry_at ip' d' slot)
    match_there =
        Matches-same name (new_entry name inum de) (entry_at ip' d' slot)
          (λ i l. sym (new_bytes i l))
          (
            λ z.
                (let n : inum ≡ 0 = sym (new_entry-inum name de inum short) ∙ z in
                  absurd (omega arith)),
            new_entry-SameName name de inum,
          )

    size_now :
        (ip'.size % 16 ≡ 0)
        × (16 * slot < ip'.size)
        × (ip'.size ≤ ip.size ⊎ (ip'.size ≡ 16 * slot + 16))
    size_now = elim (Bool-cases (ltb 0 16 && ltb ip.size (16 * slot + 16))) [
      | inl grows ↦
          let e : ip'.size ≡ 16 * slot + 16 = w.size ∙ rw grows refl in
          (omega arith, omega arith, inr e)
      | inr stays ↦
          let e : ip'.size ≡ ip.size = w.size ∙ rw stays refl in
          let past : 16 * slot + 16 ≤ ip.size = ground arith in
          (omega (arith, s.entries), omega arith, inl (omega arith))
    ]

    others : (j : ℕ) → 16 * j < ip'.size → j ≢ slot → ¬ (Matches name (entry_at ip' d' j))
    others j l n m =
        let before : 16 * j < ip.size = within size_now.2 in
        missing j before (
          Matches-same name (entry_at ip' d' j) (entry_at ip d j) (λ i k. old_bytes j i n before k)
            m)
      where
        within : (ip'.size ≤ ip.size ⊎ (ip'.size ≡ 16 * slot + 16)) → 16 * j < ip.size
        within (inl a) = omega arith
        within (inr a) = ground arith

    written-Linked :
        (16 * slot < ip.size → entry_inum (entry_at ip d slot) ≡ 0) → Linked name inum ip d ip' d'
    written-Linked free =
        let dir : HasEntries ip' d' = record {
          kind = λ e. s.kind (sym w.kind ∙ e);
          small = w.file.small;
          filled = w.file.filled;
          entries = size_now.0;
        } in
        record {
          file = w.file;
          dir = dir;
          kind = w.kind;
          looked_up = λ de'.
              only_one name inum slot ip' d' _ size_now.1 match_there inum_there others
                (dirlookup_lem sb dev name ip' d' dir de');
          slot = slot;
          unused = free;
          kept = old_bytes;
        }

  linked_lem :
      (name : ℕ → ℕ) (inum slot : ℕ) (de : ℕ → ℕ) (ip : Inode) (d : Disk) (r : WriteResult)
      → 0 < inum
      → inum < 2 ^ 16
      → HasEntries ip d
      → 16 * slot ≤ ip.size
      → ((j : ℕ) → 16 * j < ip.size → ¬ (Matches name (entry_at ip d j)))
      → (16 * slot < ip.size → entry_inum (entry_at ip d slot) ≡ 0)
      → WriteSpec sb nmeta lay (16 * slot) 16 (new_entry name inum de) ip d r
      → AddResult name inum ip d (linked r)
  unfolding linked
  linked_lem name inum slot de ip d refused p q s i m f w = absurd w
  linked_lem name inum slot de ip d (to_device major) p q s i m f w = absurd w
  linked_lem name inum slot de ip d unfinished p q s i m f w = absurd w
  linked_lem name inum slot de ip d (panics ip' d') p q s i m f w = w
  linked_lem name inum slot de ip d (wrote n ip' d') p q s i m f w =
      let all : (n == 16) ≡ true = ground (arith, w.0) in
      rw all (written-Linked name inum slot de ip d ip' d' p q s i m w.1 f)

  -- `dirlink` behind its check that the name is not present.
  pub add_entry_lem :
      (dinum inum : ℕ) (name de : ℕ → ℕ) (ip : Inode) (d : Disk)
      → IsFile sb nmeta ip d
      → HasEntries ip d
      → ip.size + 16 ≤ max_size
      → 0 < inum
      → inum < 2 ^ 16
      → ((i : ℕ) → name i < 256)
      → iblock sb dinum < sb.bmapstart
      → find_entry sb dev name (entry_count ip.size) 0 de ip d ≡ absent ip d
      → AddResult name inum ip d (add_entry sb dev dinum name inum de ip d)
  unfolding add_entry write_entry
  add_entry_lem dinum inum name de ip d f s room p q small below missing =
      go (find_free sb dev (entry_count ip.size) 0 de ip d)
        (find_free_lem sb dev (entry_count ip.size) 0 de ip d s (omega (arith, s.entries)))
    where
      none_yet : FindResult name 0 ip d (absent ip d)
      none_yet = subst (FindResult name 0 ip d) missing (dirlookup_lem sb dev name ip d s de)

      write :
          (off j : ℕ) (de' : ℕ → ℕ) (ip1 : Inode) (d1 : Disk)
          → off ≡ 16 * j
          → off ≤ ip.size
          → (16 * j < ip.size → entry_inum (entry_at ip d j) ≡ 0)
          → ip1 ≡ ip
          → d1 ≡ d
          → AddResult name inum ip d (write_entry sb dev dinum name inum (slot_at off de' ip1 d1))
      write off j de' ip1 d1 at inside free same_ip same_d =
          rw (at, same_ip, same_d, write_entry)
            (linked_lem name inum j de' ip d _ p q s (omega arith)
              (λ k l. none_yet.0 k (omega arith) l) free
              (writei_lem sb nmeta lay dev dinum (16 * j) 16 (new_entry name inum de') ip d f s.kind
                (omega arith) (omega arith) (λ i l. new_entry-small name de' inum i small l) below))

      go :
          (r : Slot)
          → FreeResult sb dev ip d r
          → AddResult name inum ip d (write_entry sb dev dinum name inum r)
      go no_slot w = absurd w
      go (slot_at off de' ip1 d1) (j, at, inside, free, same_ip, same_d) =
          write off j de' ip1 d1 at inside free same_ip same_d
