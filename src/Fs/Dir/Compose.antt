-- ===== src/Fs/Dir/Compose.antt =====
-- `dirlink` and `dirlookup` as a whole, on the inodes in memory.
use mathlib.Core.Path.{subst, fun_ext}
use slab_study.Common.{
  ℕ, ◌+◌, ◌^◌, ◌<◌, ◌≤◌, ◌≡◌, ◌≢◌, ◌*◌, inl, inr, refl, sym, ap, ◌∙◌, arith, true, false, Option,
  some, none, ◌==◌, update, Bool-cases,
}
use slab_study.Fs.{Disk, Superblock}
use slab_study.Fs.Bitmap.Laws.{Layout}
use slab_study.Fs.Bmap.Laws.{NearlyFull}
use slab_study.Fs.Dinode.{iblock}
use slab_study.Fs.Content.{Devsw, max_size}
use slab_study.Fs.Content.Laws.{IsFile}
use slab_study.Fs.Icache.{ninode, Cached, Icache, iget}
use slab_study.Fs.Icache.Lookup.{IsUnique, Got, IgetResult, iget_lem, update-IsUnique}
use slab_study.Fs.Dir.{
  t_dir, entry_inum, entry_count, find_entry, Search, found, absent, unreadable, Looked, entry,
  no_entry, broken, got, look_up, dirlookup, Added, added, no_blocks, not_added, add_entry, Linking,
  returned, out_of_blocks, link_panic, link_result, link_absent, dirlink,
}
use slab_study.Fs.Dir.Entries.{IsDir, entry_at}
use slab_study.Fs.Dir.Find.{FindResult, dirlookup_lem}
use slab_study.Fs.Dir.Link.{AddResult, add_entry_lem}

-- To store the node that is there changes nothing.
same_node : (c : Icache) (dp : ℕ) → update c dp (record (c dp) { node = (c dp).node }) ≡ c
same_node c dp = fun_ext (λ j. elim (Bool-cases (dp == j)) [
  | inl here ↦ (let same : dp ≡ j = ground arith in rw here (ap c same))
  | inr away ↦ rw away refl
])

-- `dirlookup` that finds the inode `inum` returns what `iget` does.
abbrev pub LookResult : ℕ → ℕ → Icache → Disk → Looked → Type 0
LookResult dev inum c d (entry i off c' d') = Got dev inum i c c' × (d' ≡ d)
LookResult dev inum c d (no_entry c' d') = ⊥
LookResult dev inum c d broken = IgetResult dev inum c none

got_lem :
    (dev inum off : ℕ) (c : Icache) (d : Disk) (r : Option (ℕ × Icache))
    → IgetResult dev inum c r
    → LookResult dev inum c d (got off d r)
unfolding got
got_lem dev inum off c d none g = g
got_lem dev inum off c d (some (i, c')) g = (g, refl)

got-no_entry :
    (off : ℕ) (c : Icache) (d d' : Disk) (r : Option (ℕ × Icache)) → got off d r ≢ no_entry c d'
unfolding got
got-no_entry off c d d' none e = cc
got-no_entry off c d d' (some (i, c')) e = cc

-- The search failed if `dirlookup` returns 0.
absent_of :
    (name : ℕ → ℕ) (dp : ℕ) (c : Icache) (d : Disk) (r : Search)
    → FindResult name 0 (c dp).node d r
    → look_up dp c r ≡ no_entry c d
    → r ≡ absent (c dp).node d
unfolding look_up
absent_of name dp c d unreadable w e = absurd w
absent_of name dp c d (absent ip d') w e = ap (λ x. absent x d') w.1 ∙ ap (absent (c dp).node) w.2
absent_of name dp c d (found inum off ip d') w e = absurd (got-no_entry off c d' d _ e)

module _ (sb : Superblock) (dev : Devsw) (dp : ℕ) (name de : ℕ → ℕ) (c : Icache) (d : Disk)
    (is_dir : (c dp).node.kind ≡ t_dir) where
  dirlookup-look_up :
      dirlookup sb dev dp name de c d
      ≡ look_up dp c (find_entry sb dev name (entry_count (c dp).node.size) 0 de (c dp).node d)
  unfolding dirlookup
  dirlookup-look_up =
      let test : ((c dp).node.kind == t_dir) ≡ true = ground arith in rw (test, dirlookup) refl

  dirlookup-found :
      (inum off : ℕ)
      → find_entry sb dev name (entry_count (c dp).node.size) 0 de (c dp).node d
        ≡ found inum off (c dp).node d
      → dirlookup sb dev dp name de c d ≡ got off d (iget (c dp).dev inum c)
  unfolding look_up
  dirlookup-found inum off e =
      dirlookup-look_up
      ∙ ap (look_up dp c) e
      ∙ ap (λ x. got off d (iget (c dp).dev inum x)) (same_node c dp)

  pub dirlookup-absent :
      find_entry sb dev name (entry_count (c dp).node.size) 0 de (c dp).node d
        ≡ absent (c dp).node d
      → dirlookup sb dev dp name de c d ≡ no_entry c d
  unfolding look_up
  dirlookup-absent e =
      dirlookup-look_up ∙ ap (look_up dp c) e ∙ ap (λ x. no_entry x d) (same_node c dp)

module _ (sb : Superblock) (nmeta : ℕ) (lay : Layout sb nmeta) (dev : Devsw) where
  -- The table of inodes and the disk once `dirlink` has returned 0 for the directory in entry `dp`.
  pub record LinkedIn (dp : ℕ) (name : ℕ → ℕ) (inum : ℕ) (c : Icache) (d : Disk) (c' : Icache)
      (d' : Disk) : Type 0 where
    pub file : IsFile sb nmeta (c' dp).node d'
    pub dir : IsDir (c' dp).node d'
    pub looked_up :
        (de : ℕ → ℕ) → LookResult (c dp).dev inum c' d' (dirlookup sb dev dp name de c' d')
    pub slot : ℕ
    pub unused : 16 * slot < (c dp).node.size → entry_inum (entry_at (c dp).node d slot) ≡ 0
    pub kept :
        (j i : ℕ)
        → j ≢ slot
        → 16 * j < (c dp).node.size
        → i < 16
        → entry_at (c' dp).node d' j i ≡ entry_at (c dp).node d j i
    pub same_entry : c' dp ≡ record (c dp) { node = (c' dp).node }
    pub others : (j : ℕ) → j ≢ dp → c' j ≡ c j

  abbrev pub LinkResult : ℕ → (ℕ → ℕ) → ℕ → Icache → Disk → Linking → Type 0
  LinkResult dp name inum c d (returned true c' d') = LinkedIn dp name inum c d c' d'
  LinkResult dp name inum c d (returned false c' d') = ⊥
  LinkResult dp name inum c d (out_of_blocks ip' d') = NearlyFull sb nmeta lay d'
  LinkResult dp name inum c d link_panic = ⊥

  link_result_lem :
      (dp inum : ℕ) (name : ℕ → ℕ) (c : Icache) (d : Disk) (a : Added)
      → dp < ninode
      → 0 < (c dp).ref
      → IsUnique c
      → (c dp).node.kind ≡ t_dir
      → AddResult sb nmeta lay dev name inum (c dp).node d a
      → LinkResult dp name inum c d (link_result dp c a)
  unfolding link_result
  link_result_lem dp inum name c d not_added l r u k w = absurd w
  link_result_lem dp inum name c d (no_blocks ip d') l r u k w = w
  link_result_lem dp inum name c d (added ip' d') l r u k w =
      let own : (dp == dp) ≡ true = ground arith in
      let p : Cached = record (c dp) { node = ip' } in
      let at : update c dp p dp ≡ p = rw own refl in
      let unique : IsUnique (update c dp p) =
        update-IsUnique c dp p u (λ j m n s a b. n (u j dp m l s r a b)) in
      let dir_at : IsDir (update c dp p dp).node d' =
        subst (λ q. IsDir q.node d') (sym at) (record { kind = w.kind ∙ k; holds = w.dir }) in
      record {
        file = subst (λ q. IsFile sb nmeta q.node d') (sym at) w.file;
        dir = dir_at;
        looked_up = λ de.
            let (off, e) = w.looked_up de in
            let seen = dirlookup-found sb dev dp name de (update c dp p) d' dir_at.kind inum off (
              subst
                (λ q.
                  find_entry sb dev name (entry_count q.node.size) 0 de q.node d'
                  ≡ found inum off q.node d')
                (sym at) e) in
            subst (LookResult (c dp).dev inum (update c dp p) d')
              (ap (λ q. got off d' (iget q.dev inum (update c dp p))) (sym at) ∙ sym seen)
              (got_lem (c dp).dev inum off (update c dp p) d' _
                (iget_lem (c dp).dev inum (update c dp p) unique));
        slot = w.slot;
        unused = w.unused;
        kept = λ j i n m q. ap (λ x. entry_at x.node d' j i) at ∙ w.kept j i n m q;
        same_entry = at ∙ ap (λ q. record (c dp) { node = q.node }) (sym at);
        others = λ j n. let away : (dp == j) ≡ false = ground arith in rw away refl;
      }

  -- `dirlink` of an inode number from 1 to 65535 in a directory that is an entry in use of the table of
  -- inodes, where no two entries in use are the same inode. The directory is a file on a sound disk,
  -- its inode is stored below the bitmap, it has room for one entry more, and `dirlookup` returns 0 for
  -- the name. Then `dirlink` returns 0: the directory still is a directory on a sound disk, its other
  -- entries are as they were, the new one takes the place of an entry that is not in use or stands at
  -- the end, no other inode in memory changes, and `dirlookup` of the name returns the entry that
  -- `iget` gives to the inode number, or panics where `iget` has none. Or `balloc` panics, and then at
  -- most one block is free.
  pub dirlink_then_dirlookup :
      (dp inum : ℕ) (name de : ℕ → ℕ) (c : Icache) (d : Disk)
      → dp < ninode
      → 0 < (c dp).ref
      → IsUnique c
      → IsFile sb nmeta (c dp).node d
      → IsDir (c dp).node d
      → (c dp).node.size + 16 ≤ max_size
      → 0 < inum
      → inum < 2 ^ 16
      → ((i : ℕ) → name i < 256)
      → iblock sb (c dp).inum < sb.bmapstart
      → dirlookup sb dev dp name de c d ≡ no_entry c d
      → LinkResult dp name inum c d (dirlink sb dev dp name inum de c d)
  unfolding dirlink link_absent
  dirlink_then_dirlookup dp inum name de c d l r u f s room p q small below missing =
      let none_there =
        absent_of name dp c d
          (find_entry sb dev name (entry_count (c dp).node.size) 0 de (c dp).node d)
          (dirlookup_lem sb dev name (c dp).node d s.holds de)
          (sym (dirlookup-look_up sb dev dp name de c d s.kind) ∙ missing) in
      rw (missing, dirlink, link_absent)
        (link_result_lem dp inum name c d (add_entry sb dev (c dp).inum name inum de (c dp).node d)
          l r u s.kind
          (add_entry_lem sb nmeta lay dev (c dp).inum inum name de (c dp).node d f s.holds room p q
            small below none_there))
