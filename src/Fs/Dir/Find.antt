-- ===== src/Fs/Dir/Find.antt =====
-- `dirlookup` finds the first entry of a name.
use slab_study.Common.{
  ℕ, zero, suc, ◌+◌, ◌*◌, ◌<◌, ◌≤◌, ◌≡◌, ◌≢◌, inl, inr, refl, sym, ◌∙◌, arith, Bool, true, false,
  ◌==◌, Bool-cases,
}
use mathlib.Core.Path.{subst}
use slab_study.Fs.{Disk, Superblock}
use slab_study.Fs.Bmap.{Inode}
use slab_study.Fs.Content.{Devsw}
use slab_study.Fs.Dir.{
  entry_inum, is_named, entry_count, find_entry, Search, found, absent, unreadable,
}
use slab_study.Fs.Dir.Entries.{SameName, is_named_lem, HasEntries, entry_at, read_entry_lem}

-- The entry is in use and has the name.
abbrev pub Matches : (ℕ → ℕ) → (ℕ → ℕ) → Type 0
Matches name de = (entry_inum de ≢ 0) × SameName name de

-- The result of a search from the entry `k` on, and that the search leaves the directory as it is.
pub record Found (name : ℕ → ℕ) (k : ℕ) (ip : Inode) (d : Disk) (inum off : ℕ) (ip' : Inode)
    (d' : Disk) : Type 0 where
  pub index : ℕ
  pub from : k ≤ index
  pub below : 16 * index < ip.size
  pub offset : off ≡ 16 * index
  pub number : inum ≡ entry_inum (entry_at ip d index)
  pub hit : Matches name (entry_at ip d index)
  pub first : (j : ℕ) → k ≤ j → j < index → ¬ (Matches name (entry_at ip d j))
  pub same : (ip' ≡ ip) × (d' ≡ d)

abbrev pub FindResult : (ℕ → ℕ) → ℕ → Inode → Disk → Search → Type 0
FindResult name k ip d (found inum off ip' d') = Found name k ip d inum off ip' d'
FindResult name k ip d (absent ip' d') =
    ((j : ℕ) → k ≤ j → 16 * j < ip.size → ¬ (Matches name (entry_at ip d j)))
    × (ip' ≡ ip)
    × (d' ≡ d)
FindResult name k ip d unreadable = ⊥

-- `Matches` reads the 16 bytes of an entry.
pub Matches-same :
    (name f g : ℕ → ℕ) → ((i : ℕ) → i < 16 → f i ≡ g i) → Matches name f → Matches name g
Matches-same name f g h (z, w) =
    (λ e. z (h_inum ∙ e), λ k l before. w k l before ∙ h (2 + k) (omega arith))
  where
    h_inum : entry_inum f ≡ entry_inum g
    h_inum = ground (arith, h 0, h 1)

not_both : {b : Bool} → b ≡ false → b ≡ true → ⊥
not_both p q = cc

skip_one :
    (name : ℕ → ℕ) (k : ℕ) (ip : Inode) (d : Disk) (r : Search)
    → ¬ (Matches name (entry_at ip d k))
    → FindResult name (k + 1) ip d r
    → FindResult name k ip d r
skip_one name k ip d unreadable n w = w
skip_one name k ip d (absent ip' d') n w = (
  λ j a l. elim (Bool-cases (j == k)) [
    | inl here ↦
        (let same : k ≡ j = ground arith in subst (λ x. ¬ (Matches name (entry_at ip d x))) same n)
    | inr other ↦ w.0 j (ground (arith, a)) l
  ],
  w.1,
  w.2,
)
skip_one name k ip d (found inum off ip' d') n w = record {
  index = w.index;
  from = omega (arith, w.from);
  below = w.below;
  offset = w.offset;
  number = w.number;
  hit = w.hit;
  first = λ j a l. elim (Bool-cases (j == k)) [
    | inl here ↦
        (let same : k ≡ j = ground arith in subst (λ x. ¬ (Matches name (entry_at ip d x))) same n)
    | inr other ↦ w.first j (ground (arith, a)) l
  ];
  same = w.same;
}

module _ (sb : Superblock) (dev : Devsw) (name : ℕ → ℕ) (ip : Inode) (d : Disk)
    (s : HasEntries ip d) where
  find_from :
      (n k : ℕ) (de : ℕ → ℕ)
      → 16 * (k + n) ≡ ip.size
      → FindResult name k ip d (find_entry sb dev name n (16 * k) de ip d)
  unfolding find_entry
  find_from zero k de e = (λ j a l. absurd (omega arith), refl, refl)
  find_from (suc n) k de e =
      let (out, ran, same) = read_entry_lem sb dev k de ip d s (omega arith) in
      let next : 16 * k + 16 ≡ 16 * (k + 1) = omega arith in
      let rest = find_from n (k + 1) out (omega arith) in
      let number : entry_inum out ≡ entry_inum (entry_at ip d k) = ground (arith, same 0, same 1) in
      rw (ran, find_entry)
        (elim (Bool-cases (entry_inum out == 0)) [
          | inl empty ↦
              rw (empty, next) (skip_one name k ip d _ (λ m. m.0 (sym number ∙ ground arith)) rest)
          | inr used ↦ rw used (elim (Bool-cases (is_named name out)) [
            | inl here ↦ rw here record {
              index = k;
              from = omega arith;
              below = omega arith;
              offset = refl;
              number = number;
              hit =
                  Matches-same name out (entry_at ip d k) same
                    (ground arith, (is_named_lem name out).0 here);
              first = λ j a l. absurd (omega (arith, a, l));
              same = (refl, refl);
            }
            | inr other ↦
                rw (other, next)
                  (skip_one name k ip d _
                    (λ m.
                      let match : Matches name out =
                        Matches-same name (entry_at ip d k) out (λ i l. sym (same i l)) m in
                      not_both other ((is_named_lem name out).1 match.1))
                    rest)
          ])
        ])

  -- The loop of `dirlookup`, for a directory whose blocks are there, whose size is a multiple of 16, and
  -- which is no device, reads all it needs and changes nothing. It finds the first
  -- entry that is in use and has the name, with its inode number and offset, if there is one.
  pub dirlookup_lem :
      (de : ℕ → ℕ) → FindResult name 0 ip d (find_entry sb dev name (entry_count ip.size) 0 de ip d)
  dirlookup_lem de = find_from (entry_count ip.size) 0 de (omega (arith, s.entries))
