-- ===== src/Fs/Dir/NewEntry.antt =====
-- The entry that `dirlink` writes, and the place it finds for it.
use slab_study.Common.{
  ℕ, zero, suc, ◌+◌, ◌-◌, ◌*◌, ◌^◌, ◌<◌, ◌≤◌, ◌≡◌, inl, inr, refl, sym, ◌∙◌, arith, true, false,
  ltb, leb, ◌==◌, ◌&&◌, Bool-cases,
}
use mathlib.Core.Path.{subst}
use slab_study.Str.Bounded.{text, text_live, text_small, strncpy_lem}
use slab_study.Fs.{Disk, Superblock}
use slab_study.Fs.Bmap.{Inode}
use slab_study.Fs.Content.{Devsw}
use slab_study.Fs.Dir.{frame, entry_inum, find_free, Slot, slot_at, no_slot, new_entry}
use slab_study.Fs.Dir.Entries.{SameName, HasEntries, entry_at, read_entry_lem, frame-name}

-- The byte `i` of the name in the entry that is written.
new_entry-text :
    (name de : ℕ → ℕ) (inum i : ℕ)
    → i < 14
    → new_entry name inum de (2 + i) ≡ text (frame de name) 16 i
unfolding new_entry
new_entry-text name de inum i l =
    let first : (0 == 2 + i) ≡ false = ground arith in
    let second : (1 == 2 + i) ≡ false = ground arith in
    let within : (leb 2 (2 + i) && ltb (2 + i) 16) ≡ true = ground arith in
    let index : 2 + i - 2 ≡ i = omega arith in
    rw (first, second)
      (strncpy_lem (frame de name) 2 16 14 (2 + i) (inl (omega arith)) ∙ rw (within, index) refl)

pub new_entry-SameName : (name de : ℕ → ℕ) (inum : ℕ) → SameName name (new_entry name inum de)
new_entry-SameName name de inum k l before =
    sym (frame-name de name k)
    ∙ sym (text_live (frame de name) 16 k (λ j m z. before j m (sym (frame-name de name j) ∙ z)))
    ∙ sym (new_entry-text name de inum k l)

pub new_entry-inum :
    (name de : ℕ → ℕ) (inum : ℕ) → inum < 2 ^ 16 → entry_inum (new_entry name inum de) ≡ inum
unfolding new_entry
new_entry-inum name de inum l = omega arith

pub new_entry-small :
    (name de : ℕ → ℕ) (inum i : ℕ)
    → ((k : ℕ) → name k < 256)
    → i < 16
    → new_entry name inum de i < 256
unfolding new_entry
new_entry-small name de inum zero h l = omega arith
new_entry-small name de inum (suc zero) h l = omega arith
new_entry-small name de inum (suc (suc i)) h l =
    let at : 2 + i ≡ suc (suc i) = omega arith in
    subst (λ x. new_entry name inum de x < 256) at
      (subst (λ x. x < 256) (sym (new_entry-text name de inum i (omega arith)))
        (text_small (frame de name) 16 i
          (λ j m. subst (λ x. x < 256) (sym (frame-name de name j)) (h j))))

module _ (sb : Superblock) (dev : Devsw) where
  -- What the search for an entry finds: one that is not in use, or the end of the directory.
  abbrev pub FreeResult : Inode → Disk → Slot → Type 0
  FreeResult ip d no_slot = ⊥
  FreeResult ip d (slot_at off de ip' d') =
      (j : ℕ) × (off ≡ 16 * j)
      × (off ≤ ip.size)
      × (16 * j < ip.size → entry_inum (entry_at ip d j) ≡ 0)
      × (ip' ≡ ip)
      × (d' ≡ d)

  pub find_free_lem :
      (n k : ℕ) (de : ℕ → ℕ) (ip : Inode) (d : Disk)
      → HasEntries ip d
      → 16 * (k + n) ≡ ip.size
      → FreeResult ip d (find_free sb dev n (16 * k) de ip d)
  unfolding find_free
  find_free_lem zero k de ip d s e = (k, refl, omega arith, λ l. absurd (omega arith), refl, refl)
  find_free_lem (suc n) k de ip d s e =
      let (out, ran, same) = read_entry_lem sb dev k de ip d s (omega arith) in
      let next : 16 * k + 16 ≡ 16 * (k + 1) = omega arith in
      let number : entry_inum out ≡ entry_inum (entry_at ip d k) = ground (arith, same 0, same 1) in
      rw (ran, find_free)
        (elim (Bool-cases (entry_inum out == 0)) [
          | inl empty ↦ rw empty (k, refl, omega arith, λ l. sym number ∙ ground arith, refl, refl)
          | inr used ↦ rw (used, next) (find_free_lem n (k + 1) out ip d s (omega arith))
        ])
