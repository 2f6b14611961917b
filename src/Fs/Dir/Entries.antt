-- ===== src/Fs/Dir/Entries.antt =====
-- The entries of a directory: their names, and how `readi` gets one.
use slab_study.Common.{
  ℕ, ◌+◌, ◌-◌, ◌*◌, ◌%◌, ◌<◌, ◌≤◌, ◌≡◌, ◌≢◌, ◌↔◌, refl, sym, ap, ◌∙◌, arith, true, false, some, ltb,
  ◌==◌, ℤ, pos, negsuc,
}
use Prim.Native.Nat.{min}
use slab_study.Str.Compare.{strncmp_lem}
use slab_study.Fs.{Disk, Superblock}
use slab_study.Fs.Bmap.{Inode}
use slab_study.Fs.Content.{Devsw, t_dev, max_size}
use slab_study.Fs.Content.Read.{content, IsFilled, readi_inside}
use slab_study.Fs.Dir.{t_dir, frame, namecmp, is_named, whole_entry, read_entry}

-- The name of the entry `de` is `name`: they agree in 14 bytes, or up to and with the NUL of `name`.
abbrev pub SameName : (ℕ → ℕ) → (ℕ → ℕ) → Type 0
SameName name de = (k : ℕ) → k < 14 → ((j : ℕ) → j < k → name j ≢ 0) → name k ≡ de (2 + k)

pub frame-name : (de name : ℕ → ℕ) (k : ℕ) → frame de name (16 + k) ≡ name k
unfolding frame
frame-name de name k =
    let far : ltb (16 + k) 16 ≡ false = ground arith in
    let index : 16 + k - 16 ≡ k = omega arith in rw (far, index) refl

frame-de : (de name : ℕ → ℕ) (k : ℕ) → k < 14 → frame de name (2 + k) ≡ de (2 + k)
unfolding frame
frame-de de name k l = let near : ltb (2 + k) 16 ≡ true = ground arith in rw near refl

is_named_zero :
    (name de : ℕ → ℕ) → (is_named name de ≡ true) ↔ (namecmp (frame de name) 16 2 ≡ pos 0)
is_named_zero name de = go (namecmp (frame de name) 16 2)
  where
    go : (r : ℤ) → ((elim r [ pos n ↦ n == 0 | negsuc n ↦ false ]) ≡ true) ↔ (r ≡ pos 0)
    go (pos n) =
        (λ e. (let z : n ≡ 0 = ground arith in ap pos z), λ e. (let z : n ≡ 0 = cc in ground arith))
    go (negsuc n) = (λ e. absurd (cc e), λ e. absurd (cc e))

pub is_named_lem : (name de : ℕ → ℕ) → (is_named name de ≡ true) ↔ SameName name de
unfolding namecmp
is_named_lem name de = (
  λ e k l before.
      sym (frame-name de name k)
      ∙ (strncmp_lem (frame de name) 16 2 14).0 ((is_named_zero name de).0 e) k l
          (λ j m z. before j m (sym (frame-name de name j) ∙ z))
      ∙ frame-de de name k l,
  λ h. (is_named_zero name de).1 (
      (strncmp_lem (frame de name) 16 2 14).1 (λ k l before.
        frame-name de name k
        ∙ h k l (λ j m z. before j m (frame-name de name j ∙ z))
        ∙ sym (frame-de de name k l))),
)

-- A file that is no device, whose blocks are there, and whose size is a multiple of that of an entry.
pub record HasEntries (ip : Inode) (d : Disk) : Type 0 where
  pub kind : ip.kind ≢ t_dev
  pub small : ip.size ≤ max_size
  pub filled : IsFilled ip d ip.size
  pub entries : ip.size % 16 ≡ 0

-- A directory.
pub record IsDir (ip : Inode) (d : Disk) : Type 0 where
  pub kind : ip.kind ≡ t_dir
  pub holds : HasEntries ip d

-- The entry `k` of a directory.
abbrev pub entry_at : Inode → Disk → ℕ → ℕ → ℕ
entry_at ip d k i = content ip d (16 * k + i)

module _ (sb : Superblock) (dev : Devsw) where
  pub read_entry_lem :
      (k : ℕ) (de : ℕ → ℕ) (ip : Inode) (d : Disk)
      → HasEntries ip d
      → 16 * k < ip.size
      → (out : ℕ → ℕ) × (read_entry sb dev (16 * k) de ip d ≡ some (out, ip, d))
        × ((i : ℕ) → i < 16 → out i ≡ entry_at ip d k i)
  unfolding read_entry whole_entry
  read_entry_lem k de ip d s l =
      let whole : min 16 (ip.size - 16 * k) ≡ 16 = omega (arith, s.entries) in
      let (out, e, b) =
        readi_inside sb dev (16 * k) 16 de ip d s.kind s.small s.filled (omega arith)
          (omega (arith, s.small)) in
      (
        out,
        rw (e, whole) refl,
        λ i m.
            let within : ltb i (min 16 (ip.size - 16 * k)) ≡ true = ground arith in
            b i ∙ rw within refl,
      )
