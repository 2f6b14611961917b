-- ===== src/Fs/Path.antt =====
-- Path names of xv6_lab3/fs.c: `skipelem`. A path is its bytes up to the NUL.
pub mod Pieces
use slab_study.Common.{
  ℕ, zero, suc, ◌+◌, Bool, true, false, Option, some, none, List, [], ◌∷◌, leb, ◌==◌, if◌then◌else◌,
  update,
}
use slab_study.Fs.Content.{paste}

-- `'/'`
abbrev pub slash : ℕ
slash = 47

-- `while(*path == '/') path++;`
unfoldable pub skip_slashes : List ℕ → List ℕ
skip_slashes [] = []
skip_slashes (x ∷ path) = let rest = skip_slashes path in if x == slash then rest else x ∷ path

-- `while(*path != '/' && *path != 0) path++;`, as the bytes that it passes and those behind.
unfoldable pub first_name : List ℕ → List ℕ
first_name [] = []
first_name (x ∷ path) = let rest = first_name path in if x == slash then [] else x ∷ rest

unfoldable pub behind_name : List ℕ → List ℕ
behind_name [] = []
behind_name (x ∷ path) = let rest = behind_name path in if x == slash then x ∷ path else rest

-- The number of bytes, and the byte at an index.
unfoldable pub count : List ℕ → ℕ
count [] = 0
count (x ∷ path) = count path + 1

unfoldable pub byte_at : List ℕ → ℕ → ℕ
byte_at [] i = 0
byte_at (x ∷ path) zero = x
byte_at (x ∷ path) (suc i) = byte_at path i

-- The copy of an element to `name`, with DIRSIZ = 14.
pub copy_name : List ℕ → (ℕ → ℕ) → ℕ → ℕ
copy_name w name =
    let len = count w in
    if leb 14 len then paste 0 14 (byte_at w) name else update (paste 0 len (byte_at w) name) len 0

-- `none` is a return of 0. `s` is the path without its leading slashes.
pub split_off : (s : List ℕ) → (ℕ → ℕ) → Option (List ℕ × (ℕ → ℕ))
split_off [] name = none
split_off (x ∷ path) name =
    some (skip_slashes (behind_name (x ∷ path)), copy_name (first_name (x ∷ path)) name)

pub skipelem : List ℕ → (ℕ → ℕ) → Option (List ℕ × (ℕ → ℕ))
unfolding split_off
skipelem path name = split_off (skip_slashes path) name
