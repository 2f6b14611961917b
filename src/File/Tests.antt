-- ===== src/File/Tests.antt =====
-- The table of open files at an input: entry 0 has two pointers, and no other has any.
use slab_study.Common.{ℕ, ◌≡◌, ◌≢◌, arith, false, some, List, [], ◌∷◌, ◌==◌, if◌then◌else◌}
use slab_study.File.{File, Ftable, fd_none, fd_inode, Closing, fileclose}
use slab_study.File.Counts.{Counts, GivesUp, fileclose_lem}

abbrev closed : File
closed = record {
  kind = fd_none;
  ref = 0;
  readable = false;
  writable = false;
  pipe = 0;
  ip = 0;
  off = 0;
}

abbrev shared : Ftable
shared i = if i == 0 then record closed { kind = fd_inode; ref = 2; ip = 40 } else closed

abbrev held : List ℕ
held = 0 ∷ 0 ∷ []

shared-Counts : Counts shared held
shared-Counts = record { exact = λ i. ground arith; small = λ i. ground arith }

fileclose_lem_example :
    (r : Closing) × (t : Ftable) × (fileclose 0 shared ≡ some (r, t))
    × Counts t (0 ∷ [])
    × GivesUp 1 (shared 0) r
    × (◌≡◌ {A = ℕ} 1 0 → (t 0).kind ≡ fd_none)
    × ((j : ℕ) → j ≢ 0 → t j ≡ shared j)
fileclose_lem_example = fileclose_lem shared (0 ∷ []) 0 shared-Counts
