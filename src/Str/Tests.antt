-- ===== src/Str/Tests.antt =====
-- The routines on memory at an input: a copy to the next address over, in both directions.
use slab_study.Common.{ℕ, ◌+◌, ◌≡◌, ◌&&◌, ltb, leb, if◌then◌else◌, ◌-◌, refl, some, arith}
use slab_study.Str.{strlen, memmove, copy_down}
use slab_study.Str.Copy.{copied, memmove_lem}
use slab_study.Str.Bounded.{strlen_lem}

abbrev digits : ℕ → ℕ
digits a = a + 48

moved : memmove digits 101 100 8 104 ≡ 151
unfolding memmove copy_down
moved = refl

memmove_lem_example : memmove digits 101 100 8 104 ≡ copied digits 101 100 8 104
memmove_lem_example = memmove_lem digits 101 100 8 104

-- "abc" at 100, and NULs behind it.
abbrev short_text : ℕ → ℕ
short_text a = if leb 100 a && ltb a 103 then a - 3 else 0

strlen_lem_example : strlen 10 short_text 100 ≡ some 3
strlen_lem_example =
    strlen_lem 10 short_text 100 3 (ground arith) (λ j l. ground arith) (omega arith)
