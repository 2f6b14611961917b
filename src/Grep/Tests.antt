-- ===== src/Grep/Tests.antt =====
-- The matcher at the expression `a*b` and the line `xaab`.
use slab_study.Common.{ℕ, ◌≡◌, ◌≢◌, ◌↔◌, refl, true, false, List, [], ◌∷◌}
use slab_study.Grep.{caret, asterisk, matchstar, matchhere, match_anywhere, match}
use slab_study.Grep.Regex.{Here, Somewhere}
use slab_study.Grep.Match.{match_lem}

abbrev as_then_b : List ℕ
as_then_b = 97 ∷ asterisk ∷ 98 ∷ []

abbrev line : List ℕ
line = 120 ∷ 97 ∷ 97 ∷ 98 ∷ []

found : match as_then_b line ≡ true
unfolding match match_anywhere matchhere matchstar
found = refl

not_at_start : match (caret ∷ as_then_b) line ≡ false
unfolding match matchhere matchstar
not_at_start = refl

match_lem_example :
    ((match (caret ∷ as_then_b) line ≡ true) ↔ Here as_then_b line)
    × (((tail : List ℕ) → as_then_b ≢ caret ∷ tail)
        → (match as_then_b line ≡ true) ↔ Somewhere as_then_b line)
match_lem_example = match_lem as_then_b line
