-- ===== src/Grep.antt =====
-- The regular expressions of xv6_lab3/grep.c. A string is the list of its bytes before the NUL, so
-- `re[0] == '\0'` says that the list is empty.
pub mod Regex
pub mod Match
mod Tests
use slab_study.Common.{ℕ, Bool, true, false, List, [], ◌∷◌, ◌==◌, ◌&&◌, ◌||◌, if◌then◌else◌}

-- `'.'`, `'*'`, `'$'` and `'^'`
abbrev pub dot : ℕ
dot = 46

abbrev pub asterisk : ℕ
asterisk = 42

abbrev pub dollar : ℕ
dollar = 36

abbrev pub caret : ℕ
caret = 94

-- `c == '.' || c == x`, for a byte `x` of the text.
pub fits : ℕ → ℕ → Bool
fits c x = c == dot || c == x

-- `matchstar(c, re, text)`, where `here` is `matchhere` of `re`.
pub matchstar : (List ℕ → Bool) → ℕ → List ℕ → Bool
matchstar here c [] = here []
matchstar here c (x ∷ text) =
    let rest = matchstar here c text in here (x ∷ text) || (fits c x && rest)

-- `matchhere(re, text)`, by the bytes that `re[0]` and `re[1]` are.
pub matchhere : List ℕ → List ℕ → Bool
unfolding fits
matchhere [] text = true
matchhere (c ∷ []) [] = c == dollar
matchhere (c ∷ []) (x ∷ text) = if c == dollar then false else fits c x
matchhere (c ∷ d ∷ re) [] = if d == asterisk then matchstar (matchhere re) c [] else false
matchhere (c ∷ d ∷ re) (x ∷ text) =
    let stars = matchstar (matchhere re) c (x ∷ text) in
    let rest = matchhere (d ∷ re) text in if d == asterisk then stars else fits c x && rest

-- The loop of `match`, which also looks at the empty string at the end.
pub match_anywhere : List ℕ → List ℕ → Bool
match_anywhere re [] = matchhere re []
match_anywhere re (x ∷ text) = let rest = match_anywhere re text in matchhere re (x ∷ text) || rest

pub match : List ℕ → List ℕ → Bool
match [] text = match_anywhere [] text
match (c ∷ re) text = if c == caret then matchhere re text else match_anywhere (c ∷ re) text
