-- ===== src/Grep/Regex.antt =====
-- What the regular expressions of xv6_lab3/grep.c mean, apart from how they are matched.
use slab_study.Common.{ℕ, ◌≡◌, ◌≢◌, ◌⊎◌, List, [], ◌∷◌, ◌++◌}
use slab_study.Grep.{dot, asterisk, dollar}

-- The byte `x` of a text is one that `c` stands for.
abbrev pub Fits : ℕ → ℕ → Type 0
Fits c x = (c ≡ dot) ⊎ (c ≡ x)

pub data AllFit (c : ℕ) : List ℕ → Type 0 where
  no_more : AllFit c []
  more : (x : ℕ) (s : List ℕ) → Fits c x → AllFit c s → AllFit c (x ∷ s)

-- An expression that does not start with an asterisk.
pub data Plain : List ℕ → Type 0 where
  no_byte : Plain []
  other : (d : ℕ) (re : List ℕ) → d ≢ asterisk → Plain (d ∷ re)

-- The expression matches a first part of the text. A dollar sign is an ordinary byte unless it
-- comes last, and an asterisk is one unless it comes second.
pub data Here : List ℕ → List ℕ → Type 0 where
  all_matched : (text : List ℕ) → Here [] text
  at_end : Here (dollar ∷ []) []
  repeated :
      (c : ℕ) (re s text : List ℕ)
      → AllFit c s
      → Here re text
      → Here (c ∷ asterisk ∷ re) (s ++ text)
  single :
      (c x : ℕ) (re text : List ℕ)
      → Fits c x
      → Plain re
      → (c ≡ dollar → re ≢ [])
      → Here re text
      → Here (c ∷ re) (x ∷ text)

-- It matches somewhere in the text.
abbrev pub Somewhere : List ℕ → List ℕ → Type 0
Somewhere re text = (a : List ℕ) × (b : List ℕ) × (a ++ b ≡ text) × Here re b
