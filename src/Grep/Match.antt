-- ===== src/Grep/Match.antt =====
-- The matcher of xv6_lab3/grep.c finds exactly what the expressions mean.
use mathlib.Core.Path.{subst}
use slab_study.Common.{
  ℕ, ◌≡◌, ◌≢◌, ◌↔◌, inl, inr, refl, ap, ◌∙◌, arith, Bool, true, List, [], ◌∷◌, ◌++◌, ◌==◌,
  Bool-cases,
}
use slab_study.Grep.{
  dot, asterisk, dollar, caret, fits, matchstar, matchhere, match_anywhere, match,
}
use slab_study.Grep.Regex.{
  Fits, AllFit, no_more, more, no_byte, other, Here, all_matched, at_end, repeated, single,
  Somewhere,
}

fits_sound : (c x : ℕ) → fits c x ≡ true → Fits c x
unfolding fits
fits_sound c x e = elim (Bool-cases (c == dot)) [
  | inl h ↦ inl (ground arith)
  | inr h ↦ inr (ground arith)
]

fits_complete : (c x : ℕ) → Fits c x → fits c x ≡ true
unfolding fits
fits_complete c x (inl e) = ground arith
fits_complete c x (inr e) = ground arith

-- What `matchstar` finds: a run of fitting bytes, and `here` behind it.
matchstar_sound :
    (here : List ℕ → Bool) (c : ℕ) (text : List ℕ)
    → matchstar here c text ≡ true
    → (s : List ℕ) × (rest : List ℕ) × (s ++ rest ≡ text) × AllFit c s × (here rest ≡ true)
unfolding matchstar
matchstar_sound here c [] e = ([], [], refl, no_more, e)
matchstar_sound here c (x ∷ text) e = elim (Bool-cases (here (x ∷ text))) [
  | inl h ↦ ([], x ∷ text, refl, no_more, h)
  | inr h ↦
      let f : fits c x ≡ true = ground arith in
      let (s, rest, split, all, found) = matchstar_sound here c text (ground arith) in
      (x ∷ s, rest, ap (λ l. x ∷ l) split, more x s (fits_sound c x f) all, found)
]

matchstar_complete :
    (here : List ℕ → Bool) (c : ℕ) (s text : List ℕ)
    → AllFit c s
    → here text ≡ true
    → matchstar here c (s ++ text) ≡ true
unfolding matchstar
matchstar_complete here c [] [] a h = h
matchstar_complete here c [] (x ∷ text) a h = ground arith
matchstar_complete here c (x ∷ s) text (more _ _ f a) h =
    ground (arith, fits_complete c x f, matchstar_complete here c s text a h)

-- An expression that starts with a byte and an asterisk, where the rest of it is found rightly.
starred :
    (c d : ℕ) (re text : List ℕ)
    → ((rest : List ℕ) → matchhere re rest ≡ true → Here re rest)
    → asterisk ≡ d
    → matchstar (matchhere re) c text ≡ true
    → Here (c ∷ d ∷ re) text
starred c d re text sound same found =
    let (s, rest, split, all, h) = matchstar_sound (matchhere re) c text found in
    subst (λ x. Here (c ∷ x ∷ re) text) same
      (subst (λ t. Here (c ∷ asterisk ∷ re) t) split (repeated c re s rest all (sound rest h)))

matchhere_sound : (re text : List ℕ) → matchhere re text ≡ true → Here re text
unfolding matchhere
matchhere_sound [] text e = all_matched text
matchhere_sound (c ∷ []) [] e =
    let last : dollar ≡ c = ground arith in subst (λ x. Here (x ∷ []) []) last at_end
matchhere_sound (c ∷ []) (x ∷ text) e =
    single c x [] text (fits_sound c x (ground arith)) no_byte (λ d. absurd (ground arith))
      (all_matched text)
matchhere_sound (c ∷ d ∷ re) [] e =
    starred c d re [] (λ rest. matchhere_sound re rest) (ground arith) (ground arith)
matchhere_sound (c ∷ d ∷ re) (x ∷ text) e = elim (Bool-cases (d == asterisk)) [
  | inl same ↦
      starred c d re (x ∷ text) (λ rest. matchhere_sound re rest) (ground arith) (ground arith)
  | inr differs ↦
      single c x (d ∷ re) text (fits_sound c x (ground arith)) (other d re (ground arith))
        (λ _ n. absurd (ground arith)) (matchhere_sound (d ∷ re) text (ground arith))
]

-- An asterisk in the second place hands the text to `matchstar`.
matchhere_star :
    (c : ℕ) (re text : List ℕ)
    → matchhere (c ∷ asterisk ∷ re) text ≡ matchstar (matchhere re) c text
unfolding matchhere
matchhere_star c re [] = refl
matchhere_star c re (x ∷ text) = refl

matchhere_complete : (re text : List ℕ) → Here re text → matchhere re text ≡ true
unfolding matchhere
matchhere_complete _ _ (all_matched text) = refl
matchhere_complete _ _ at_end = refl
matchhere_complete _ _ (repeated c re s text all h) =
    matchhere_star c re (s ++ text)
    ∙ matchstar_complete (matchhere re) c s text all (matchhere_complete re text h)
matchhere_complete _ _ (single c x re text f no_byte last h) = ground (arith, fits_complete c x f)
matchhere_complete _ _ (single c x re text f (other d re' away) last h) =
    ground (arith, fits_complete c x f, matchhere_complete (d ∷ re') text h)

-- `matchhere` returns 1 exactly when the expression matches a first part of the text.
pub matchhere_lem : (re text : List ℕ) → (matchhere re text ≡ true) ↔ Here re text
matchhere_lem re text = (matchhere_sound re text, matchhere_complete re text)

match_anywhere_sound : (re text : List ℕ) → match_anywhere re text ≡ true → Somewhere re text
unfolding match_anywhere
match_anywhere_sound re [] e = ([], [], refl, matchhere_sound re [] e)
match_anywhere_sound re (x ∷ text) e = elim (Bool-cases (matchhere re (x ∷ text))) [
  | inl h ↦ ([], x ∷ text, refl, matchhere_sound re (x ∷ text) h)
  | inr h ↦
      let (a, b, split, here) = match_anywhere_sound re text (ground arith) in
      (x ∷ a, b, ap (λ l. x ∷ l) split, here)
]

match_anywhere_complete : (re a b : List ℕ) → Here re b → match_anywhere re (a ++ b) ≡ true
unfolding match_anywhere
match_anywhere_complete re [] [] h = matchhere_complete re [] h
match_anywhere_complete re [] (x ∷ b) h = ground (arith, matchhere_complete re (x ∷ b) h)
match_anywhere_complete re (x ∷ a) b h = ground (arith, match_anywhere_complete re a b h)

match_anywhere_lem : (re text : List ℕ) → (match_anywhere re text ≡ true) ↔ Somewhere re text
match_anywhere_lem re text = (
  match_anywhere_sound re text,
  λ w. subst (λ t. match_anywhere re t ≡ true) w.2 (match_anywhere_complete re w.0 w.1 w.3),
)

-- `match` returns 1 exactly when the line has a match of the expression: at its start for an
-- expression behind a caret, and anywhere for one that does not begin with a caret.
pub match_lem :
    (re text : List ℕ)
    → ((match (caret ∷ re) text ≡ true) ↔ Here re text)
      × (((tail : List ℕ) → re ≢ caret ∷ tail) → (match re text ≡ true) ↔ Somewhere re text)
unfolding match
match_lem re text = (matchhere_lem re text, away re)
  where
    away :
        (r : List ℕ)
        → ((tail : List ℕ) → r ≢ caret ∷ tail)
        → (match r text ≡ true) ↔ Somewhere r text
    away [] d = match_anywhere_lem [] text
    away (c ∷ r) d = elim (Bool-cases (c == caret)) [
      | inl same ↦ absurd (d r (ap (λ x. x ∷ r) (ground arith)))
      | inr differs ↦ rw differs (match_anywhere_lem (c ∷ r) text)
    ]
