-- ===== src/Fs/Path/Pieces.antt =====
-- `skipelem` takes the elements of a path off one by one.
use mathlib.Core.Path.{subst}
use slab_study.Common.{
  ℕ, ◌+◌, ◌-◌, ◌&&◌, ◌<◌, ◌≤◌, ◌≡◌, inl, inr, refl, sym, ap, ◌∙◌, arith, true, false, Option, some,
  none, List, [], ◌∷◌, ltb, leb, ◌==◌, if◌then◌else◌, Bool-cases,
}
use slab_study.Fs.Content.{paste}
use slab_study.Fs.Path.{
  slash, skip_slashes, first_name, behind_name, count, byte_at, copy_name, split_off, skipelem,
}

-- The path cut at every slash.
unfoldable add_first : ℕ → List (List ℕ) → List (List ℕ)
add_first x [] = (x ∷ []) ∷ []
add_first x (w ∷ ws) = (x ∷ w) ∷ ws

unfoldable cut : List ℕ → List (List ℕ)
cut [] = [] ∷ []
cut (x ∷ path) = let ws = cut path in if x == slash then [] ∷ ws else add_first x ws

unfoldable nonempty : List (List ℕ) → List (List ℕ)
nonempty [] = []
nonempty ([] ∷ ws) = nonempty ws
nonempty ((x ∷ w) ∷ ws) = (x ∷ w) ∷ nonempty ws

-- The elements of a path: its pieces between slashes that are not empty.
pub elements : List ℕ → List (List ℕ)
elements path = nonempty (cut path)

-- `name` holds the first 14 bytes of `w`, and a NUL behind them if `w` is shorter.
pub record Names (w : List ℕ) (name : ℕ → ℕ) : Type 0 where
  pub same : (i : ℕ) → i < 14 → i < count w → name i ≡ byte_at w i
  pub ended : count w < 14 → name (count w) ≡ 0

paste-inside :
    (n : ℕ) (w : List ℕ) (name : ℕ → ℕ) (i : ℕ) → i < n → paste 0 n (byte_at w) name i ≡ byte_at w i
unfolding paste
paste-inside n w name i l =
    let within : (leb 0 i && ltb i (0 + n)) ≡ true = ground arith in
    let index : i - 0 ≡ i = omega arith in rw (within, index) refl

copy_name-Names : (w : List ℕ) (name : ℕ → ℕ) → Names w (copy_name w name)
unfolding copy_name
copy_name-Names w name = elim (Bool-cases (leb 14 (count w))) [
  | inl long ↦
      rw long
        record { same = λ i l m. paste-inside 14 w name i l; ended = λ l. absurd (ground arith) }
  | inr short ↦ rw short record {
    same = λ i l m.
        let away : (count w == i) ≡ false = ground arith in
        rw away (paste-inside (count w) w name i m);
    ended = λ l. let own : (count w == count w) ≡ true = ground arith in rw own refl;
  }
]

skip_slash :
    (x : ℕ) (path : List ℕ) → (x == slash) ≡ true → skip_slashes (x ∷ path) ≡ skip_slashes path
unfolding skip_slashes
skip_slash x path e = rw e refl

skip_other : (x : ℕ) (path : List ℕ) → (x == slash) ≡ false → skip_slashes (x ∷ path) ≡ x ∷ path
unfolding skip_slashes
skip_other x path e = rw e refl

elements-slash : (x : ℕ) (path : List ℕ) → (x == slash) ≡ true → elements (x ∷ path) ≡ elements path
unfolding elements cut nonempty
elements-slash x path e = rw e refl

behind_slash : (x : ℕ) (path : List ℕ) → (x == slash) ≡ true → behind_name (x ∷ path) ≡ x ∷ path
unfolding behind_name
behind_slash x path e = rw e refl

behind_other :
    (x : ℕ) (path : List ℕ) → (x == slash) ≡ false → behind_name (x ∷ path) ≡ behind_name path
unfolding behind_name
behind_other x path e = rw e refl

elements-skip_slashes : (path : List ℕ) → elements (skip_slashes path) ≡ elements path
unfolding skip_slashes
elements-skip_slashes [] = refl
elements-skip_slashes (x ∷ path) = elim (Bool-cases (x == slash)) [
  | inl here ↦
      ap elements (skip_slash x path here)
      ∙ elements-skip_slashes path
      ∙ sym (elements-slash x path here)
  | inr other ↦ ap elements (skip_other x path other)
]

-- The first piece, and those behind it.
cut_first :
    (path : List ℕ)
    → (ws : List (List ℕ)) × (cut path ≡ first_name path ∷ ws)
      × (nonempty ws ≡ elements (behind_name path))
unfolding cut add_first nonempty first_name behind_name elements
cut_first [] = ([], refl, refl)
cut_first (x ∷ path) = elim (Bool-cases (x == slash)) [
  | inl here ↦ (
    cut path,
    rw here refl,
    sym (elements-slash x path here) ∙ ap elements (sym (behind_slash x path here)),
  )
  | inr other ↦
      let (ws, e, f) = cut_first path in
      (ws, rw other (ap (add_first x) e), f ∙ ap elements (sym (behind_other x path other)))
]

-- The loop has no leading slash to skip any more.
no_slash_left :
    (path : List ℕ) (x : ℕ) (rest : List ℕ) → skip_slashes path ≡ x ∷ rest → (x == slash) ≡ false
unfolding skip_slashes
no_slash_left [] x rest e = absurd (cc e)
no_slash_left (y ∷ path) x rest e = elim (Bool-cases (y == slash)) [
  | inl here ↦ no_slash_left path x rest (sym (skip_slash y path here) ∙ e)
  | inr other ↦ ap (λ z. z == slash) (sym (head_of (sym (skip_other y path other) ∙ e))) ∙ other
]
  where
    head_of : {a b : ℕ} {v w : List ℕ} → a ∷ v ≡ b ∷ w → a ≡ b
    head_of e = cc

-- What `skipelem` returns for a path.
abbrev pub SkipResult : List ℕ → Option (List ℕ × (ℕ → ℕ)) → Type 0
SkipResult path none = elements path ≡ []
SkipResult path (some (rest, name)) =
    (w : List ℕ) × (elements path ≡ w ∷ elements rest) × Names w name × (count rest < count path)

count-skip_slashes : (path : List ℕ) → count (skip_slashes path) ≤ count path
unfolding skip_slashes count
count-skip_slashes [] = omega arith
count-skip_slashes (x ∷ path) = elim (Bool-cases (x == slash)) [
  | inl here ↦ rw here (omega (arith, count-skip_slashes path))
  | inr other ↦ rw other (omega arith)
]

count-behind_name : (path : List ℕ) → count (behind_name path) ≤ count path
unfolding behind_name count
count-behind_name [] = omega arith
count-behind_name (x ∷ path) = elim (Bool-cases (x == slash)) [
  | inl here ↦ rw here (omega arith)
  | inr other ↦ rw other (omega (arith, count-behind_name path))
]

count_step : (x : ℕ) (path : List ℕ) → count (x ∷ path) ≡ count path + 1
unfolding count
count_step x path = refl

nonempty_first :
    (x : ℕ) (path : List ℕ) (ws : List (List ℕ))
    → (x == slash) ≡ false
    → nonempty (first_name (x ∷ path) ∷ ws) ≡ first_name (x ∷ path) ∷ nonempty ws
unfolding nonempty first_name
nonempty_first x path ws e = rw e refl

split_off_lem :
    (s : List ℕ) (name : ℕ → ℕ)
    → ((x : ℕ) (rest : List ℕ) → s ≡ x ∷ rest → (x == slash) ≡ false)
    → SkipResult s (split_off s name)
unfolding split_off elements cut nonempty
split_off_lem [] name h = refl
split_off_lem (x ∷ path) name h =
    let other = h x path refl in
    let (ws, e, f) = cut_first (x ∷ path) in
    let shorter : count (behind_name (x ∷ path)) ≤ count path =
      subst (λ l. count l ≤ count path) (sym (behind_other x path other))
        (count-behind_name path) in
    (
      first_name (x ∷ path),
      ap nonempty e
          ∙ nonempty_first x path ws other
          ∙ ap (λ l. first_name (x ∷ path) ∷ l)
              (f ∙ sym (elements-skip_slashes (behind_name (x ∷ path)))),
      copy_name-Names (first_name (x ∷ path)) name,
      omega (arith, count-skip_slashes (behind_name (x ∷ path)), shorter, count_step x path),
    )

-- `skipelem` returns 0 exactly for a path without elements, "" or slashes. Otherwise it stores the
-- first element of the path, cut to 14 bytes and ended by a NUL if it is shorter, and what it returns
-- is shorter than the path and has the other elements.
pub skipelem_lem : (path : List ℕ) (name : ℕ → ℕ) → SkipResult path (skipelem path name)
unfolding skipelem
skipelem_lem path name =
    widen path (split_off (skip_slashes path) name) (elements-skip_slashes path)
      (count-skip_slashes path)
      (split_off_lem (skip_slashes path) name (λ x rest e. no_slash_left path x rest e))
  where
    widen :
        (path : List ℕ) (r : Option (List ℕ × (ℕ → ℕ)))
        → elements (skip_slashes path) ≡ elements path
        → count (skip_slashes path) ≤ count path
        → SkipResult (skip_slashes path) r
        → SkipResult path r
    widen path none e l w = sym e ∙ w
    widen path (some (rest, name')) e l (v, q, n, s) = (v, sym e ∙ q, n, omega (arith, s, l))
