-- ===== src/Pipe/Queue.antt =====
-- A pipe is a queue of bytes: what is read is what was written, in order, also when the counters
-- wrap round.
use slab_study.Common.{
  ℕ, zero, suc, ◌+◌, ◌-◌, ◌%◌, ◌^◌, ◌≤◌, ◌<◌, ◌≡◌, ◌≢◌, ◌⊎◌, ◌&&◌, ◌||◌, not, ◌∙◌, inl, inr, refl,
  ap, sym, Bool, true, false, arith, ◌==◌, if◌then◌else◌, update, Bool-cases, List, [], ◌∷◌, ◌++◌,
}
use Prim.Native.Nat.{min}
use mathlib.Core.List.{append-nil, append_assoc}
use mathlib.Core.Path.{ap₂}
use slab_study.Pipe.{
  Pipe, pipe_size, add_uint, WriteResult, written, broken, full, put, pipewrite, ReadResult, bytes,
  interrupted, empty, skip, copy_out, piperead,
}

-- How many bytes the pipe holds.
abbrev pub used : Pipe → ℕ
used p = (p.nwrite + 2 ^ 32 - p.nread) % 2 ^ 32

pub record IsValid (p : Pipe) : Type 0 where
  pub read_range : p.nread < 2 ^ 32
  pub write_range : p.nwrite < 2 ^ 32
  pub fits : used p ≤ pipe_size

-- The `n` bytes from counter `r` on.
pub window : (ℕ → ℕ) → ℕ → ℕ → List ℕ
window buf r zero = []
window buf r (suc n) = buf (r % pipe_size) ∷ window buf (add_uint r 1) n

-- The bytes in the pipe, oldest first.
pub queue : Pipe → List ℕ
queue p = window p.contents p.nread (used p)

-- A byte outside the window may change.
window_frame :
    (buf : ℕ → ℕ) (i x r n : ℕ)
    → r < 2 ^ 32
    → ((k : ℕ) → k < n → ((r + k) % 2 ^ 32) % pipe_size ≢ i)
    → window (update buf i x) r n ≡ window buf r n
unfolding window
window_frame buf i x r zero l d = refl
window_frame buf i x r (suc n) l d =
    ap₂ ◌∷◌
      (let e = d 0 (omega arith) in
        let h : r % pipe_size ≢ i = λ q. e (omega (arith, q)) in ground arith)
      (window_frame buf i x (add_uint r 1) n (omega arith)
        (λ k m q. d (k + 1) (omega arith) (omega (arith, q))))

-- A byte is appended just behind the window.
window_snoc :
    (buf : ℕ → ℕ) (i x r n : ℕ)
    → r < 2 ^ 32
    → n < pipe_size
    → i ≡ (r + n) % 2 ^ 32 % pipe_size
    → window (update buf i x) r (suc n) ≡ window buf r n ++ (x ∷ [])
unfolding window
window_snoc buf i x r zero l m e = let same : i ≡ r % pipe_size = omega arith in ground arith
window_snoc buf i x r (suc n) l m e =
    let apart : i ≢ r % pipe_size = λ q. omega arith in
    ap₂ ◌∷◌ (ground arith)
      (window_snoc buf i x (add_uint r 1) n (omega arith) (omega arith) (omega arith))

-- One byte in, at a pipe with room.
put-queue :
    (p : Pipe) (x : ℕ)
    → IsValid p
    → used p < pipe_size
    → IsValid (put x p) × (queue (put x p) ≡ queue p ++ (x ∷ [])) × (used (put x p) ≡ used p + 1)
unfolding put queue
put-queue p x v room =
    let more : (add_uint p.nwrite 1 + 2 ^ 32 - p.nread) % 2 ^ 32 ≡ suc (used p) =
      omega (arith, v.read_range, v.write_range) in
    (
      record { read_range = v.read_range; write_range = omega arith; fits = omega (arith, more) },
      rw more (
          window_snoc p.contents (p.nwrite % pipe_size) x p.nread (used p) v.read_range room
            (omega (arith, v.read_range, v.write_range))),
      omega (arith, more),
    )

-- One byte out, at a pipe that holds some.
skip-queue :
    (p : Pipe)
    → IsValid p
    → p.nread ≢ p.nwrite
    → IsValid (skip p)
      × (queue p ≡ p.contents (p.nread % pipe_size) ∷ queue (skip p))
      × (used p ≡ suc (used (skip p)))
unfolding skip queue window
skip-queue p v some_left =
    let less : used p ≡ suc ((p.nwrite + 2 ^ 32 - add_uint p.nread 1) % 2 ^ 32) =
      omega (arith, v.read_range, v.write_range) in
    (
      record {
        read_range = omega arith;
        write_range = v.write_range;
        fits = omega (arith, less, v.fits);
      },
      rw (less, window),
      less,
    )

-- What a stretch of `pipewrite` owes: the bytes that have gone in stand at the end of the queue,
-- and the rest waits, with the pipe full, or is given up.
abbrev pub Wrote : Bool → List ℕ → Pipe → WriteResult × Pipe → Type 0
Wrote killed xs p (written, q) = IsValid q × (queue q ≡ queue p ++ xs)
Wrote killed xs p (broken, q) =
    (done rest : List ℕ) × (xs ≡ done ++ rest)
    × (rest ≢ [])
    × IsValid q
    × (queue q ≡ queue p ++ done)
    × (used q ≡ pipe_size)
    × ((q.readopen ≡ false) ⊎ (killed ≡ true))
Wrote killed xs p (full rest, q) =
    (done : List ℕ) × (xs ≡ done ++ rest)
    × (rest ≢ [])
    × IsValid q
    × (queue q ≡ queue p ++ done)
    × (used q ≡ pipe_size)
    × (q.readopen ≡ true)
    × (killed ≡ false)

Wrote-cons :
    (killed : Bool) (x : ℕ) (xs : List ℕ) (p p' : Pipe) (r : WriteResult) (q : Pipe)
    → queue p' ≡ queue p ++ (x ∷ [])
    → Wrote killed xs p' (r, q)
    → Wrote killed (x ∷ xs) p (r, q)
Wrote-cons killed x xs p p' written q e (v, w) =
    (v, w ∙ ap (λ l. l ++ xs) e ∙ append_assoc (queue p) (x ∷ []) xs)
Wrote-cons killed x xs p p' broken q e (done, rest, s, some_left, v, w, u, c) = (
  x ∷ done,
  rest,
  ap (λ l. x ∷ l) s,
  some_left,
  v,
  w ∙ ap (λ l. l ++ done) e ∙ append_assoc (queue p) (x ∷ []) done,
  u,
  c,
)
Wrote-cons killed x xs p p' (full rest) q e (done, s, some_left, v, w, u, o, k) = (
  x ∷ done,
  ap (λ l. x ∷ l) s,
  some_left,
  v,
  w ∙ ap (λ l. l ++ done) e ∙ append_assoc (queue p) (x ∷ []) done,
  u,
  o,
  k,
)

full-Wrote :
    (killed : Bool) (x : ℕ) (xs : List ℕ) (p : Pipe)
    → IsValid p
    → used p ≡ pipe_size
    → Wrote killed (x ∷ xs) p (if not p.readopen || killed then broken else full (x ∷ xs), p)
full-Wrote killed x xs p v u = elim (Bool-cases (not p.readopen || killed)) [
  | inl stop ↦ rw stop ([], x ∷ xs, refl, λ e. cc, v, sym (append-nil (queue p)), u, ground arith)
  | inr wait ↦
      rw wait ([], refl, λ e. cc, v, sym (append-nil (queue p)), u, ground arith, ground arith)
]

-- A stretch of `pipewrite`, at a pipe whose counters are in order: either all bytes are appended to
-- the queue, or the pipe has become full, with a first part of them appended. Then the call sleeps
-- with the rest if the read end is open and the caller is not killed, and returns -1 otherwise.
pub pipewrite_lem :
    (killed : Bool) (xs : List ℕ) (p : Pipe) → IsValid p → Wrote killed xs p (pipewrite killed xs p)
unfolding pipewrite
pipewrite_lem killed [] p v = (v, sym (append-nil (queue p)))
pipewrite_lem killed (x ∷ xs) p v = elim (Bool-cases (p.nwrite == add_uint p.nread pipe_size)) [
  | inl stop ↦
      rw stop (
        full-Wrote killed x xs p v
          (omega (arith, eq_of_test _ _ stop, v.read_range, v.write_range)))
  | inr room ↦
      let w =
        put-queue p x v (omega (arith, ne_of_test _ _ room, v.read_range, v.write_range, v.fits)) in
      let r = pipewrite killed xs (put x p) in
      rw room
        (Wrote-cons killed x xs p (put x p) r.0 r.1 w.1 (pipewrite_lem killed xs (put x p) w.0))
]
  where
    eq_of_test : (a b : ℕ) → (a == b) ≡ true → a ≡ b
    eq_of_test a b e = ground arith

    ne_of_test : (a b : ℕ) → (a == b) ≡ false → a ≢ b
    ne_of_test a b e = ground arith

abbrev pub length : List ℕ → ℕ
length [] = 0
length (x ∷ xs) = suc (length xs)

length-window : (buf : ℕ → ℕ) (r n : ℕ) → length (window buf r n) ≡ n
unfolding window
length-window buf r zero = refl
length-window buf r (suc n) = ap suc (length-window buf (add_uint r 1) n)

pub length-queue : (p : Pipe) → length (queue p) ≡ used p
unfolding queue
length-queue p = length-window p.contents p.nread (used p)

pub length-append : (a b : List ℕ) → length (a ++ b) ≡ length a + length b
length-append [] b = omega arith
length-append (x ∷ a) b = omega (arith, length-append a b)

copy_out_lem :
    (n : ℕ) (p : Pipe)
    → IsValid p
    → let (out, q) = copy_out n p in
      IsValid q × (queue p ≡ out ++ queue q) × (length out ≡ min n (used p))
unfolding copy_out
copy_out_lem zero p v = (v, refl, omega arith)
copy_out_lem (suc n) p v = elim (Bool-cases (p.nread == p.nwrite)) [
  | inl stop ↦
      let e : p.nread ≡ p.nwrite = ground arith in
      rw stop (v, refl, omega (arith, v.read_range, v.write_range))
  | inr more ↦
      let w = skip-queue p v (ground arith) in
      let r = copy_out_lem n (skip p) w.0 in
      rw more
        (r.0, w.1 ∙ ap (λ l. p.contents (p.nread % pipe_size) ∷ l) r.1, omega (arith, r.2, w.2))
]

-- What `piperead` owes: the bytes that it returns are the front of the queue, as many as asked for
-- and there.
abbrev pub Read : Bool → ℕ → Pipe → ReadResult × Pipe → Type 0
Read killed n p (bytes out, q) =
    IsValid q
    × (queue p ≡ out ++ queue q)
    × (length out ≡ min n (used p))
    × ((used p ≢ 0) ⊎ (p.writeopen ≡ false))
Read killed n p (interrupted, q) = (q ≡ p) × (used p ≡ 0) × (p.writeopen ≡ true) × (killed ≡ true)
Read killed n p (empty, q) = (q ≡ p) × (used p ≡ 0) × (p.writeopen ≡ true) × (killed ≡ false)

-- `piperead` of n bytes, at a pipe whose counters are in order: if the pipe holds bytes, or its
-- write end is closed, it takes the first min(n, held) bytes off the queue and returns them; at an
-- empty pipe with its write end open it changes nothing, and returns -1 if the caller is killed and
-- sleeps otherwise.
pub piperead_lem :
    (killed : Bool) (n : ℕ) (p : Pipe) → IsValid p → Read killed n p (piperead killed n p)
unfolding piperead
piperead_lem killed n p v = elim (Bool-cases (p.nread == p.nwrite && p.writeopen)) [
  | inl dry ↦ elim (Bool-cases killed) [
    | inl dead ↦ rw (dry, dead) (refl, none_held dry, still_open dry, refl)
    | inr spared ↦ rw (dry, spared) (refl, none_held dry, still_open dry, refl)
  ]
  | inr ready ↦ let r = copy_out_lem n p v in rw ready (r.0, r.1, r.2, some_or_closed ready)
]
  where
    none_held : (p.nread == p.nwrite && p.writeopen) ≡ true → used p ≡ 0
    none_held e = let q : p.nread ≡ p.nwrite = ground arith in omega (arith, q, v.read_range)

    still_open : (p.nread == p.nwrite && p.writeopen) ≡ true → p.writeopen ≡ true
    still_open e = ground arith

    some_or_closed :
        (p.nread == p.nwrite && p.writeopen) ≡ false → (used p ≢ 0) ⊎ (p.writeopen ≡ false)
    some_or_closed e = elim (Bool-cases p.writeopen) [
      | inl open_end ↦
          let d : p.nread ≢ p.nwrite = ground arith in
          inl (λ q. d (omega (arith, v.read_range, v.write_range)))
      | inr shut ↦ inr shut
    ]
