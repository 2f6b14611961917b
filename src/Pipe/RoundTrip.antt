-- ===== src/Pipe/RoundTrip.antt =====
-- A write into an empty pipe and the read that follows.
use mathlib.Core.Path.{subst}
use mathlib.Core.List.{append-nil}
use slab_study.Common.{ℕ, ◌≤◌, ◌≡◌, ◌≢◌, ◌∙◌, refl, ap, sym, Bool, arith, List, [], ◌∷◌, ◌++◌}
use slab_study.Pipe.{Pipe, written, pipewrite, ReadResult, bytes, interrupted, empty, piperead}
use slab_study.Pipe.Queue.{
  IsValid, used, queue, length, length-queue, length-append, Wrote, pipewrite_lem, Read,
  piperead_lem,
}

-- Two lists of which one begins the other, of one length, are equal.
append-eq : (xs out rest : List ℕ) → xs ≡ out ++ rest → length out ≡ length xs → out ≡ xs
append-eq xs out [] e h = sym (e ∙ append-nil out)
append-eq xs out (y ∷ ys) e h = absurd (omega (arith, length-append out (y ∷ ys), ap length e))

nil_of_length : (l : List ℕ) → length l ≡ 0 → l ≡ []
nil_of_length [] e = refl
nil_of_length (x ∷ l) e = absurd (omega arith)

took_bytes :
    (killed : Bool) (n : ℕ) (xs : List ℕ) (q : Pipe) (r : ReadResult) (q' : Pipe)
    → queue q ≡ xs
    → xs ≢ []
    → length xs ≤ n
    → Read killed n q (r, q')
    → r ≡ bytes xs
took_bytes killed n xs q (bytes out) q' e d l (v, w, h, _) =
    ap bytes
      (append-eq xs out (queue q') (sym e ∙ w) (omega (arith, h, length-queue q, ap length e)))
took_bytes killed n xs q interrupted q' e d l (_, u, _, _) =
    absurd (d (nil_of_length xs (omega (arith, u, length-queue q, ap length e))))
took_bytes killed n xs q empty q' e d l (_, u, _, _) =
    absurd (d (nil_of_length xs (omega (arith, u, length-queue q, ap length e))))

-- The bytes of a write that goes through without a sleep, at an empty pipe whose counters are in
-- order, are what the next read returns, if it asks for at least as many and there are any.
pub write_then_read :
    (killed killed' : Bool) (n : ℕ) (xs : List ℕ) (p q : Pipe)
    → IsValid p
    → used p ≡ 0
    → xs ≢ []
    → length xs ≤ n
    → pipewrite killed xs p ≡ (written, q)
    → (piperead killed' n q).0 ≡ bytes xs
write_then_read killed killed' n xs p q v u d l e =
    let (vq, held) = subst (Wrote killed xs p) e (pipewrite_lem killed xs p v) in
    let r = piperead killed' n q in
    let start : queue p ≡ [] = nil_of_length (queue p) (length-queue p ∙ u) in
    took_bytes killed' n xs q r.0 r.1 (held ∙ ap (λ l. l ++ xs) start) d l
      (piperead_lem killed' n q vq)
