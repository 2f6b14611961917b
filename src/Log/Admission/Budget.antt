-- ===== src/Log/Admission/Budget.antt =====
-- A transaction and its log: the space that `begin_op` reserves for each system call.
use slab_study.Common.{
  ◌∙◌, ℕ, suc, ◌+◌, ◌*◌, ◌≤◌, ◌<◌, ◌≡◌, ◌≢◌, true, false, arith, some, List, [], ◌∷◌,
}
use slab_study.Log.Admission.{
  Log, entered, begin_pass, end_op, end_commit, record_block, log_write, log_size, max_op_blocks,
}
use slab_study.Log.Admission.Recording.{IsListed, Recorded, log_write_lem}

-- The system calls in the transaction, each as the number of blocks that it may still add to the
-- list. One of them adds a block.
pub data Spends : List ℕ → List ℕ → Type 0 where
  here : {m : ℕ} {xs : List ℕ} → Spends (suc m ∷ xs) (m ∷ xs)
  there : {x : ℕ} {xs ys : List ℕ} → Spends xs ys → Spends (x ∷ xs) (x ∷ ys)

-- One of them ends.
pub data Ends : List ℕ → List ℕ → Type 0 where
  first : {x : ℕ} {xs : List ℕ} → Ends (x ∷ xs) xs
  later : {x : ℕ} {xs ys : List ℕ} → Ends xs ys → Ends (x ∷ xs) (x ∷ ys)

abbrev pub total : List ℕ → ℕ
total [] = 0
total (x ∷ xs) = x + total xs

abbrev number : List ℕ → ℕ
number [] = 0
number (x ∷ xs) = 1 + number xs

abbrev AllSmall : List ℕ → Type 0
AllSmall [] = Unit {0}
AllSmall (x ∷ xs) = (x ≤ max_op_blocks) × AllSmall xs

total_small : (xs : List ℕ) → AllSmall xs → total xs ≤ number xs * max_op_blocks
total_small [] s = omega arith
total_small (x ∷ xs) s = omega (arith, s.0, total_small xs s.1)

-- What a step does to the calls.
record Fewer (xs ys : List ℕ) (blocks calls : ℕ) : Type 0 where
  sum : total xs ≡ total ys + blocks
  size : number xs ≡ number ys + calls
  small : AllSmall xs → AllSmall ys

Spends-Fewer : {xs ys : List ℕ} → Spends xs ys → Fewer xs ys 1 0
Spends-Fewer here = record {
  sum = omega arith;
  size = omega arith;
  small = λ s. (omega (arith, s.0), s.1);
}
Spends-Fewer (there t) =
    let f = Spends-Fewer t in
    record {
      sum = omega (arith, f.sum);
      size = omega (arith, f.size);
      small = λ s. (s.0, f.small s.1);
    }

Ends-Fewer : {xs ys : List ℕ} → Ends xs ys → (blocks : ℕ) × Fewer xs ys blocks 1
Ends-Fewer (first {x = x}) = (x, record { sum = omega arith; size = omega arith; small = λ s. s.1 })
Ends-Fewer (later t) =
    let (blocks, f) = Ends-Fewer t in
    (
      blocks,
      record {
        sum = omega (arith, f.sum);
        size = omega (arith, f.size);
        small = λ s. (s.0, f.small s.1);
      },
    )

-- A run of the log in memory. A system call that enters may add MAXOPBLOCKS blocks to the list; a
-- `log_write` of a block that the list has already does not count.
pub data Run (size : ℕ) : Log → List ℕ → Type 0 where
  idle : (l : Log) → l.size ≡ size → l.outstanding ≡ 0 → l.n ≡ 0 → Run size l []
  enters :
      {l l' : Log} {calls : List ℕ}
      → Run size l calls
      → begin_pass l ≡ (entered, l')
      → Run size l' (max_op_blocks ∷ calls)
  adds :
      {l l' : Log} {calls left : List ℕ} (b : ℕ)
      → Run size l calls
      → Spends calls left
      → ((i : ℕ) → i < l.n → l.block i ≢ b)
      → log_write b l ≡ some l'
      → Run size l' left
  rewrites :
      {l l' : Log} {calls : List ℕ} (b : ℕ)
      → Run size l calls
      → IsListed l b
      → log_write b l ≡ some l'
      → Run size l' calls
  leaves :
      {l l' : Log} {calls left : List ℕ}
      → Run size l calls
      → Ends calls left
      → end_op l ≡ some (false, l')
      → Run size l' left
  commits :
      {l l' : Log} {calls : List ℕ}
      → Run size l calls
      → end_op l ≡ some (true, l')
      → Run size (end_commit l') []

record Fits (size : ℕ) (l : Log) (calls : List ℕ) : Type 0 where
  fixed : l.size ≡ size
  room : l.n + total calls ≤ log_size
  counted : l.outstanding ≡ number calls
  small : AllSmall calls

Run-Fits : {size : ℕ} {l : Log} {calls : List ℕ} → Run size l calls → Fits size l calls
unfolding begin_pass end_op end_commit
Run-Fits (idle l s o n) = record { fixed = s; room = omega arith; counted = o; small = tt }
Run-Fits (enters {l = l} {calls = calls} r e) =
    let f = Run-Fits r in
    let owed : total calls ≤ number calls * max_op_blocks = total_small calls f.small in
    record {
      fixed = ground (arith, f.fixed);
      room = ground (arith, f.counted, owed);
      counted = ground (arith, f.counted);
      small = (omega arith, f.small);
    }
Run-Fits (adds {l = l} {l' = l'} b r t new e) =
    let f = Run-Fits r in
    let w = log_write_lem l l' b e in
    let g = Spends-Fewer t in
    record {
      fixed = w.rest.2 ∙ f.fixed;
      room = omega (arith, f.room, w.grown.1, g.sum);
      counted = w.rest.0 ∙ f.counted ∙ omega (arith, g.size);
      small = g.small f.small;
    }
Run-Fits (rewrites {l = l} {l' = l'} b r listed e) =
    let f = Run-Fits r in
    let w = log_write_lem l l' b e in
    record {
      fixed = w.rest.2 ∙ f.fixed;
      room = omega (arith, f.room, w.absorbed listed);
      counted = w.rest.0 ∙ f.counted;
      small = f.small;
    }
Run-Fits (leaves {l = l} r t e) =
    let f = Run-Fits r in
    let (blocks, g) = Ends-Fewer t in
    record {
      fixed = ground (arith, f.fixed);
      room = ground (arith, f.room, g.sum);
      counted = ground (arith, f.counted, g.size);
      small = g.small f.small;
    }
Run-Fits (commits {l = l} r e) =
    let f = Run-Fits r in
    record {
      fixed = ground (arith, f.fixed);
      room = ground arith;
      counted = ground (arith, f.counted);
      small = tt;
    }

some_call : (calls : List ℕ) → 0 < total calls → 0 < number calls
some_call [] l = absurd (omega (arith, l))
some_call (x ∷ xs) l = omega arith

-- In a run, while some call may add a block, and there is room in the log area, `log_write` does not
-- panic.
pub room_to_write :
    (size : ℕ) (l : Log) (calls : List ℕ) (b : ℕ)
    → Run size l calls
    → 0 < total calls
    → l.n + 1 < size
    → (l' : Log) × (log_write b l ≡ some l')
unfolding log_write
room_to_write size l calls b r left room =
    let f = Run-Fits r in
    let there = some_call calls left in
    (record_block b l, ground (arith, f.fixed, f.room, f.counted, there))

-- While the system calls of a transaction together may still add one block at least to the list, and
-- `size` plus the number of blocks they may add is more than LOGSIZE + 1, `log_write` of any block
-- does not panic, and it records the block; `size` is that of the log area with its header. A call may
-- add MAXOPBLOCKS blocks in all, and a block that the list has does not count. Of the log area of
-- LOGSIZE blocks that mkfs lays out, this asks that they together may add two blocks.
pub log_write_never_panics :
    (size : ℕ) (l : Log) (calls : List ℕ) (b : ℕ)
    → Run size l calls
    → 0 < total calls
    → log_size + 1 < size + total calls
    → (l' : Log) × (log_write b l ≡ some l') × Recorded l l' b
log_write_never_panics size l calls b r left large =
    let f = Run-Fits r in
    let (l', e) = room_to_write size l calls b r left (omega (arith, f.room)) in
    (l', e, log_write_lem l l' b e)

-- The log area does not change.
pub Run-fixed : {size : ℕ} {l : Log} {calls : List ℕ} → Run size l calls → l.size ≡ size
Run-fixed r = (Run-Fits r).fixed
