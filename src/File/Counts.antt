-- ===== src/File/Counts.antt =====
-- The reference count of an open file is the number of pointers to it.
use slab_study.Common.{
  ℕ, ◌+◌, ◌-◌, ◌%◌, ◌^◌, ◌<◌, ◌≡◌, ◌≢◌, inl, inr, refl, true, false, arith, ltb, ◌==◌,
  if◌then◌else◌, update, Bool-cases, List, [], ◌∷◌, Option, some, none, Option-cases, find_index,
  find_index-some, find_index-none,
}
use slab_study.File.{
  File, Ftable, fd_none, fd_pipe, fd_inode, nfile, filealloc, filedup, Closing, still_open, nothing,
  close_pipe, put_inode, closing_of, fileclose,
}

-- How often `i` is in the list.
abbrev pub count : ℕ → List ℕ → ℕ
count i [] = 0
count i (x ∷ xs) = (if x == i then 1 else 0) + count i xs

-- `held` are the pointers to open files, one for each descriptor that has the file: the counts of
-- the table are those of `held`, which are fewer than 2^31.
pub record Counts (t : Ftable) (held : List ℕ) : Type 0 where
  pub exact : (i : ℕ) → (t i).ref ≡ count i held
  pub small : (i : ℕ) → count i held < 2 ^ 31

-- What `filealloc` owes, by its result.
abbrev pub Allocated : Ftable → List ℕ → Option ℕ × Ftable → Type 0
Allocated t held (some i, t') = (i < nfile) × (count i held ≡ 0) × Counts t' (i ∷ held)
Allocated t held (none, t') = (t' ≡ t) × ((i : ℕ) → i < nfile → count i held ≢ 0)

-- `filealloc`, where the counts are exact, hands out an entry that no pointer leads to, and counts
-- the pointer that it returns; or it returns a null pointer, and then every entry is pointed to.
pub filealloc_lem : (t : Ftable) (held : List ℕ) → Counts t held → Allocated t held (filealloc t)
unfolding filealloc
filealloc_lem t held c = elim (Option-cases (find_index (λ i. (t i).ref == 0) 0 nfile)) [
  | inl e ↦
      rw (e, filealloc)
        (refl, λ i l. ground (arith, c.exact i, find_index-none (λ i. (t i).ref == 0) 0 nfile e i))
  | inr (i, e) ↦
      let w = find_index-some (λ i. (t i).ref == 0) 0 nfile e in
      let unheld : count i held ≡ 0 = ground (arith, w.hit, c.exact i) in
      rw (e, filealloc)
        (
          omega (arith, w.below),
          unheld,
          record {
            exact = λ j. ground (arith, c.exact j, unheld);
            small = λ j. ground (arith, c.small j, unheld);
          },
        )
]

-- `filedup` of a file that some pointer leads to does not panic, and counts one pointer more.
pub filedup_lem :
    (t : Ftable) (held : List ℕ) (i : ℕ)
    → Counts t held
    → count i held ≢ 0
    → count i held + 1 < 2 ^ 31
    → (t' : Ftable) × (filedup i t ≡ some t') × Counts t' (i ∷ held)
unfolding filedup
filedup_lem t held i c some_held room = (
  update t i (record (t i) { ref = ((t i).ref + 1) % 2 ^ 32 }),
  ground (arith, c.exact i),
  record {
    exact = λ j. ground (arith, c.exact j, c.exact i);
    small = λ j. ground (arith, c.small j);
  },
)

-- What a close gives up of the file `f`, to which `left` other pointers lead.
pub record GivesUp (left : ℕ) (f : File) (r : Closing) : Type 0 where
  pub shared : left ≢ 0 → r ≡ still_open
  pub pipe : left ≡ 0 → f.kind ≡ fd_pipe → r ≡ close_pipe f.pipe f.writable
  pub inode : left ≡ 0 → f.kind ≡ fd_inode → r ≡ put_inode f.ip
  pub none_behind : left ≡ 0 → f.kind ≡ fd_none → r ≡ nothing

last-GivesUp : (left : ℕ) (f : File) → left ≡ 0 → GivesUp left f (closing_of f.kind f)
unfolding closing_of
last-GivesUp left f z = record {
  shared = λ n. absurd (n z);
  pipe = λ l e. rw e refl;
  inode = λ l e. rw e refl;
  none_behind = λ l e. rw e refl;
}

-- `fileclose` through one of the pointers to a file does not panic, counts that pointer no more, and
-- leaves the other files as they are. If another pointer is left, nothing is given up. If not, the
-- entry is free, and it goes on to close the file's pipe, at the end that the file could write or
-- read, or to put its inode.
pub fileclose_lem :
    (t : Ftable) (held : List ℕ) (i : ℕ)
    → Counts t (i ∷ held)
    → (r : Closing) × (t' : Ftable) × (fileclose i t ≡ some (r, t'))
      × Counts t' held
      × GivesUp (count i held) (t i) r
      × (count i held ≡ 0 → (t' i).kind ≡ fd_none)
      × ((j : ℕ) → j ≢ i → t' j ≡ t j)
unfolding fileclose
fileclose_lem t held i c = elim (Bool-cases (count i held == 0)) [
  | inl last ↦ (
    closing_of (t i).kind (t i),
    update t i (record (t i) { ref = 0; kind = fd_none }),
    (let none_left : ltb 0 ((t i).ref - 1) ≡ false = ground (arith, held_count) in
        rw (open_still, none_left) refl),
    record { exact = λ j. ground (arith, c.exact j); small = λ j. ground (arith, c.small j) },
    last-GivesUp (count i held) (t i) (ground arith),
    λ z. (let own : (i == i) ≡ true = ground arith in rw own refl),
    λ j n. (let away : (i == j) ≡ false = ground arith in rw away refl),
  )
  | inr more ↦ (
    still_open,
    update t i (record (t i) { ref = (t i).ref - 1 }),
    (let some_left : ltb 0 ((t i).ref - 1) ≡ true = ground (arith, held_count) in
        rw (open_still, some_left) refl),
    record {
      exact = λ j. ground (arith, c.exact j, c.exact i);
      small = λ j. ground (arith, c.small j);
    },
    record {
      shared = λ n. refl;
      pipe = λ z e. absurd (nonzero more z);
      inode = λ z e. absurd (nonzero more z);
      none_behind = λ z e. absurd (nonzero more z);
    },
    λ z. absurd (nonzero more z),
    λ j n. (let away : (i == j) ≡ false = ground arith in rw away refl),
  )
]
  where
    held_count : (t i).ref ≡ count i held + 1
    held_count = ground (arith, c.exact i)

    open_still : ltb (t i).ref 1 ≡ false
    open_still = ground (arith, held_count)

    nonzero : {n : ℕ} → (n == 0) ≡ false → n ≢ 0
    nonzero e = ground arith
