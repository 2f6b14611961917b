-- ===== src/Pipe.antt =====
-- xv6_lab3/pipe.c: a pipe with its circular buffer. Each function is what happens between two
-- sleeps, while the pipe's lock is held.
pub mod Queue
pub mod RoundTrip
mod Tests
use slab_study.Common.{
  ℕ, zero, suc, ◌+◌, ◌%◌, ◌^◌, Bool, true, false, List, [], ◌∷◌, ◌==◌, ◌&&◌, ◌||◌, not,
  if◌then◌else◌, update,
}

-- `PIPESIZE`
abbrev pub pipe_size : ℕ
pipe_size = 512

-- `uint` addition
abbrev pub add_uint : ℕ → ℕ → ℕ
add_uint a b = (a + b) % 2 ^ 32

-- `struct pipe`; `contents` is its array `data`, indexed below `pipe_size`.
pub record Pipe : Type 0 where
  pub contents : ℕ → ℕ
  pub nread : ℕ
  pub nwrite : ℕ
  pub readopen : Bool
  pub writeopen : Bool

-- What `pipealloc` sets up in the page that `kalloc` gave.
pub fresh : (ℕ → ℕ) → Pipe
fresh page = record { contents = page; nread = 0; nwrite = 0; readopen = true; writeopen = true }

-- The result says whether the page of the pipe is freed. A writer that closes wakes the sleepers on
-- `nread`, a reader those on `nwrite`.
pub pipeclose : Pipe → Bool → Bool × Pipe
pipeclose p writable =
    let p' = if writable then record p { writeopen = false } else record p { readopen = false } in
    (not p'.readopen && not p'.writeopen, p')

-- What `pipewrite` does next: it has written all and returns n, it returns -1, or it sleeps on
-- `nwrite` with the rest of the bytes still to write. It wakes the readers before it returns n and
-- before it sleeps.
pub data WriteResult : Type 0 where
  written : WriteResult
  broken : WriteResult
  full : (rest : List ℕ) → WriteResult

-- `p->data[p->nwrite++ % PIPESIZE] = byte`
pub put : ℕ → Pipe → Pipe
put byte p = record p {
  contents = update p.contents (p.nwrite % pipe_size) byte;
  nwrite = add_uint p.nwrite 1;
}

-- The loop of `pipewrite` over the bytes that are left, up to its next sleep.
pub pipewrite : Bool → List ℕ → Pipe → WriteResult × Pipe
pipewrite killed [] p = (written, p)
pipewrite killed (x ∷ xs) p =
    let rest = pipewrite killed xs (put x p) in
    if p.nwrite == add_uint p.nread pipe_size
    then (if not p.readopen || killed then broken else full (x ∷ xs), p)
    else rest

-- What `piperead` does next: it returns the bytes that it has copied, it returns -1, or it sleeps on
-- `nread`. It wakes the writers before it returns bytes.
pub data ReadResult : Type 0 where
  bytes : List ℕ → ReadResult
  interrupted : ReadResult
  empty : ReadResult

-- `p->nread++`, of the byte at `p->nread % PIPESIZE`.
pub skip : Pipe → Pipe
skip p = record p { nread = add_uint p.nread 1 }

-- The copying loop of `piperead`, for at most `n` bytes.
pub copy_out : ℕ → Pipe → List ℕ × Pipe
copy_out zero p = ([], p)
copy_out (suc n) p =
    let (out, p') = copy_out n (skip p) in
    if p.nread == p.nwrite then ([], p) else (p.contents (p.nread % pipe_size) ∷ out, p')

pub piperead : Bool → ℕ → Pipe → ReadResult × Pipe
piperead killed n p =
    let (out, p') = copy_out n p in
    if p.nread == p.nwrite && p.writeopen
    then (if killed then interrupted else empty, p)
    else (bytes out, p')
