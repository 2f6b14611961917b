-- ===== src/Pipe/Tests.antt =====
-- Runs of a pipe, also across the wrap of its counters, and the theorems at an input.
use slab_study.Common.{◌≡◌, refl, arith, false, true, [], ◌∷◌}
use slab_study.Pipe.{Pipe, put, pipewrite, written, full, bytes, skip, copy_out, piperead}
use slab_study.Pipe.Queue.{IsValid, Wrote, Read, pipewrite_lem, piperead_lem}
use slab_study.Pipe.RoundTrip.{write_then_read}

-- The counters of a pipe that is about to wrap.
abbrev old_pipe : Pipe
old_pipe = record {
  contents = λ _. 0;
  nread = 0xffff_ffff;
  nwrite = 0xffff_ffff;
  readopen = true;
  writeopen = true;
}

old_pipe-IsValid : IsValid old_pipe
old_pipe-IsValid = omega arith

abbrev after_write : Pipe
after_write = record old_pipe { contents = (put 6 (put 5 old_pipe)).contents; nwrite = 1 }

writes_over_the_wrap : pipewrite false (5 ∷ 6 ∷ []) old_pipe ≡ (written, after_write)
unfolding pipewrite put
writes_over_the_wrap = refl

reads_back : (piperead false 3 after_write).0 ≡ bytes (5 ∷ 6 ∷ [])
unfolding piperead copy_out skip put
reads_back = refl

write_then_read_example : (piperead false 3 after_write).0 ≡ bytes (5 ∷ 6 ∷ [])
write_then_read_example =
    write_then_read false false 3 (5 ∷ 6 ∷ []) old_pipe after_write old_pipe-IsValid refl (λ e. cc)
      (omega arith) writes_over_the_wrap

-- A full pipe.
abbrev crammed : Pipe
crammed = record old_pipe { nwrite = 511 }

crammed-IsValid : IsValid crammed
crammed-IsValid = omega arith

sleeps_when_full : (pipewrite false (9 ∷ []) crammed).0 ≡ full (9 ∷ [])
unfolding pipewrite put
sleeps_when_full = refl

pipewrite_lem_example : Wrote false (9 ∷ []) crammed (pipewrite false (9 ∷ []) crammed)
pipewrite_lem_example = pipewrite_lem false (9 ∷ []) crammed crammed-IsValid

piperead_lem_example : Read false 2 crammed (piperead false 2 crammed)
piperead_lem_example = piperead_lem false 2 crammed crammed-IsValid
