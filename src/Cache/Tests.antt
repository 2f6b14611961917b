-- ===== src/Cache/Tests.antt =====
-- The buffer cache at an input: three buffers, of which one is in use and one has unsaved data.
use slab_study.Common.{◌+◌, ◌≡◌, some, refl, true, false, [], ◌∷◌, ◌==◌, if◌then◌else◌}
use slab_study.Cache.{Bcache, bget, binit, recycle, find_first, find_last, find_unused, link_all}
use slab_study.Cache.Lookup.{BgetResult, bget_lem, IsUnique}
use slab_study.Cache.Coherence.{Complete, boot, gets, cache_is_coherent}

abbrev three : Bcache
three = record {
  buf = λ i. record {
    valid = true;
    dirty = if i == 1 then true else false;
    dev = 1;
    blockno = 40 + i;
    refcnt = if i == 0 then 1 else 0;
  };
  mru = 0 ∷ 1 ∷ 2 ∷ [];
}

bget_lem_example : BgetResult three 1 77 (bget 1 77 three)
bget_lem_example = bget_lem 1 77 three

-- Block 77 is read first.
first_read : bget 1 77 binit ≡ some (0, recycle 1 77 0 binit)
unfolding bget find_first find_last find_unused binit link_all
first_read = refl

cache_is_coherent_example : IsUnique (recycle 1 77 0 binit) × Complete (recycle 1 77 0 binit)
cache_is_coherent_example = cache_is_coherent (recycle 1 77 0 binit) (gets 1 77 0 boot first_read)
