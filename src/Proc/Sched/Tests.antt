-- ===== src/Proc/Sched/Tests.antt =====
-- Runs of the scheduler, and its theorems at an input.
use slab_study.Common.{
  ℕ, zero, suc, ◌<◌, ◌≡◌, ◌↔◌, refl, arith, Option-cases, some, none, inl, inr, find_index,
}
use slab_study.Proc.Table.{Table, nproc, runnable}
use slab_study.Proc.Samples.{queue, blank}
use slab_study.Proc.Sched.{Cpu, highest, pick, round, rounds, search_from, eligible, better}
use slab_study.Proc.Sched.Pick.{Elected, pick-Elected, pick-none}
use slab_study.Proc.Sched.Fair.{IsTop, top_is_chosen}

picks_higher : pick queue 0 ≡ some 3
unfolding pick highest better search_from eligible find_index
picks_higher = refl

picks_round : pick queue 5 ≡ some 3
unfolding pick highest better search_from eligible find_index
picks_round = refl

picks_none : pick (λ _. blank) 0 ≡ none
unfolding pick highest better search_from eligible find_index
picks_none = refl

pick-Elected_example : Elected queue 0 3
pick-Elected_example = pick-Elected queue 0 (omega arith) picks_higher

pick-none_example : (pick queue 5 ≡ none) ↔ ((j : ℕ) → j < nproc → ¬ ((queue j).state ≡ runnable))
pick-none_example = pick-none queue 5 (omega arith) (λ j l. ground arith)

abbrev cpu : Cpu
cpu = record { table = queue; cur = 0; current = none }

-- Between the turns the processes put the table back as it was.
abbrev put_back : ℕ → Table → Table
put_back k t = queue

same_table : (k : ℕ) → (rounds put_back cpu k).table ≡ queue
unfolding rounds round
same_table zero = refl
same_table (suc k) =
    let c = rounds put_back cpu k in
    elim (Option-cases (pick c.table c.cur)) [ inl e ↦ rw (e, round) | inr (i, e) ↦ rw (e, round) ]

queue-IsTop : IsTop queue 3
queue-IsTop = record { ready = refl; low = omega arith; top = λ k l r. ground arith }

top_is_chosen_example :
    (k : ℕ) × (k < nproc)
    × (pick (rounds put_back cpu k).table (rounds put_back cpu k).cur ≡ some 3)
top_is_chosen_example =
    top_is_chosen put_back cpu 3 (omega arith) (omega arith) (λ k l. rw (same_table k) queue-IsTop)
