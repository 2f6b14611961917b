-- ===== src/Proc/Life/Waitpid.antt =====
-- `waitpid`: the process of a pid, whoever its parent is.
use slab_study.Common.{
  ℕ, ◌<◌, ◌≡◌, ◌≢◌, inl, inr, refl, true, false, none, arith, Bool-cases, if◌then◌else◌,
}
use slab_study.Proc.Table.{nproc, unused, sleeping, zombie, eq_state}
use slab_study.Proc.Invariant.{IsValid, find_pid_unique}
use slab_study.Proc.Life.{
  Services, Kernel, WaitResult, reaped, no_child, asleep, reap, waitpid_pass, sleep_on, chan_of,
}

module _ (s : Services) where
  -- What a pass of `waitpid` for the process in entry `i` owes to its caller, by its result.
  abbrev pub WaitpidSpec : ℕ → ℕ → Kernel s → WaitResult × Kernel s → Type 0
  WaitpidSpec cur i k (reaped pid status, k') =
      ((k.table i).state ≡ zombie)
      × (pid ≡ (k.table i).pid)
      × (status ≡ (k.table i).exit_status)
      × ((k'.table i).state ≡ unused)
      × ((k'.table i).pid ≡ 0)
      × ((k'.table i).parent ≡ none)
      × ((k'.table i).killed ≡ false)
      × ((j : ℕ) → j ≢ i → k'.table j ≡ k.table j)
      × (k'.world ≡ s.freevm (k.table i).pgdir (s.kfree (k.table i).kstack k.world))
  WaitpidSpec cur i k (no_child, k') =
      ((k.table i).state ≢ zombie) × ((k.table cur).killed ≡ true) × (k' ≡ k)
  WaitpidSpec cur i k (asleep, k') =
      ((k.table i).state ≢ zombie)
      × ((k.table cur).killed ≡ false)
      × ((k'.table cur).state ≡ sleeping)
      × ((k'.table cur).chan ≡ chan_of (k.table i).parent)
      × ((j : ℕ) → j ≢ cur → k'.table j ≡ k.table j)

  reap-WaitpidSpec :
      (cur i : ℕ) (k : Kernel s) → (k.table i).state ≡ zombie → WaitpidSpec cur i k (reap s i k)
  unfolding reap
  reap-WaitpidSpec cur i k z = (
    z,
    refl,
    refl,
    ground arith,
    ground arith,
    ground arith,
    ground arith,
    λ j d. ground arith,
    refl,
  )

  not_zombie-WaitpidSpec :
      (cur i : ℕ) (k : Kernel s)
      → (k.table i).state ≢ zombie
      → WaitpidSpec cur i k (
          if (k.table cur).killed
          then (no_child, k)
          else (asleep, record k { table = sleep_on cur (chan_of (k.table i).parent) k.table }))
  unfolding sleep_on
  not_zombie-WaitpidSpec cur i k z = elim (Bool-cases (k.table cur).killed) [
    | inl killed ↦ rw killed (z, killed, refl)
    | inr spared ↦ rw spared (z, spared, ground arith, ground arith, λ j d. ground arith)
  ]

  -- A pass of `waitpid`, given the pid of an entry in use, in a valid table, whoever the parent of
  -- that process is: if it is a zombie, its pid and exit status are returned, its entry is freed with
  -- its stack and its page table, and no other entry changes; if not, a killed caller gets -1 with
  -- nothing changed, and any other sleeps on the channel of the process's parent.
  pub waitpid_by_pid :
      (cur i n : ℕ) (k : Kernel s)
      → IsValid k.table n k.initproc
      → i < nproc
      → (k.table i).state ≢ unused
      → WaitpidSpec cur i k (waitpid_pass s cur (k.table i).pid k)
  unfolding waitpid_pass
  waitpid_by_pid cur i n k v l u =
      let e = find_pid_unique i v l (v.named i l u) in
      elim (Bool-cases (eq_state (k.table i).state zombie)) [
        | inl dead ↦ rw (e, dead, waitpid_pass) (reap-WaitpidSpec cur i k (ground arith))
        | inr alive ↦ rw (e, alive, waitpid_pass) (not_zombie-WaitpidSpec cur i k (ground arith))
      ]
