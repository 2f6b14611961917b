-- ===== src/Proc/Sched/Pick.antt =====
-- The process that a round of the scheduler chooses.
use slab_study.Common.{
  ℕ, zero, suc, ◌+◌, ◌-◌, ◌≤◌, ◌<◌, ◌≡◌, refl, true, false, none, some, arith, ltb, if◌then◌else◌,
  ◌⊎◌, ◌↔◌, ◌∙◌, Option-cases, find_index, ◌≤ℤ◌, ℤ, negsuc, inl, inr, Bool-cases, ◌==◌,
  find_index-some, find_index-none, find_index-exists, StopsAt,
}
use slab_study.Proc.Table.{Table, nproc, Proc, runnable}
use slab_study.Proc.Sched.{Best, better, highest, eligible, search_from, pick, unset}

-- What the first loop knows once it has passed the entries below `i`.
record Bounds (t : Table) (i : ℕ) (b : Best) : Type 0 where
  start : b.updated ≡ false → b.prio ≡ negsuc 10
  low : negsuc 10 ≤ℤ b.prio
  top : (j : ℕ) → j < i → (t j).state ≡ runnable → (t j).priority ≤ℤ b.prio
  attained :
      b.updated ≡ true → (j : ℕ) × (j < i) × ((t j).state ≡ runnable) × ((t j).priority ≡ b.prio)
  silent :
      b.updated ≡ false → (j : ℕ) → j < i → (t j).state ≡ runnable → ¬ (negsuc 10 ≤ℤ (t j).priority)

-- The body of the loop keeps its best value, or takes the entry as the new one.
better-cases :
    (p : Proc) (b : Best)
    → ((better p b ≡ b) × (p.state ≡ runnable → ¬ (b.prio ≤ℤ p.priority)))
      ⊎ ((better p b ≡ record { prio = p.priority; updated = true })
          × (p.state ≡ runnable)
          × (b.prio ≤ℤ p.priority))
unfolding better
better-cases p b = ground arith

keep-Bounds :
    (t : Table) (i : ℕ) (b : Best)
    → Bounds t i b
    → ((t i).state ≡ runnable → ¬ (b.prio ≤ℤ (t i).priority))
    → Bounds t (i + 1) b
keep-Bounds t i b h skip = record {
  start = h.start;
  low = h.low;
  top = λ j l r. elim (Bool-cases (i == j)) [
    | inl same ↦ ground arith
    | inr differs ↦ ground (arith, h.top j)
  ];
  attained = λ e. let (j, l, r, q) = h.attained e in (j, omega arith, r, q);
  silent = λ e j l r. elim (Bool-cases (i == j)) [
    | inl same ↦ ground (arith, h.start)
    | inr differs ↦ ground (arith, h.silent e j)
  ];
}

take-Bounds :
    (t : Table) (i : ℕ) (b : Best)
    → Bounds t i b
    → (t i).state ≡ runnable
    → b.prio ≤ℤ (t i).priority
    → Bounds t (i + 1) (record { prio = (t i).priority; updated = true })
take-Bounds t i b h run le = record {
  start = λ e. absurd (cc);
  low = omega (arith, h.low);
  top = λ j l r. elim (Bool-cases (i == j)) [
    | inl same ↦ ground arith
    | inr differs ↦ ground (arith, h.top j)
  ];
  attained = λ e. (i, omega arith, run, refl);
  silent = λ e. absurd (cc);
}

better-Bounds : (t : Table) (i : ℕ) (b : Best) → Bounds t i b → Bounds t (i + 1) (better (t i) b)
better-Bounds t i b h = elim (better-cases (t i) b) [
  | inl (e, skip) ↦ rw e (keep-Bounds t i b h skip)
  | inr (e, run, le) ↦ rw e (take-Bounds t i b h run le)
]

highest-Bounds :
    (t : Table) (i n k : ℕ) (b : Best) → i + n ≡ k → Bounds t i b → Bounds t k (highest t i n b)
unfolding highest
highest-Bounds t i zero k b e h = let same : i ≡ k = omega arith in rw (← same) h
highest-Bounds t i (suc n) k b e h =
    highest-Bounds t (i + 1) n k (better (t i) b) (omega arith) (better-Bounds t i b h)

best : Table → Best
best t = highest t 0 nproc unset

best-Bounds : (t : Table) → Bounds t nproc (best t)
unfolding best
best-Bounds t = highest-Bounds t 0 nproc nproc unset refl (record {
  start = λ e. refl;
  low = omega arith;
  top = λ j l r. absurd (omega arith);
  attained = λ e. absurd (cc);
  silent = λ e j l r q. omega arith;
})

-- What the search loops look for, in order: the entries from the cursor on, then those below it.
-- `lap cur j` says how many entries stand between the cursor and `j` in that order.
abbrev pub lap : ℕ → ℕ → ℕ
lap cur j = if ltb j cur then j + nproc - cur else j - cur

record Chosen (t : Table) (prio : ℤ) (cur i : ℕ) : Type 0 where
  below : i < nproc
  fits : eligible t prio i ≡ true
  nearest : (j : ℕ) → j < nproc → eligible t prio j ≡ true → lap cur i ≤ lap cur j

module _ (t : Table) (prio : ℤ) (cur : ℕ) (within : cur < nproc) where
  ahead-Chosen : {i : ℕ} → StopsAt (eligible t prio) cur (nproc - cur) i → Chosen t prio cur i
  ahead-Chosen {i} s = record {
    below = omega (arith, s.below);
    fits = s.hit;
    nearest = λ j l e. ground (arith, s.first j, s.from);
  }

  behind-Chosen :
      {i : ℕ}
      → ((j : ℕ) → cur ≤ j → j < nproc → eligible t prio j ≡ false)
      → StopsAt (eligible t prio) 0 cur i
      → Chosen t prio cur i
  behind-Chosen {i} none_ahead s = record {
    below = omega (arith, s.below);
    fits = s.hit;
    nearest = λ j l e. ground (arith, s.first j, s.below, none_ahead j);
  }

  search_from-Chosen : {i : ℕ} → search_from t prio cur ≡ some i → Chosen t prio cur i
  unfolding search_from
  search_from-Chosen {i} e = elim (Option-cases (find_index (eligible t prio) cur (nproc - cur))) [
    | inl miss ↦
        behind-Chosen
          (λ j p q. find_index-none (eligible t prio) cur (nproc - cur) miss j p (omega arith))
          (find_index-some (eligible t prio) 0 cur (ground arith))
    | inr (k, hit) ↦
        let same : k ≡ i = ground arith in
        ahead-Chosen (find_index-some (eligible t prio) cur (nproc - cur) (rw (← same) hit))
  ]

  search_from-exists :
      (j : ℕ) → j < nproc → eligible t prio j ≡ true → (i : ℕ) × (search_from t prio cur ≡ some i)
  unfolding search_from
  search_from-exists j m e = elim (Option-cases (find_index (eligible t prio) cur (nproc - cur))) [
    | inl miss ↦
        rw (miss, search_from)
          (find_index-exists (eligible t prio) 0 cur j (omega arith) (below_cursor miss) e)
    | inr (k, hit) ↦ (k, rw (hit, search_from))
  ]
    where
      below_cursor : find_index (eligible t prio) cur (nproc - cur) ≡ none → j < 0 + cur
      below_cursor miss = ground (arith, find_index-none (eligible t prio) cur (nproc - cur) miss j)

-- The process that a round chooses is runnable, no runnable process has a higher priority, and
-- among those with its priority it comes first from the cursor on, going round the table.
pub record Elected (t : Table) (cur i : ℕ) : Type 0 where
  pub below : i < nproc
  pub ready : (t i).state ≡ runnable
  pub top : (j : ℕ) → j < nproc → (t j).state ≡ runnable → (t j).priority ≤ℤ (t i).priority
  pub turn :
      (j : ℕ)
      → j < nproc
      → (t j).state ≡ runnable
      → (t j).priority ≡ (t i).priority
      → lap cur i ≤ lap cur j

eligible_parts :
    (t : Table) (prio : ℤ) (i : ℕ)
    → eligible t prio i ≡ true
    → ((t i).state ≡ runnable) × ((t i).priority ≡ prio)
unfolding eligible
eligible_parts t prio i e = ground arith

eligible_intro :
    (t : Table) (prio : ℤ) (i : ℕ)
    → (t i).state ≡ runnable
    → (t i).priority ≡ prio
    → eligible t prio i ≡ true
unfolding eligible
eligible_intro t prio i r e = ground arith

Chosen-Elected :
    (t : Table) (cur i : ℕ)
    → Bounds t nproc (best t)
    → Chosen t (best t).prio cur i
    → Elected t cur i
Chosen-Elected t cur i b c =
    let (ready, same) = eligible_parts t (best t).prio i c.fits in
    record {
      below = c.below;
      ready = ready;
      top = λ j l r. rw same (b.top j l r);
      turn = λ j l r q. c.nearest j l (eligible_intro t (best t).prio j r (q ∙ same));
    }

-- If a round of the scheduler chooses a process, that process is runnable, no runnable process has
-- a higher priority, and of the runnable processes with its priority it is the first from the
-- cursor on, in the order that goes round the table.
pub pick-Elected :
    (t : Table) (cur : ℕ) {i : ℕ} → cur < nproc → pick t cur ≡ some i → Elected t cur i
unfolding pick best
pick-Elected t cur {i} l e = elim (Bool-cases (best t).updated) [
  | inl up ↦
      Chosen-Elected t cur i (best-Bounds t) (search_from-Chosen t (best t).prio cur l (rw up at e))
  | inr down ↦ absurd (ground arith)
]

-- An updated best priority has a holder, which the search loops find.
updated-pick :
    (t : Table) (cur : ℕ) → cur < nproc → (best t).updated ≡ true → (i : ℕ) × (pick t cur ≡ some i)
unfolding pick best
updated-pick t cur l up =
    let (j, m, r, q) = (best-Bounds t).attained up in
    let (i, e) =
      search_from-exists t (best t).prio cur l j m (eligible_intro t (best t).prio j r q) in
    (i, rw up e)

-- A runnable process whose priority is not below LOWPRIO - 1 makes a round choose some process.
pub pick-some :
    (t : Table) (cur j : ℕ)
    → cur < nproc
    → j < nproc
    → (t j).state ≡ runnable
    → negsuc 10 ≤ℤ (t j).priority
    → (i : ℕ) × (pick t cur ≡ some i)
pick-some t cur j l m r b = elim (Bool-cases (best t).updated) [
  | inl up ↦ updated-pick t cur l up
  | inr down ↦ absurd ((best-Bounds t).silent down j m r b)
]

-- A round of the scheduler chooses no process exactly when no process is runnable, given that
-- the cursor is in the table and that every priority is at least LOWPRIO - 1.
pub pick-none :
    (t : Table) (cur : ℕ)
    → cur < nproc
    → ((j : ℕ) → j < nproc → negsuc 10 ≤ℤ (t j).priority)
    → (pick t cur ≡ none) ↔ ((j : ℕ) → j < nproc → ¬ ((t j).state ≡ runnable))
pick-none t cur l bounded = (idle, quiet)
  where
    idle : pick t cur ≡ none → (j : ℕ) → j < nproc → ¬ ((t j).state ≡ runnable)
    idle e j m r = let (i, chosen) = pick-some t cur j l m r (bounded j m) in cc

    quiet : ((j : ℕ) → j < nproc → ¬ ((t j).state ≡ runnable)) → pick t cur ≡ none
    quiet h = elim (Option-cases (pick t cur)) [
      | inl e ↦ e
      | inr (i, e) ↦ let w = pick-Elected t cur l e in absurd (h i w.below w.ready)
    ]
