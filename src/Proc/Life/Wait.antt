-- ===== src/Proc/Life/Wait.antt =====
-- `wait`: which process a pass reaps, and when it returns -1 or sleeps.
use mathlib.Core.Path.{subst}
use slab_study.Common.{
  ℕ, zero, suc, ◌+◌, ◌≤◌, ◌<◌, ◌≡◌, ◌≢◌, ◌⊎◌, inl, inr, refl, ap, Bool, true, false, Option, some,
  none, arith, ◌==◌, ◌&&◌, ◌||◌, not, ◌∙◌, Bool-cases, if◌then◌else◌,
}
use slab_study.Proc.Table.{Table, nproc, unused, zombie, eq_state, is_child, proc}
use slab_study.Proc.Invariant.{IsValid}
use slab_study.Proc.Life.{
  Services, Kernel, WaitResult, reaped, no_child, asleep, Scan, exited, others, scan_children, reap,
  wait_pass, sleep_on,
}

-- What the scan has found in the entries from `i` up to `e`, with `havekids` so far.
abbrev Scanned : Table → ℕ → ℕ → ℕ → Bool → Scan → Type 0
Scanned t cur i e hk (exited j) =
    (i ≤ j) × (j < e) × ((t j).parent ≡ some cur) × ((t j).state ≡ zombie)
Scanned t cur i e hk (others b) =
    ((j : ℕ) → i ≤ j → j < e → (t j).parent ≡ some cur → ((t j).state ≢ zombie) × (b ≡ true))
    × (b ≡ true → (hk ≡ true) ⊎ ((j : ℕ) × (i ≤ j) × (j < e) × ((t j).parent ≡ some cur)))
    × (hk ≡ true → b ≡ true)

kid_iff :
    (o : Option ℕ) (cur : ℕ)
    → (is_child o cur ≡ true → o ≡ some cur) × (o ≡ some cur → is_child o cur ≡ true)
kid_iff none cur = (λ e. cc, λ e. cc)
kid_iff (some i) cur = (λ e. ground arith, λ e. ground arith)

-- The entry at `i` is no exited child: what the scan says of those behind it holds with it.
Scanned-extend :
    (t : Table) (cur i e : ℕ) (hk : Bool) (r : Scan)
    → i < e
    → is_child (t i).parent cur && eq_state (t i).state zombie ≡ false
    → Scanned t cur (i + 1) e (is_child (t i).parent cur || hk) r
    → Scanned t cur i e hk r
Scanned-extend t cur i e hk (exited j) l f (p, q, c, z) = (omega arith, q, c, z)
Scanned-extend t cur i e hk (others b) l f (none_exited, some_kid, kept) = (
  λ j p q c. elim (Bool-cases (i == j)) [
    | inl same ↦
        let s : i ≡ j = ground arith in
        let kid : is_child (t i).parent cur ≡ true =
          (kid_iff (t i).parent cur).1 (ap (λ x. (t x).parent) s ∙ c) in
        (ground arith, kept (ground arith))
    | inr differs ↦ none_exited j (ground arith) q c
  ],
  λ y. elim (some_kid y) [
    | inl h ↦ elim (Bool-cases (is_child (t i).parent cur)) [
      | inl kid ↦ inr (i, omega arith, l, (kid_iff (t i).parent cur).0 kid)
      | inr stranger ↦ inl (ground arith)
    ]
    | inr (j, p, q, c) ↦ inr (j, omega arith, q, c)
  ],
  λ y. kept (ground arith),
)

scan_children-Scanned :
    (t : Table) (cur i n e : ℕ) (hk : Bool)
    → i + n ≡ e
    → Scanned t cur i e hk (scan_children t cur i n hk)
unfolding scan_children
scan_children-Scanned t cur i zero e hk q = (λ j p l. absurd (omega arith), inl, λ h. h)
scan_children-Scanned t cur i (suc n) e hk q =
    elim (Bool-cases (is_child (t i).parent cur && eq_state (t i).state zombie)) [
      | inl hit ↦
          rw hit
            (omega arith, omega arith, (kid_iff (t i).parent cur).0 (ground arith), ground arith)
      | inr miss ↦ rw miss (
          Scanned-extend t cur i e hk
            (scan_children t cur (i + 1) n (is_child (t i).parent cur || hk)) (omega arith) miss
            (scan_children-Scanned t cur (i + 1) n e (is_child (t i).parent cur || hk)
              (omega arith)))
    ]

Scan-cases : (r : Scan) → ((i : ℕ) × (r ≡ exited i)) ⊎ ((b : Bool) × (r ≡ others b))
Scan-cases (exited i) = inl (i, refl)
Scan-cases (others b) = inr (b, refl)

module _ (s : Services) where
  -- A zombie child of `cur` that is in the table.
  pub record ExitedChild (t : Table) (cur i : ℕ) : Type 0 where
    pub below : i < nproc
    pub kin : (t i).parent ≡ some cur
    pub dead : (t i).state ≡ zombie

  -- What a pass of `wait` owes to its caller, by its result.
  abbrev pub WaitSpec : ℕ → Kernel s → WaitResult × Kernel s → Type 0
  WaitSpec cur k (reaped pid status, k') =
      (i : ℕ) × ExitedChild k.table cur i
      × (pid ≡ (k.table i).pid)
      × (status ≡ (k.table i).exit_status)
      × ((k'.table i).state ≡ unused)
      × ((k'.table i).pid ≡ 0)
      × ((j : ℕ) → j ≢ i → k'.table j ≡ k.table j)
  WaitSpec cur k (no_child, k') =
      (k' ≡ k)
      × (((j : ℕ) → j < nproc → (k.table j).parent ≢ some cur)
          ⊎ (((k.table cur).killed ≡ true) × ((j : ℕ) → ¬ ExitedChild k.table cur j)))
  WaitSpec cur k (asleep, k') =
      ((j : ℕ) × (j < nproc) × ((k.table j).parent ≡ some cur))
      × ((j : ℕ) → ¬ ExitedChild k.table cur j)
      × ((k.table cur).killed ≡ false)
      × (k'.table ≡ sleep_on cur (proc cur) k.table)

  reap-WaitSpec :
      (cur i : ℕ) (k : Kernel s) → ExitedChild k.table cur i → WaitSpec cur k (reap s i k)
  unfolding reap
  reap-WaitSpec cur i k h = (i, h, refl, refl, ground arith, ground arith, λ j d. ground arith)

  pub ExitedChild-intro :
      (t : Table) (cur i : ℕ)
      → i < nproc
      → (t i).parent ≡ some cur
      → (t i).state ≡ zombie
      → ExitedChild t cur i
  ExitedChild-intro t cur i l c z = record { below = l; kin = c; dead = z }

  wait-others :
      (cur : ℕ) (k : Kernel s) (b : Bool)
      → Scanned k.table cur 0 nproc false (others b)
      → WaitSpec cur k (
          if not b || (k.table cur).killed
          then (no_child, k)
          else (asleep, record k { table = sleep_on cur (proc cur) k.table }))
  wait-others cur k false (none_exited, some_kid, kept) =
      (refl, inl (λ j l c. ground (arith, none_exited j (omega arith) l c)))
  wait-others cur k true (none_exited, some_kid, kept) = elim (Bool-cases (k.table cur).killed) [
    | inl killed ↦ rw killed (refl, inr (killed, stays))
    | inr spared ↦ rw spared (kid (some_kid refl), stays, spared, refl)
  ]
    where
      stays : (j : ℕ) → ¬ ExitedChild k.table cur j
      stays j h = (none_exited j (omega arith) h.below h.kin).0 h.dead

      kid :
          (false ≡ true) ⊎ ((j : ℕ) × (0 ≤ j) × (j < nproc) × ((k.table j).parent ≡ some cur))
          → (j : ℕ) × (j < nproc) × ((k.table j).parent ≡ some cur)
      kid (inl e) = absurd (cc)
      kid (inr (j, p, q, c)) = (j, q, c)

  -- A pass of the loop of `wait` returns the pid and exit status of a zombie child whose entry it
  -- frees, leaving the others as they are; or it returns -1 with nothing changed, where the caller
  -- has no child, or is killed and has no zombie child; or it sleeps on the caller's own channel,
  -- where the caller has a child, no zombie child, and is not killed.
  pub wait_pass_lem : (cur : ℕ) (k : Kernel s) → WaitSpec cur k (wait_pass s cur k)
  unfolding wait_pass
  wait_pass_lem cur k = elim (Scan-cases (scan_children k.table cur 0 nproc false)) [
    | inl (i, e) ↦
        let (p, l, c, z) = subst (Scanned k.table cur 0 nproc false) e scanned in
        rw (e, wait_pass) (reap-WaitSpec cur i k (ExitedChild-intro k.table cur i l c z))
    | inr (b, e) ↦
        rw (e, wait_pass)
          (wait-others cur k b (subst (Scanned k.table cur 0 nproc false) e scanned))
  ]
    where
      scanned : Scanned k.table cur 0 nproc false (scan_children k.table cur 0 nproc false)
      scanned = scan_children-Scanned k.table cur 0 nproc nproc false refl

  -- A pass of `wait` frees the entry of a zombie child, or leaves the table but for the caller's
  -- sleep.
  pub wait_pass-cases :
      (cur : ℕ) (k : Kernel s)
      → ((i : ℕ) × ExitedChild k.table cur i × (wait_pass s cur k ≡ reap s i k))
        ⊎ ((b : Bool) × (wait_pass s cur k ≡ (
              if b
              then (no_child, k)
              else (asleep, record k { table = sleep_on cur (proc cur) k.table }))))
  unfolding wait_pass
  wait_pass-cases cur k = elim (Scan-cases (scan_children k.table cur 0 nproc false)) [
    | inl (i, e) ↦
        let (p, l, c, z) =
          subst (Scanned k.table cur 0 nproc false) e
            (scan_children-Scanned k.table cur 0 nproc nproc false refl) in
        inl (i, ExitedChild-intro k.table cur i l c z, rw (e, wait_pass))
    | inr (b, e) ↦ inr (not b || (k.table cur).killed, rw (e, wait_pass))
  ]

  -- To free the entry of a zombie keeps the table valid.
  pub reap-IsValid :
      (i : ℕ) (k : Kernel s)
      → i < nproc
      → 0 < k.nextpid
      → (k.table i).state ≡ zombie
      → IsValid k.table k.nextpid k.initproc
      → IsValid (reap s i k).1.table (reap s i k).1.nextpid (reap s i k).1.initproc
  unfolding reap
  reap-IsValid i k l positive z v = record {
    unique = λ a b la lb p q. v.unique a b la lb (ground arith) (ground arith);
    fresh = λ a la. ground (arith, v.fresh a la);
    named = λ a la e. ground (arith, v.named a la);
    parented = λ a p la e.
        let q : (k.table a).parent ≡ some p = ground arith in
        let (m, alive) = v.parented a p la q in (m, ground arith);
    init_alive = (v.init_alive.0, ground (arith, v.init_alive.1));
    ranked = λ a la. ground (arith, v.ranked a la);
  }
