-- ===== src/Proc/Life/Alloc.antt =====
-- `allocproc`: what it returns, and what may be put into the entry that it finds.
use slab_study.Common.{
  ℕ, ◌+◌, ◌%◌, ◌^◌, ◌<◌, ◌≡◌, ◌≢◌, ◌⊎◌, inl, inr, refl, ap, sym, true, some, none, arith, pos, ◌==◌,
  ◌∙◌, Bool-cases, Option-cases, update, find_index, find_index-some,
}
use slab_study.Proc.Table.{Table, nproc, Proc, unused, embryo, eq_state}
use slab_study.Proc.Invariant.{IsAlive, IsValid}
use slab_study.Proc.Life.{Services, Kernel, alloc_slot, allocproc}

-- What may be put into a free entry: the next pid, with the parent and the priority of old, or
-- with a process that has not exited for a parent and the priority 0.
pub record Fits (t : Table) (n i : ℕ) (q : Proc) : Type 0 where
  pub named : q.pid ≡ n
  pub kin :
      (p : ℕ) → q.parent ≡ some p → ((t i).parent ≡ some p) ⊎ ((p < nproc) × IsAlive (t p).state)
  pub rank : (q.priority ≡ (t i).priority) ⊎ (q.priority ≡ pos 0)

pub install-IsValid :
    (t u : Table) (n init i : ℕ)
    → IsValid t n init
    → (t i).state ≡ unused
    → 0 < n
    → ((j : ℕ) → j ≢ i → u j ≡ t j)
    → Fits t n i (u i)
    → IsValid u (n + 1) init
install-IsValid t u n init i v free positive frame f = record {
  unique = λ a b la lb d same. elim (Bool-cases (a == i)) [
    | inl here ↦ elim (Bool-cases (b == i)) [
      | inl also ↦ ground arith
      | inr away ↦
          absurd (ground (arith, frame b, f.named, v.fresh b lb, ap (λ x. (u x).pid) (at a here)))
    ]
    | inr away ↦ elim (Bool-cases (b == i)) [
      | inl also ↦
          absurd (ground (arith, frame a, f.named, v.fresh a la, ap (λ x. (u x).pid) (at b also)))
      | inr both ↦ v.unique a b la lb (ground (arith, frame a)) (ground (arith, frame a, frame b))
    ]
  ];
  fresh = λ a la. elim (Bool-cases (a == i)) [
    | inl here ↦ ground (arith, f.named, ap (λ x. (u x).pid) (at a here))
    | inr away ↦ ground (arith, frame a, v.fresh a la)
  ];
  named = λ a la e. elim (Bool-cases (a == i)) [
    | inl here ↦ ground (arith, f.named, ap (λ x. (u x).pid) (at a here))
    | inr away ↦ ground (arith, frame a, v.named a la)
  ];
  parented = λ a p la e. elim (Bool-cases (a == i)) [
    | inl here ↦ elim (f.kin p (ap (λ x. (u x).parent) (sym (at a here)) ∙ e)) [
      | inl old ↦
          let (l, alive) = v.parented i p (rw (← at a here) la) old in (l, ground (arith, frame p))
      | inr (l, alive) ↦ (l, ground (arith, frame p))
    ]
    | inr away ↦
        let (l, alive) = v.parented a p la (ground (arith, frame a)) in (l, ground (arith, frame p))
  ];
  init_alive = (v.init_alive.0, ground (arith, v.init_alive.1, frame init));
  ranked = λ a la. elim (Bool-cases (a == i)) [
    | inl here ↦
        let old = v.ranked i (rw (← at a here) la) in
        elim f.rank [
          | inl same ↦ ground (arith, ap (λ x. (u x).priority) (at a here))
          | inr zeroed ↦ ground (arith, ap (λ x. (u x).priority) (at a here))
        ]
    | inr away ↦ ground (arith, frame a, v.ranked a la)
  ];
}
  where
    at : (a : ℕ) → (a == i) ≡ true → a ≡ i
    at a e = ground arith

module _ (s : Services) where
  -- The kernel once `allocproc` has taken the entry `i`.
  abbrev pub taken : ℕ → Kernel s → Kernel s
  taken i k =
      let (page, w) = s.kalloc k.world in
      record k {
        table =
            update k.table i
              (record (k.table i) { state = embryo; pid = k.nextpid; kstack = page });
        nextpid = (k.nextpid + 1) % 2 ^ 32;
        world = w;
      }

  -- `allocproc` finds no free entry and changes nothing; or it finds one and no page, and the
  -- entry is free again, with a pid; or it hands the entry out.
  pub allocproc-cases :
      (k : Kernel s)
      → (allocproc s k ≡ (none, k))
        ⊎ ((i : ℕ) × (i < nproc)
            × ((k.table i).state ≡ unused)
            × (((s.kalloc k.world).0 ≡ 0)
                  × (allocproc s k ≡ (
                    none,
                    record (taken i k) {
                      table = update k.table i (record (k.table i) {
                        state = unused;
                        pid = k.nextpid;
                        kstack = (s.kalloc k.world).0;
                      });
                    },
                  ))
                ⊎ ((s.kalloc k.world).0 ≢ 0) × (allocproc s k ≡ (some i, taken i k))))
  unfolding allocproc alloc_slot
  allocproc-cases k =
      elim (Option-cases (find_index (λ i. eq_state (k.table i).state unused) 0 nproc)) [
        | inl e ↦ inl (rw (e, allocproc))
        | inr (i, e) ↦
            let w = find_index-some (λ i. eq_state (k.table i).state unused) 0 nproc e in
            inr (
              i,
              omega (arith, w.below),
              ground (arith, w.hit),
              elim (Bool-cases ((s.kalloc k.world).0 == 0)) [
                | inl no_page ↦ inl (ground arith, rw (e, allocproc) (rw no_page refl))
                | inr page ↦ inr (ground arith, rw (e, allocproc) (rw page refl))
              ],
            )
      ]
