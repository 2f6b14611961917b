-- ===== src/Fs/Icache/Lookup.antt =====
-- `iget`: an inode has one entry of the table at most.
use slab_study.Common.{
  ℕ, zero, suc, ◌+◌, ◌<◌, ◌≤◌, ◌≡◌, ◌≢◌, ◌⊎◌, inl, inr, refl, sym, ap, ◌∙◌, arith, Bool, true,
  false, Option, some, none, ◌==◌, if◌then◌else◌, update, Bool-cases,
}
use slab_study.Fs.Icache.{
  ninode, Cached, Icache, is_inode, Hunt, cached, not_cached, remember, hunt, take_entry, iget,
}

-- No two entries in use are the same inode.
abbrev pub IsUnique : Icache → Type 0
IsUnique c =
    (i j : ℕ)
    → i < ninode
    → j < ninode
    → 0 < (c i).ref
    → 0 < (c j).ref
    → (c i).dev ≡ (c j).dev
    → (c i).inum ≡ (c j).inum
    → i ≡ j

-- Which slot the loop remembers.
abbrev EmptySlot : Icache → ℕ → ℕ → Option ℕ → Option ℕ → Type 0
EmptySlot c i hi empty none = (empty ≡ none) × ((k : ℕ) → i ≤ k → k < hi → (c k).ref ≢ 0)
EmptySlot c i hi empty (some e) = (empty ≡ some e) ⊎ ((i ≤ e) × (e < hi) × ((c e).ref ≡ 0))

abbrev HuntResult : Icache → ℕ → ℕ → ℕ → ℕ → Option ℕ → Hunt → Type 0
HuntResult c dev inum i hi empty (cached k) = (i ≤ k) × (k < hi) × (is_inode c dev inum k ≡ true)
HuntResult c dev inum i hi empty (not_cached e) =
    ((k : ℕ) → i ≤ k → k < hi → is_inode c dev inum k ≡ false) × EmptySlot c i hi empty e

-- One entry on.
remember_lem :
    (c : Icache) (i hi : ℕ) (empty e : Option ℕ)
    → i < hi
    → EmptySlot c (i + 1) hi (remember c i empty) e
    → EmptySlot c i hi empty e
unfolding remember
remember_lem c i hi (some x) none l w = absurd (cc (w.0))
remember_lem c i hi (some x) (some y) l (inl e) = inl e
remember_lem c i hi (some x) (some y) l (inr w) = inr (omega (arith, w.0), w.1, w.2)
remember_lem c i hi none none l w = elim (Bool-cases ((c i).ref == 0)) [
  | inl empty ↦ absurd (impossible (sym (rw empty refl) ∙ w.0))
  | inr used ↦ (
    refl,
    λ k a b. elim (Bool-cases (i == k)) [
      | inl here ↦
          (let same : i ≡ k = ground arith in λ z. differs used (ap (λ x. (c x).ref) same ∙ z))
      | inr other ↦ w.1 k (ground arith) b
    ],
  )
]
  where
    impossible : ◌≢◌ {A = Option ℕ} (some i) none
    impossible e = cc

    differs : {x : ℕ} → (x == 0) ≡ false → x ≢ 0
    differs e = ground arith
remember_lem c i hi none (some y) l (inr w) = inr (omega (arith, w.0), w.1, w.2)
remember_lem c i hi none (some y) l (inl w) = elim (Bool-cases ((c i).ref == 0)) [
  | inl empty ↦
      let here : i ≡ y = first_of (sym (rw empty refl) ∙ w) in
      inr (omega (arith, here), omega (arith, here), ap (λ k. (c k).ref) (sym here) ∙ ground arith)
  | inr used ↦ absurd (impossible (sym w ∙ rw used refl))
]
  where
    first_of : {a b : ℕ} → ◌≡◌ {A = Option ℕ} (some a) (some b) → a ≡ b
    first_of e = cc

    impossible : ◌≢◌ {A = Option ℕ} (some y) none
    impossible e = cc

hunt_lem :
    (c : Icache) (dev inum i n hi : ℕ) (empty : Option ℕ)
    → i + n ≡ hi
    → HuntResult c dev inum i hi empty (hunt c dev inum i n empty)
unfolding hunt
hunt_lem c dev inum i zero hi empty e = (λ k a b. absurd (omega arith), nothing empty)
  where
    nothing : (x : Option ℕ) → EmptySlot c i hi x x
    nothing none = (refl, λ k a b. absurd (omega arith))
    nothing (some y) = inl refl
hunt_lem c dev inum i (suc n) hi empty e = elim (Bool-cases (is_inode c dev inum i)) [
  | inl hit ↦ rw (hit, hunt) (omega arith, omega arith, hit)
  | inr miss ↦
      rw (miss, hunt)
        (step (hunt c dev inum (i + 1) n (remember c i empty))
          (hunt_lem c dev inum (i + 1) n hi (remember c i empty) (omega arith)) miss)
]
  where
    step :
        (h : Hunt)
        → HuntResult c dev inum (i + 1) hi (remember c i empty) h
        → is_inode c dev inum i ≡ false
        → HuntResult c dev inum i hi empty h
    step (cached k) w miss = (omega (arith, w.0), w.1, w.2)
    step (not_cached y) w miss = (
      λ k a b. elim (Bool-cases (i == k)) [
        | inl here ↦ (let same : i ≡ k = ground arith in ap (is_inode c dev inum) (sym same) ∙ miss)
        | inr other ↦ w.0 k (ground arith) b
      ],
      remember_lem c i hi empty y (omega arith) w.1,
    )

-- `iget` has found the inode in entry `i`, or has given it the entry `i`.
pub record Got (dev inum i : ℕ) (c c' : Icache) : Type 0 where
  pub below : i < ninode
  pub named : ((c' i).dev ≡ dev) × ((c' i).inum ≡ inum)
  pub counted : (c' i).ref ≡ (c i).ref + 1
  pub loaded : (c' i).valid ≡ (if is_inode c dev inum i then (c i).valid else false)
  pub new : is_inode c dev inum i ≡ false → (c i).ref ≡ 0
  pub others : (j : ℕ) → j ≢ i → c' j ≡ c j
  pub unique : IsUnique c'

abbrev pub IgetResult : ℕ → ℕ → Icache → Option (ℕ × Icache) → Type 0
IgetResult dev inum c none =
    (k : ℕ) → k < ninode → ((c k).ref ≢ 0) × (is_inode c dev inum k ≡ false)
IgetResult dev inum c (some (i, c')) = Got dev inum i c c'

-- `is_inode` and its parts.
is_inode_lem :
    (c : Icache) (dev inum i : ℕ)
    → is_inode c dev inum i ≡ true
    → (0 < (c i).ref) × ((c i).dev ≡ dev) × ((c i).inum ≡ inum)
is_inode_lem c dev inum i e = ground arith

not_inode :
    (c : Icache) (dev inum i : ℕ)
    → is_inode c dev inum i ≡ false
    → 0 < (c i).ref
    → (c i).dev ≡ dev
    → (c i).inum ≢ inum
not_inode c dev inum i e l d n = ground arith

-- A changed entry leaves the inodes unique if it is the inode that it was, or one that no other is.
pub update-IsUnique :
    (c : Icache) (k : ℕ) (p : Cached)
    → IsUnique c
    → ((j : ℕ) → j < ninode → j ≢ k → 0 < (c j).ref → (c j).dev ≡ p.dev → (c j).inum ≢ p.inum)
    → IsUnique (update c k p)
update-IsUnique c k p u away i j li lj ri rj d n = elim (Bool-cases (k == i)) [
  | inl here ↦ elim (Bool-cases (k == j)) [
    | inl also ↦ ground arith
    | inr other ↦ absurd (
        away j lj (ground arith) (used j other rj)
          (sym (ap dev_of (out j other)) ∙ sym d ∙ ap dev_of (own i here))
          (sym (ap inum_of (out j other)) ∙ sym n ∙ ap inum_of (own i here)))
  ]
  | inr there ↦ elim (Bool-cases (k == j)) [
    | inl here ↦ absurd (
        away i li (ground arith) (used i there ri)
          (sym (ap dev_of (out i there)) ∙ d ∙ ap dev_of (own j here))
          (sym (ap inum_of (out i there)) ∙ n ∙ ap inum_of (own j here)))
    | inr other ↦
        u i j li lj (used i there ri) (used j other rj)
          (sym (ap dev_of (out i there)) ∙ d ∙ ap dev_of (out j other))
          (sym (ap inum_of (out i there)) ∙ n ∙ ap inum_of (out j other))
  ]
]
  where
    dev_of : Cached → ℕ
    dev_of q = q.dev

    inum_of : Cached → ℕ
    inum_of q = q.inum

    own : (x : ℕ) → (k == x) ≡ true → update c k p x ≡ p
    own x e = rw e refl

    out : (x : ℕ) → (k == x) ≡ false → update c k p x ≡ c x
    out x e = rw e refl

    used : (x : ℕ) → (k == x) ≡ false → 0 < (update c k p x).ref → 0 < (c x).ref
    used x e l = ground (arith, ap (λ q. q.ref) (out x e))

take_entry_lem :
    (dev inum : ℕ) (c : Icache) (h : Hunt)
    → IsUnique c
    → HuntResult c dev inum 0 ninode none h
    → IgetResult dev inum c (take_entry dev inum c h)
unfolding take_entry
take_entry_lem dev inum c (cached i) u w =
    let (used, d, n) = is_inode_lem c dev inum i w.2 in
    let own : (i == i) ≡ true = ground arith in
    let hit : is_inode c dev inum i ≡ true = w.2 in
    let p : Cached = record (c i) { ref = (c i).ref + 1 } in
    let at : update c i p i ≡ p = rw own refl in
    record {
      below = w.1;
      named = (ap (λ q. q.dev) at ∙ d, ap (λ q. q.inum) at ∙ n);
      counted = ap (λ q. q.ref) at;
      loaded = ap (λ q. q.valid) at ∙ rw hit refl;
      new = λ e. absurd (true_false hit e);
      others = λ j z. let away : (i == j) ≡ false = ground arith in rw away refl;
      unique = update-IsUnique c i p u (λ j l z r dd nn. z (u j i l w.1 r used dd nn));
    }
  where
    true_false : {b : Bool} → b ≡ true → b ≡ false → ⊥
    true_false p q = cc
take_entry_lem dev inum c (not_cached none) u w =
    λ k l. (w.1.1 k (omega arith) l, w.0 k (omega arith) l)
take_entry_lem dev inum c (not_cached (some e)) u w =
    let (below, zero_ref) = slot_found w.1 in
    let own : (e == e) ≡ true = ground arith in
    let miss : is_inode c dev inum e ≡ false = w.0 e (omega arith) below in
    let p : Cached = record (c e) { dev = dev; inum = inum; ref = 1; valid = false } in
    let at : update c e p e ≡ p = rw own refl in
    record {
      below = below;
      named = (ap (λ q. q.dev) at, ap (λ q. q.inum) at);
      counted = ap (λ q. q.ref) at ∙ omega arith;
      loaded = ap (λ q. q.valid) at ∙ rw miss refl;
      new = λ x. zero_ref;
      others = λ j z. let away : (e == j) ≡ false = ground arith in rw away refl;
      unique =
          update-IsUnique c e p u (λ j l z r d. not_inode c dev inum j (w.0 j (omega arith) l) r d);
    }
  where
    slot_found : EmptySlot c 0 ninode none (some e) → (e < ninode) × ((c e).ref ≡ 0)
    slot_found (inl x) = absurd (never x)
      where
        never : ◌≢◌ {A = Option ℕ} none (some e)
        never q = cc
    slot_found (inr x) = (x.1, x.2)

-- `iget`, in a table in which no two entries in use are the same inode, returns the entry of the
-- inode with one reference more: the one that it had, or else one that was not in use and that is not
-- valid now. No other entry changes, and the entries in use are still different inodes. It panics
-- exactly when the inode has no entry and all entries are in use.
pub iget_lem : (dev inum : ℕ) (c : Icache) → IsUnique c → IgetResult dev inum c (iget dev inum c)
unfolding iget
iget_lem dev inum c u =
    take_entry_lem dev inum c (hunt c dev inum 0 ninode none) u
      (hunt_lem c dev inum 0 ninode ninode none refl)
