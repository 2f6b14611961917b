-- ===== src/Fs/Content/Write.antt =====
-- The loop of `writei`: all stretches, or a panic because the disk is full.
use mathlib.Core.Path.{subst}
use slab_study.Common.{
  ℕ, zero, suc, ◌+◌, ◌-◌, ◌/◌, ◌%◌, ◌<◌, ◌≤◌, ◌≡◌, ◌≢◌, ◌⊎◌, inl, inr, refl, sym, ap, ◌∙◌, arith,
  true, Option, some, none, ltb, update, Bool-cases,
}
use slab_study.Fs.{Disk, Superblock, bsize}
use slab_study.Fs.Bitmap.Bits.{in_use}
use slab_study.Fs.Bitmap.Laws.{Layout, IsSound}
use slab_study.Fs.Bmap.{Inode, bmap}
use slab_study.Fs.Bmap.Slots.{nslots, slot, slot_of, IsMapped, true-ne-false}
use slab_study.Fs.Bmap.Laws.{BmapResult, NearlyFull, bmap_lem, free_before}
use slab_study.Fs.Content.{max_size, paste, stretch, write_loop, Ran, done, panicked, no_fuel}
use slab_study.Fs.Content.Read.{content}
use slab_study.Fs.Content.Step.{Wrote, stretch-Wrote}

module _ (sb : Superblock) (nmeta : ℕ) (lay : Layout sb nmeta) where
  -- A stretch, and then the bytes behind it.
  Wrote-trans :
      (off m n : ℕ) (src src' : ℕ → ℕ) (ip ip1 ip2 : Inode) (d d1 d2 : Disk)
      → off + (m + n) ≤ max_size
      → ((i : ℕ) → src' i ≡ src (m + i))
      → Wrote sb nmeta off m src ip d ip1 d1
      → Wrote sb nmeta (off + m) n src' ip1 d1 ip2 d2
      → Wrote sb nmeta off (m + n) src ip d ip2 d2
  Wrote-trans off m n src src' ip ip1 ip2 d d1 d2 fits shift g h = record {
    new = λ i l. elim (Bool-cases (ltb i m)) [
      | inl first ↦
          h.old (off + i) (omega (arith, l)) (g.filled i (ground arith)) (inl (ground arith))
          ∙ g.new i (ground arith)
      | inr second ↦
          let at : off + m + (i - m) ≡ off + i = ground arith in
          let it : m + (i - m) ≡ i = ground arith in
          ap (content ip2 d2) (sym at) ∙ h.new (i - m) (ground arith) ∙ shift (i - m) ∙ ap src it
    ];
    filled = λ i l. elim (Bool-cases (ltb i m)) [
      | inl first ↦
          let f = g.filled i (ground arith) in
          λ z. f (sym (h.fixed _ (in_range (off + i) (omega (arith, l))) f) ∙ z)
      | inr second ↦
          let at : off + m + (i - m) ≡ off + i = ground arith in
          subst (λ k. slot ip2.addrs d2 (slot_of (k / bsize)) ≢ 0) at
            (h.filled (i - m) (ground arith))
    ];
    old = λ k l z o.
        h.old k l (λ e. z (sym (g.fixed _ (in_range k l) z) ∙ e)) (behind k o)
        ∙ g.old k l z (before k o);
    fixed = λ j l z. h.fixed j l (λ e. z (sym (g.fixed j l z) ∙ e)) ∙ g.fixed j l z;
    owned = λ j l z. elim (h.owned j l z) [
      | inl same ↦ elim (g.owned j l (λ e. z (same ∙ e))) [
        | inl old ↦ inl (same ∙ old)
        | inr free ↦ inr (ap (in_use sb d) same ∙ free)
      ]
      | inr free ↦
          inr (
            free_before sb nmeta lay d d1 g.bits (slot ip2.addrs d2 j) (h.mapped.range j l z).1
              free)
    ];
    bits = λ c l u. h.bits c l (g.bits c l u);
    others = λ c b l u f.
        h.others c b l (g.bits c l u) (λ j m e. still_foreign c b u f j m e) ∙ g.others c b l u f;
    mapped = h.mapped;
    sound = h.sound;
    fields = h.fields ∙ ap {A = Inode} (λ x. record x { addrs = ip2.addrs }) g.fields;
  }
    where
      in_range : (k : ℕ) → k < max_size → slot_of (k / bsize) < nslots
      in_range k l = ground arith

      before : (k : ℕ) → (k < off) ⊎ (off + (m + n) ≤ k) → (k < off) ⊎ (off + m ≤ k)
      before k (inl l) = inl l
      before k (inr l) = inr (omega arith)

      behind : (k : ℕ) → (k < off) ⊎ (off + (m + n) ≤ k) → (k < off + m) ⊎ (off + m + n ≤ k)
      behind k (inl l) = inl (omega arith)
      behind k (inr l) = inr (omega arith)

      still_foreign :
          (c : ℕ)
          → nmeta ≤ c
          → in_use sb d c ≡ true
          → ((j : ℕ) → j < nslots → slot ip.addrs d j ≢ c)
          → (j : ℕ) → j < nslots
          → slot ip1.addrs d1 j ≢ c
      still_foreign c b u f j l e = elim (g.owned j l (λ z. ground (arith, z, e, lay.boot))) [
        | inl same ↦ f j l (sym same ∙ e)
        | inr free ↦ true-ne-false sb nmeta (sym u ∙ sym (ap (in_use sb d) e) ∙ free)
      ]

  Wrote-nothing :
      (off m : ℕ) (src : ℕ → ℕ) (ip : Inode) (d : Disk)
      → m ≡ 0
      → IsMapped sb nmeta (slot ip.addrs d) d
      → IsSound sb nmeta d
      → Wrote sb nmeta off m src ip d ip d
  Wrote-nothing off m src ip d e v s = record {
    new = λ i l. absurd (omega (arith, l, e));
    filled = λ i l. absurd (omega (arith, l, e));
    old = λ k l z o. refl;
    fixed = λ j l z. refl;
    owned = λ j l z. inl refl;
    bits = λ c l u. u;
    others = λ c b l u f. refl;
    mapped = v;
    sound = s;
    fields = refl;
  }

  -- How the loop may end.
  abbrev pub RanResult : ℕ → ℕ → (ℕ → ℕ) → Inode → Disk → Ran → Type 0
  RanResult off n src ip d (done ip' d') = Wrote sb nmeta off n src ip d ip' d'
  RanResult off n src ip d (panicked ip' d') = NearlyFull sb nmeta lay d'
  RanResult off n src ip d no_fuel = ⊥

  -- The passes behind a stretch.
  join :
      (off m n tot : ℕ) (src : ℕ → ℕ) (ip ip1 : Inode) (d d1 : Disk) (r : Ran)
      → tot + m ≤ n
      → off + (n - tot) ≤ max_size
      → Wrote sb nmeta off m (λ i. src (tot + i)) ip d ip1 d1
      → RanResult (off + m) (n - (tot + m)) (λ i. src (tot + m + i)) ip1 d1 r
      → RanResult off (n - tot) (λ i. src (tot + i)) ip d r
  join off m n tot src ip ip1 d d1 (done ip2 d2) l fits g h =
      let total : m + (n - (tot + m)) ≡ n - tot = omega arith in
      subst (λ x. Wrote sb nmeta off x (λ i. src (tot + i)) ip d ip2 d2) total
        (Wrote-trans off m (n - (tot + m)) (λ i. src (tot + i)) (λ i. src (tot + m + i)) ip ip1 ip2
          d d1 d2 (omega arith) (λ i. ap src (omega arith)) g h)
  join off m n tot src ip ip1 d d1 (panicked ip2 d2) l fits g h = h
  join off m n tot src ip ip1 d d1 no_fuel l fits g h = h

  -- A pass that writes, where the rest of the loop is understood.
  pass :
      (fuel n tot off : ℕ) (src : ℕ → ℕ) (ip : Inode) (d : Disk)
      → tot < n
      → off + (n - tot) ≤ max_size
      → ((i : ℕ) → i < n → src i < 256)
      → IsMapped sb nmeta (slot ip.addrs d) d
      → ((m : ℕ) (ip1 : Inode) (d1 : Disk)
          → 0 < m
          → tot + m ≤ n
          → IsMapped sb nmeta (slot ip1.addrs d1) d1
          → IsSound sb nmeta d1
          → RanResult
              (off + m)
              (n - (tot + m))
              (λ i. src (tot + m + i))
              ip1
              d1
              (write_loop sb fuel n (tot + m) (off + m) src ip1 d1))
      → (r : Option (ℕ × Inode × Disk)) → BmapResult sb nmeta lay (slot_of (off / bsize)) ip d r
      → RanResult off
          (n - tot)
          (λ i. src (tot + i))
          ip
          d
          (elim r [
            | some (a, ip', d') ↦
                let m = stretch n tot off in
                write_loop sb fuel n
                  (tot + m)
                  (off + m)
                  src
                  ip'
                  (update d' a (paste (off % bsize) m (λ x. src (tot + x)) (d' a)))
            | none ↦ panicked ip d
          ])
  pass fuel n tot off src ip d lt l small v rest none full = full
  pass fuel n tot off src ip d lt l small v rest (some (a, ip1, d1)) g =
      let m = stretch n tot off in
      let w =
        stretch-Wrote sb nmeta lay off m (λ x. src (tot + x)) ip d a ip1 d1 g v (omega (arith, lt))
          (omega (arith, lt)) (omega (arith, lt)) (λ i q. small (tot + i) (omega (arith, lt, q))) in
      join off m n tot src ip ip1 d _ _ (omega (arith, lt)) l w
        (rest m ip1 _ (omega (arith, lt)) (omega (arith, lt)) w.mapped w.sound)

  pub write_loop_lem :
      (fuel n tot off : ℕ) (src : ℕ → ℕ) (ip : Inode) (d : Disk)
      → tot ≤ n
      → n < tot + fuel
      → off + (n - tot) ≤ max_size
      → ((i : ℕ) → i < n → src i < 256)
      → IsMapped sb nmeta (slot ip.addrs d) d
      → IsSound sb nmeta d
      → RanResult off (n - tot) (λ i. src (tot + i)) ip d (write_loop sb fuel n tot off src ip d)
  unfolding write_loop
  write_loop_lem zero n tot off src ip d t f l small v s = absurd (omega arith)
  write_loop_lem (suc fuel) n tot off src ip d t f l small v s = elim (Bool-cases (ltb tot n)) [
    | inr through ↦ rw (through, write_loop) (Wrote-nothing off (n - tot) _ ip d (ground arith) v s)
    | inl more ↦
        let lt : tot < n = ground arith in
        rw (more, write_loop)
          (pass fuel n tot off src ip d lt l small v
            (λ m ip1 d1 p q w z.
              write_loop_lem fuel n (tot + m) (off + m) src ip1 d1 q (omega (arith, p))
                (omega (arith, q)) small w z)
            (bmap sb (off / bsize) ip d)
            (bmap_lem sb nmeta lay (off / bsize) ip d (omega (arith, lt)) v s))
  ]
