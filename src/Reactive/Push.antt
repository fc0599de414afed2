-- ===== src/Reactive/Push.antt =====
-- Invalidation reaches all that has subscribed, directly or through derivations, and ends.
use mathlib.Core.Path.{subst}
use cositos.Base.{
  ℕ, zero, suc, ◌≤◌, ◌<◌, ◌≡◌, refl, sym, ap, ◌∙◌, Bool, true, false, Bool-cases, inl, inr, List,
  [], ◌∷◌, ◌++◌, nat_eq, nat_eq_iff, if◌then◌else◌, arith,
}
use cositos.Errors.{ok}
use cositos.Reactive.{
  Code, Graph, Node, signal, computed, effect, Store, is_in, set_at, each, invalidate_node,
  invalidate,
}
use cositos.Reactive.Sets.{is_in-append, IsOnce-append_one}
use cositos.Reactive.Tracked.{IsReader, ReaderNode}
use cositos.Reactive.Spread.{
  MarkedNode, IsMarked, EffectNode, Spreads, MarkedNode-kept, Spreads-refl, Spreads-trans,
}

-- How many derivations under a bound are clean.
abbrev pub cleans : ℕ → (ℕ → Bool) → ℕ
cleans zero dirty = 0
cleans (suc n) dirty = if dirty n then cleans n dirty else suc (cleans n dirty)

pub cleans-le :
    (bound : ℕ) (d d' : ℕ → Bool)
    → ((m : ℕ) → d m ≡ true → d' m ≡ true)
    → cleans bound d' ≤ cleans bound d
cleans-le zero d d' h = omega arith
cleans-le (suc n) d d' h = ground (arith, cleans-le n d d' h, h n)

pub cleans-le-bound : (bound : ℕ) (d : ℕ → Bool) → cleans bound d ≤ bound
cleans-le-bound zero d = omega arith
cleans-le-bound (suc n) d = ground (arith, cleans-le-bound n d)

cleans-set_at :
    (bound n : ℕ) (d : ℕ → Bool)
    → n < bound
    → d n ≡ false
    → suc (cleans bound (set_at n true d)) ≤ cleans bound d
cleans-set_at zero n d h e = elim h [ ]
cleans-set_at (suc k) n d h e = elim (Bool-cases (nat_eq k n)) [
  | inl same ↦
      let at_k = ap d ((nat_eq_iff k n).0 same) ∙ e in
      let less = cleans-le k d (set_at n true d) (λ m t. ground (arith, t)) in
      rw (same, at_k) (omega (arith, less))
  | inr other ↦
      let less = cleans-set_at k n d (ground (arith, h, other)) e in rw other (ground (arith, less))
]

module _ {V : Type 0} (g : Graph V) where
  -- The numbers of the derivations have a bound, and going through a set reaches just its elements.
  pub record IsFinite (bound : ℕ) : Type 0 where
    pub bounded : (m : ℕ) (fn : Code V) → g.node_of m ≡ computed fn → m < bound
    pub shuffles : (r : ℕ) (xs : List ℕ) → is_in r (g.order xs) ≡ is_in r xs

  abbrev pub AreReaders : List ℕ → Type 0
  AreReaders ns = (r : ℕ) → is_in r ns ≡ true → IsReader g r

  abbrev pub OnlyReaders : Store V → Type 0
  OnlyReaders s = (m : ℕ) → AreReaders (s.subs m)

  -- An invalidation on some fuel, of any reader, with fewer clean derivations than the fuel.
  abbrev Marks : ℕ → ℕ → Type 0
  Marks bound fuel =
      (n : ℕ) (s : Store V)
      → IsReader g n
      → OnlyReaders s
      → cleans bound s.dirty < fuel
      → (s' : Store V) × (invalidate g fuel n s ≡ (ok tt, s')) × Spreads g s s' × IsMarked g s' n

  each-Marks :
      (bound fuel : ℕ)
      → Marks bound fuel
      → (ns : List ℕ) (s : Store V) → AreReaders ns
      → OnlyReaders s
      → cleans bound s.dirty < fuel
      → (s' : Store V) × (each g (invalidate g fuel) ns s ≡ (ok tt, s'))
        × Spreads g s s'
        × ((r : ℕ) → is_in r ns ≡ true → IsMarked g s' r)
  unfolding each
  each-Marks bound fuel marks [] s readers only few = (s, refl, Spreads-refl g s, λ r h. cc h)
  each-Marks bound fuel marks (n ∷ ns) s readers only few =
      let (s1, done, spreads1, marked1) = marks n s (readers n (ground arith)) only few in
      let only1 : OnlyReaders s1 =
        λ m r h. only m r (sym (ap (λ f. is_in r (f m)) spreads1.subs) ∙ h) in
      let fewer = cleans-le bound s.dirty s1.dirty spreads1.dirty in
      let (s2, rest, spreads2, marked2) =
        each-Marks bound fuel marks ns s1 (λ r h. readers r (ground (arith, h))) only1
          (omega (arith, fewer)) in
      (
        s2,
        rw done rest,
        Spreads-trans g s s1 s2 spreads1 spreads2,
        λ r h. elim (Bool-cases (nat_eq r n)) [
          | inl same ↦
              MarkedNode-kept g s1 s2 r (g.node_of r) spreads2
                (subst (IsMarked g s1) (sym ((nat_eq_iff r n).0 same)) marked1)
          | inr other ↦ marked2 r (ground (arith, h, other))
        ],
      )

  -- A clean derivation becomes dirty, and then its subscribers are marked.
  dirtied-Spreads :
      (n : ℕ) (s s' : Store V)
      → Spreads g (record s { dirty = set_at n true s.dirty }) s'
      → ((r : ℕ) → is_in r (s.subs n) ≡ true → IsMarked g s' r)
      → Spreads g s s'
  dirtied-Spreads n s s' k marked = record {
    stack = k.stack;
    current = k.current;
    value = k.value;
    subs = k.subs;
    written = k.written;
    dirty = λ m h. k.dirty m (ground (arith, h));
    pending = k.pending;
    once = k.once;
    effects = k.effects;
    reached = λ m r clean dirty i. elim (Bool-cases (nat_eq m n)) [
      | inl same ↦ marked r (subst (λ x. is_in r (s.subs x) ≡ true) ((nat_eq_iff m n).0 same) i)
      | inr other ↦ k.reached m r (rw other clean) dirty i
    ];
  }

  -- An effect is put behind those that are pending, if it is not yet there.
  queued : ℕ → Store V → Store V
  queued n s = if is_in n s.pending then s else record s { pending = s.pending ++ (n ∷ []) }

  queued-Spreads :
      (n : ℕ) (s : Store V)
      → EffectNode g (g.node_of n)
      → Spreads g s (queued n s) × (is_in n (queued n s).pending ≡ true)
  unfolding queued
  queued-Spreads n s here = elim (Bool-cases (is_in n s.pending)) [
    | inl old ↦ rw old (Spreads-refl g s, old)
    | inr new ↦ rw new (
      record {
        stack = refl;
        current = refl;
        value = refl;
        subs = refl;
        written = refl;
        dirty = λ m h. h;
        pending = λ r h. is_in-append r s.pending (n ∷ []) ∙ ground (arith, h);
        once = λ o. IsOnce-append_one n s.pending o new;
        effects = λ r h. elim (Bool-cases (is_in r s.pending)) [
          | inl before ↦ inl before
          | inr after ↦
              let h' = sym (is_in-append r s.pending (n ∷ [])) ∙ h in
              let same : nat_eq r n ≡ true = ground (arith, h', after) in
              inr (subst (λ x. EffectNode g (g.node_of x)) (sym ((nat_eq_iff r n).0 same)) here)
        ];
        reached = λ m r h h' i. cc (h, h');
      },
      is_in-append n s.pending (n ∷ []) ∙ ground arith,
    )
  ]

  module _ (bound : ℕ) (finite : IsFinite bound) where
    node-Marks :
        (fuel n : ℕ) (s : Store V) (node : Node V)
        → Marks bound fuel
        → g.node_of n ≡ node
        → ReaderNode g node
        → OnlyReaders s
        → cleans bound s.dirty < suc fuel
        → (s' : Store V) × (invalidate_node g (invalidate g fuel) n node s ≡ (ok tt, s'))
          × Spreads g s s'
          × MarkedNode g s' n node
    unfolding queued
    node-Marks fuel n s signal marks e reader only few = elim reader [ ]
    node-Marks fuel n s (effect fn) marks e reader only few =
        let (spreads, there) = queued-Spreads n s (subst (EffectNode g) (sym e) tt) in
        (queued n s, refl, spreads, there)
    node-Marks fuel n s (computed fn) marks e reader only few = elim (Bool-cases (s.dirty n)) [
      | inl dirty ↦ (s, rw dirty refl, Spreads-refl g s, dirty)
      | inr clean ↦
          let s1 = record s { dirty = set_at n true s.dirty } in
          let fewer = cleans-set_at bound n s.dirty (finite.bounded n fn e) clean in
          let (s2, done, spreads, marked) =
            each-Marks bound fuel marks (g.order (s.subs n)) s1
              (λ r h. only n r (sym (finite.shuffles r (s.subs n)) ∙ h)) only
              (omega (arith, fewer)) in
          (
            s2,
            rw clean done,
            dirtied-Spreads n s s2 spreads (λ r h. marked r (finite.shuffles r (s.subs n) ∙ h)),
            spreads.dirty n (ground arith),
          )
    ]

    invalidate-Marks : (fuel : ℕ) → Marks bound fuel
    unfolding invalidate
    invalidate-Marks zero n s reader only few = elim few [ ]
    invalidate-Marks (suc fuel) n s reader only few =
        node-Marks fuel n s (g.node_of n) (invalidate-Marks fuel) refl reader only few

    -- The subscribers of an object are all marked, on more fuel than there are clean derivations.
    pub subscribers-IsMarked :
        (fuel n : ℕ) (s : Store V)
        → OnlyReaders s
        → cleans bound s.dirty < fuel
        → (s' : Store V) × (each g (invalidate g fuel) (g.order (s.subs n)) s ≡ (ok tt, s'))
          × Spreads g s s'
          × ((r : ℕ) → is_in r (s.subs n) ≡ true → IsMarked g s' r)
    subscribers-IsMarked fuel n s only few =
        let (s', done, spreads, marked) =
          each-Marks bound fuel (invalidate-Marks fuel) (g.order (s.subs n)) s
            (λ r h. only n r (sym (finite.shuffles r (s.subs n)) ∙ h)) only few in
        (s', done, spreads, λ r h. marked r (finite.shuffles r (s.subs n) ∙ h))
