-- ===== src/Reactive/Steps.antt =====
-- The steps of computing a derivation or running an effect, and what they keep.
use mathlib.Core.Path.{subst}
use cositos.Base.{
  ℕ, ◌≡◌, refl, sym, ap, ◌∙◌, true, false, Bool-cases, some, inl, inr, List, ◌∷◌, nat_eq,
  nat_eq_iff, arith,
}
use cositos.Reactive.{Code, Graph, signal, computed, Store, is_in, set_at, pop, entered, left}
use cositos.Reactive.Evaluate.{eval}
use cositos.Reactive.Sets.{apart, pop-is_in, is_in-unsubscribe, unsubscribe-is_in}
use cositos.Reactive.Tracked.{
  IsLive, LiveNode-kept, SettledNode-kept, IsReader, ReaderNode, Tracks, Tracks-moved, Keeps,
  dirty-IsLive, dirty-IsSettled, running-IsLive,
}
use cositos.Reactive.Fresh.{IsFresh}

module _ {V : Type 0} (g : Graph V) (state : ℕ → V) where
  -- An object that is no clean derivation starts to run.
  pub entered-IsFresh :
      (n : ℕ) (s : Store V)
      → IsReader g n
      → ((m : ℕ) (fm : Code V) → g.node_of m ≡ computed fm → s.dirty m ≡ false → nat_eq m n ≡ false)
      → IsFresh g state s
      → IsFresh g state (entered g n s)
  entered-IsFresh n s reader other fresh = record {
    signals = fresh.signals;
    clean = λ m fm em dm im.
        let (tracks, fuel, found) = fresh.clean m fm em dm im in
        (
          Tracks-moved g s (entered g n s) m
              (λ j there live. (
                is_in-unsubscribe g m n j (s.sources n) s.subs (other m fm em dm) there,
                LiveNode-kept g s (entered g n s) j (g.node_of j) (λ d. d) (λ i. i) live,
                refl,
              ))
              fm (s.value m) tracks,
          fuel,
          found,
        );
    readers = λ m r h. fresh.readers m r (unsubscribe-is_in g r n m (s.sources n) s.subs h);
    running = λ r h. elim (Bool-cases (nat_eq r n)) [
      | inl same ↦ subst (IsReader g) (sym ((nat_eq_iff r n).0 same)) reader
      | inr old ↦ fresh.running r (ground (arith, h, old))
    ];
  }

  -- A dirty derivation is marked clean and put on the stack.
  abbrev marked : ℕ → Store V → Store V
  marked n s = record s { dirty = set_at n false s.dirty; recompute_stack = n ∷ s.recompute_stack }

  marked-IsLive :
      (n : ℕ) (fn : Code V) (s : Store V)
      → g.node_of n ≡ computed fn
      → s.dirty n ≡ true
      → (j : ℕ) → IsLive g s j
      → IsLive g (marked n s) j
  marked-IsLive n fn s e d j live =
      let other = dirty-IsLive g s j n fn e d live in
      LiveNode-kept g s (marked n s) j (g.node_of j) (λ c. rw other c) (λ i. rw other i) live

  marked-IsFresh :
      (n : ℕ) (fn : Code V) (s : Store V)
      → g.node_of n ≡ computed fn
      → s.dirty n ≡ true
      → IsFresh g state s
      → IsFresh g state (marked n s)
  marked-IsFresh n fn s e d fresh = record {
    signals = fresh.signals;
    clean = λ m fm em dm im.
        let (tracks, fuel, found) =
          fresh.clean m fm em (ground (arith, dm, im)) (ground (arith, im)) in
        (
          Tracks-moved g s (marked n s) m
              (λ j there live. (there, marked-IsLive n fn s e d j live, refl)) fm (s.value m)
              tracks,
          fuel,
          found,
        );
    readers = fresh.readers;
    running = fresh.running;
  }

  abbrev pub started : ℕ → Store V → Store V
  started n s = marked n (entered g n s)

  pub started-IsFresh :
      (n : ℕ) (fn : Code V) (s : Store V)
      → g.node_of n ≡ computed fn
      → s.dirty n ≡ true
      → IsFresh g state s
      → IsFresh g state (started n s)
  started-IsFresh n fn s e d fresh = marked-IsFresh n fn (entered g n s) e d (
      entered-IsFresh n s (subst (ReaderNode g) (sym e) tt)
        (λ m fm em dm. apart (λ x. s.dirty x ≡ false) m n dm (λ h. cc (d, h))) fresh)

  -- A derivation has its new value, and leaves the stack.
  abbrev pub ended : ℕ → V → Store V → Store V
  ended n v s =
      left g (record s { recompute_stack = pop s.recompute_stack; value = set_at n v s.value })

  abbrev Ending : ℕ → Code V → List ℕ → Store V → Type 0
  Ending n fn stack s = (g.node_of n ≡ computed fn) × (s.recompute_stack ≡ n ∷ stack)

  ended-IsLive :
      (n : ℕ) (fn : Code V) (v : V) (stack : List ℕ) (s : Store V)
      → Ending n fn stack s
      → (j : ℕ) → IsLive g s j
      → IsLive g (ended n v s) j × ((ended n v s).value j ≡ s.value j)
  ended-IsLive n fn v stack s (e, st) j live =
      let other = running-IsLive g s j n fn e (ap (is_in n) st ∙ ground arith) live in
      (
        LiveNode-kept g s (ended n v s) j (g.node_of j) (λ d. d)
            (λ i.
              let i' = sym (ap (is_in j) st) ∙ i in
              ap (λ t. is_in j (pop t)) st ∙ ground (arith, i'))
            live,
        rw other refl,
      )

  -- What a fresh store tells of a clean derivation.
  abbrev Holds : Store V → ℕ → Code V → V → Type 0
  Holds s m fm w = Tracks g s m fm w × (f : ℕ) × (eval g.node_of state f m ≡ some w)

  ended-Holds :
      (n : ℕ) (fn : Code V) (v : V) (stack : List ℕ) (s : Store V)
      → Ending n fn stack s
      → (m : ℕ) (fm : Code V) (w : V) → Holds s m fm w
      → Holds (ended n v s) m fm w
  ended-Holds n fn v stack s ending m fm w (tracks, fuel, held) = (
    Tracks-moved g s (ended n v s) m
        (λ j there live.
          let (live', same) = ended-IsLive n fn v stack s ending j live in (there, live', same))
        fm w tracks,
    fuel,
    held,
  )

  Holds-moved :
      (s : Store V) (m n : ℕ) (fm fn : Code V) (v : V)
      → m ≡ n
      → g.node_of m ≡ computed fm
      → g.node_of n ≡ computed fn
      → Holds s n fn v
      → Holds s m fm v
  Holds-moved s m n fm fn v p em en h =
      let same : fn ≡ fm = cc (em, en, p) in
      subst (λ x. Holds s x fm v) (sym p) (subst (λ f. Holds s n f v) same h)

  pub ended-IsFresh :
      (n : ℕ) (fn : Code V) (fuel : ℕ) (v : V) (stack : List ℕ) (s : Store V)
      → Ending n fn stack s
      → eval g.node_of state fuel n ≡ some v
      → Tracks g s n fn v
      → IsFresh g state s
      → IsFresh g state (ended n v s)
  ended-IsFresh n fn fuel v stack s (derived, st) e tracks fresh = record {
    signals = λ m em.
        rw (apart (λ x. g.node_of x ≡ signal) m n em (λ h. cc (h, derived))) (fresh.signals m em);
    clean = λ m fm em dm im. elim (Bool-cases (nat_eq m n)) [
      | inl same ↦ rw same (
          Holds-moved (ended n v s) m n fm fn v ((nat_eq_iff m n).0 same) em derived
            (ended-Holds n fn v stack s (derived, st) n fn v (tracks, fuel, e)))
      | inr other ↦ rw other (
          ended-Holds n fn v stack s (derived, st) m fm (s.value m)
            (fresh.clean m fm em dm
              (ap (is_in m) st ∙ rw other (sym (ap (λ t. is_in m (pop t)) st) ∙ im))))
    ];
    readers = fresh.readers;
    running = λ r h. fresh.running r (pop-is_in r s.current h);
  }

  -- What is computed anew in between leaves the rest as it was.
  pub recomputed-Keeps :
      (n : ℕ) (fn : Code V) (v : V) (s s' : Store V)
      → g.node_of n ≡ computed fn
      → s.dirty n ≡ true
      → Keeps g (started n s) s'
      → Keeps g s (ended n v s')
  recomputed-Keeps n fn v s s' e d k = record {
    stack = ap pop k.stack;
    current = ap pop k.current;
    pending = k.pending;
    written = k.written;
    dirty = λ m h. k.dirty m (ground (arith, h));
    value = λ m live. rw (dirty-IsLive g s m n fn e d live) (
        k.value m (
          marked-IsLive n fn (entered g n s) e d m
            (LiveNode-kept g s (entered g n s) m (g.node_of m) (λ c. c) (λ i. i) live)));
    subs = λ r m settled h.
        k.subs r m
          (SettledNode-kept g s (started n s) r (g.node_of r) (λ c. ground (arith, c)) settled)
          (is_in-unsubscribe g r n m (s.sources n) s.subs (dirty-IsSettled g s r n fn e d settled)
            h);
  }
