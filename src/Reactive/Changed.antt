-- ===== src/Reactive/Changed.antt =====
-- What stays true of a store when a signal has a new value or a derivation another function, once all
-- that reads it is marked.
use mathlib.Core.Path.{subst}
use cositos.Base.{
  ℕ, zero, suc, ◌≡◌, refl, sym, ap, ◌∙◌, Bool, true, false, Bool-cases, some, inl, inr, nat_eq,
  nat_eq_iff,
}
use cositos.Reactive.{Code, Graph, give, raise, read, Node, signal, computed, effect, Store, is_in}
use cositos.Reactive.Evaluate.{eval_fn, eval, eval_node, and_if-some}
use cositos.Reactive.Sets.{apart}
use cositos.Reactive.Tracked.{IsReader, ReaderNode, IsLive, LiveNode, Tracks}
use cositos.Reactive.Fresh.{IsFresh}
use cositos.Reactive.Spread.{Spreads, IsMarked, MarkedNode}
use cositos.Reactive.Steady.{shown, IsSteady, LiveNode-value}

-- How a store and its objects may differ before invalidation: at one number, which is a signal with a
-- new value or a derivation that is dirty, perhaps with another function.
pub record Changes {V : Type 0} (g g' : Graph V) (state state' : ℕ → V) (s : Store V)
    (value : ℕ → V) (dirty : ℕ → Bool) (n : ℕ) : Type 0 where
  pub nodes : (m : ℕ) → nat_eq m n ≡ false → g'.node_of m ≡ g.node_of m
  pub states : (m : ℕ) → nat_eq m n ≡ false → state' m ≡ state m
  pub values : (m : ℕ) → nat_eq m n ≡ false → value m ≡ s.value m
  pub dirties : (m : ℕ) → nat_eq m n ≡ false → dirty m ≡ s.dirty m
  pub as_signal : g'.node_of n ≡ signal → value n ≡ state' n
  pub as_derived : (fn : Code V) → g'.node_of n ≡ computed fn → dirty n ≡ true
  pub as_effect : (fn : Code V) → g'.node_of n ≡ effect fn → ⊥
  pub as_reader : IsReader g n → IsReader g' n

module _ {V : Type 0} (g g' : Graph V) (state state' : ℕ → V) (s : Store V) (value : ℕ → V)
    (dirty : ℕ → Bool) (n : ℕ) (changes : Changes g g' state state' s value dirty n) where
  abbrev altered : Store V
  altered = record s { value = value; dirty = dirty }

  pub changed-IsReader : (r : ℕ) → IsReader g r → IsReader g' r
  changed-IsReader r reads = elim (Bool-cases (nat_eq r n)) [
    | inl same ↦
        let e = (nat_eq_iff r n).0 same in
        subst (IsReader g') (sym e) (changes.as_reader (subst (IsReader g) e reads))
    | inr other ↦ subst (ReaderNode g) (sym (changes.nodes r other)) reads
  ]

  -- `s1` is what invalidation makes of the changed store.
  module _ (s1 : Store V) (fresh : IsFresh g state s) (spreads : Spreads g' altered s1)
      (marked : (r : ℕ) → is_in r (s.subs n) ≡ true → IsMarked g' s1 r) where
    IsUnmarked : ℕ → Type 0
    IsUnmarked m = IsMarked g' s1 m → ⊥

    other : (m j : ℕ) → IsUnmarked m → is_in m (s.subs j) ≡ true → nat_eq j n ≡ false
    unfolding IsUnmarked
    other m j un there = apart (λ x. is_in m (s.subs x) ≡ true) j n there (λ h. un (marked m h))

    kept-LiveNode :
        (m j : ℕ) (node : Node V)
        → IsUnmarked m
        → is_in m (s.subs j) ≡ true
        → LiveNode g s j node
        → LiveNode g' s1 j node
    unfolding IsUnmarked
    kept-LiveNode m j signal un there live = tt
    kept-LiveNode m j (computed fn) un there live = (
      elim (Bool-cases (s1.dirty j)) [
        | inl dirtied ↦
            elim (un (
              spreads.reached j m (changes.dirties j (other m j un there) ∙ live.0) dirtied
                there)) [ ]
        | inr clean ↦ clean
      ],
      ap (is_in j) spreads.stack ∙ live.1,
    )
    kept-LiveNode m j (effect fn) un there live = live

    kept-IsLive :
        (m j : ℕ) → IsUnmarked m → is_in m (s.subs j) ≡ true → IsLive g s j → IsLive g' s1 j
    kept-IsLive m j un there live =
        subst (LiveNode g' s1 j) (sym (changes.nodes j (other m j un there)))
          (kept-LiveNode m j (g.node_of j) un there live)

    kept-Tracks :
        (m : ℕ) (fn : Code V) (w : V) → IsUnmarked m → Tracks g s m fn w → Tracks g' s1 m fn w
    kept-Tracks m (give x) w un tracks = tracks
    kept-Tracks m (raise x) w un tracks = tracks
    kept-Tracks m (read j k) w un (there, live, tracks) =
        let same = ap (λ f. f j) spreads.value ∙ changes.values j (other m j un there) in
        (
          ap (λ f. is_in m (f j)) spreads.subs ∙ there,
          kept-IsLive m j un there live,
          subst (λ u. Tracks g' s1 m (k u) w) (sym same)
              (kept-Tracks m (k (s.value j)) w un tracks),
        )

    -- Evaluation on a fuel gives the same for what is live before and after.
    Same : ℕ → Type 0
    Same fuel =
        (m : ℕ) (w : V)
        → eval g.node_of state fuel m ≡ some w
        → IsLive g s m
        → IsLive g' s1 m
        → nat_eq m n ≡ false
        → eval g'.node_of state' fuel m ≡ some w

    kept-eval_fn :
        (fuel m : ℕ) (fn : Code V) (w u : V)
        → Same fuel
        → IsUnmarked m
        → Tracks g s m fn w
        → eval_fn (eval g.node_of state fuel) fn ≡ some u
        → eval_fn (eval g'.node_of state' fuel) fn ≡ some u
    unfolding eval_fn Same
    kept-eval_fn fuel m (give x) w u same un tracks e = e
    kept-eval_fn fuel m (raise x) w u same un tracks e = e
    kept-eval_fn fuel m (read j k) w u same un (there, live, tracks) e =
        let (x, found, rest) =
          and_if-some (eval g.node_of state fuel j) (λ y. eval_fn (eval g.node_of state fuel) (k y))
            u e in
        let held = LiveNode-value g state s j fuel x (g.node_of j) fresh refl live found in
        rw (same j x found live (kept-IsLive m j un there live) (other m j un there)) (
          kept-eval_fn fuel m (k x) w u same un (subst (λ y. Tracks g s m (k y) w) held tracks)
            rest)

    clean-IsUnmarked :
        (m : ℕ) (fm : Code V) → g'.node_of m ≡ computed fm → s1.dirty m ≡ false → IsUnmarked m
    unfolding IsUnmarked
    clean-IsUnmarked m fm here clean h =
        let h' = subst (MarkedNode g' s1 m) here h in cc (h', clean)

    kept-node :
        (fuel m : ℕ) (w : V) (node : Node V)
        → Same fuel
        → g.node_of m ≡ node
        → eval_node g.node_of state (eval g.node_of state fuel) m node ≡ some w
        → LiveNode g s m node
        → LiveNode g' s1 m node
        → nat_eq m n ≡ false
        → eval_node g'.node_of state' (eval g'.node_of state' fuel) m node ≡ some w
    kept-node fuel m w signal same here e live live1 away = ap some (changes.states m away) ∙ e
    kept-node fuel m w (effect fn) same here e live live1 away = e
    kept-node fuel m w (computed fn) same here e live live1 away =
        let (tracks, fuel', held) = fresh.clean m fn here live.0 live.1 in
        kept-eval_fn fuel m fn (s.value m) w same
          (clean-IsUnmarked m fn (changes.nodes m away ∙ here) live1.0) tracks e

    kept-eval : (fuel : ℕ) → Same fuel
    unfolding eval Same
    kept-eval zero m w e live live1 away = cc e
    kept-eval (suc fuel) m w e live live1 away = rw (changes.nodes m away) (
        kept-node fuel m w (g.node_of m) (kept-eval fuel) refl e live
          (subst (LiveNode g' s1 m) (changes.nodes m away) live1) away)

    changed-IsFresh : IsFresh g' state' s1
    unfolding Same
    changed-IsFresh = record {
      signals = λ m em. ap (λ f. f m) spreads.value ∙ elim (Bool-cases (nat_eq m n)) [
        | inl same ↦
            let e = (nat_eq_iff m n).0 same in
            subst (λ x. value x ≡ state' x) (sym e) (changes.as_signal (sym (ap g'.node_of e) ∙ em))
        | inr old ↦
            changes.values m old
            ∙ fresh.signals m (sym (changes.nodes m old) ∙ em)
            ∙ sym (changes.states m old)
      ];
      clean = λ m fm em dm im.
          let away : nat_eq m n ≡ false =
            apart (λ x. (g'.node_of x ≡ computed fm) × (s1.dirty x ≡ false)) m n (em, dm)
              (λ h. cc (spreads.dirty n (changes.as_derived fm h.0), h.1)) in
          let em' = sym (changes.nodes m away) ∙ em in
          let dm' : s.dirty m ≡ false = elim (Bool-cases (dirty m)) [
            | inl before ↦ cc (spreads.dirty m before, dm)
            | inr clean ↦ sym (changes.dirties m away) ∙ clean
          ] in
          let im' = sym (ap (is_in m) spreads.stack) ∙ im in
          let (tracks, fuel, held) = fresh.clean m fm em' dm' im' in
          let same : s1.value m ≡ s.value m = ap (λ f. f m) spreads.value ∙ changes.values m away in
          (
            subst (Tracks g' s1 m fm) (sym same)
                (kept-Tracks m fm (s.value m) (clean-IsUnmarked m fm em dm) tracks),
            fuel,
            kept-eval fuel m (s.value m) held (subst (LiveNode g s m) (sym em') (dm', im'))
                  (subst (LiveNode g' s1 m) (sym em) (dm, im)) away
                ∙ ap some (sym same),
          );
      readers = λ m r h.
          changed-IsReader r (fresh.readers m r (sym (ap (λ f. is_in r (f m)) spreads.subs) ∙ h));
      running =
          λ r h. changed-IsReader r (fresh.running r (sym (ap (is_in r) spreads.current) ∙ h));
    }

    -- Once all that reads what has changed is marked, the store is steady again.
    pub changed-IsSteady : IsSteady g state s → IsSteady g' state' s1
    unfolding IsUnmarked
    changed-IsSteady steady = record {
      fresh = changed-IsFresh;
      shows = λ e fn w em shown1 idle.
          let away = apart (λ x. g'.node_of x ≡ effect fn) e n em (λ h. changes.as_effect fn h) in
          let idle' : is_in e s.pending ≡ false = elim (Bool-cases (is_in e s.pending)) [
            | inl there ↦ cc (spreads.pending e there, idle)
            | inr nothing ↦ nothing
          ] in
          let (tracks, fuel, held) =
            steady.shows e fn w (sym (changes.nodes e away) ∙ em)
              (sym (ap (shown e) spreads.written) ∙ shown1) idle' in
          let un : IsMarked g' s1 e → ⊥ =
            λ h. let h' = subst (MarkedNode g' s1 e) em h in cc (h', idle) in
          (
            kept-Tracks e fn w un tracks,
            fuel,
            kept-eval_fn fuel e fn w w (kept-eval fuel) un tracks held,
          );
    }
