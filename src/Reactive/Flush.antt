-- ===== src/Reactive/Flush.antt =====
-- Running an effect, and the loop that runs all that are pending.
use mathlib.Core.Path.{subst}
use cositos.Base.{
  ℕ, suc, ◌≤◌, ◌≡◌, refl, sym, ap, ◌∙◌, true, false, Bool-cases, some, first, inl, inr, List, [],
  ◌∷◌, ◌++◌, nat_eq, nat_eq_iff, if◌then◌else◌, arith,
}
use cositos.Errors.{ok}
use cositos.Reactive.{Code, Graph, computed, effect, Store, is_in, pop, entered, run_effect}
use cositos.Reactive.Evaluate.{eval_fn, eval}
use cositos.Reactive.Sets.{apart, is_in-unsubscribe, pop-is_in}
use cositos.Reactive.Tracked.{
  IsReader, ReaderNode, LiveNode-kept, SettledNode, Tracks, Tracks-moved, Keeps, Keeps-Tracks,
}
use cositos.Reactive.Fresh.{IsFresh}
use cositos.Reactive.Steps.{entered-IsFresh}
use cositos.Reactive.Pull.{run_fn-Gives, get-Gives}
use cositos.Reactive.Steady.{shown, IsSteady}

pub shown-append {ℓ} :
    {V : Type ℓ} (e : ℕ) (xs ys : List (ℕ × V))
    → shown e (xs ++ ys) ≡ first (shown e ys) (shown e xs)
shown-append e [] ys = ground arith
shown-append e ((m, w) ∷ xs) ys = ground (arith, shown-append e xs ys)

pub shown-append_one {ℓ} :
    {V : Type ℓ} (e n : ℕ) (v : V) (ws : List (ℕ × V))
    → shown e (ws ++ ((n, v) ∷ [])) ≡ (if nat_eq e n then some v else shown e ws)
shown-append_one e n v [] = ground arith
shown-append_one e n v ((m, w) ∷ ws) = ground (arith, shown-append_one e n v ws)

module _ {V : Type 0} (g : Graph V) where
  -- A store that differs in what no derivation depends on.
  abbrev beside : List ℕ → List ℕ → ℕ → List (ℕ × V) → Store V → Store V
  beside cs ps c ws s = record s { current = cs; pending = ps; counter = c; written = ws }

  beside-Tracks :
      (cs ps : List ℕ) (c : ℕ) (ws : List (ℕ × V)) (s : Store V) (m : ℕ) (fn : Code V) (v : V)
      → Tracks g s m fn v
      → Tracks g (beside cs ps c ws s) m fn v
  beside-Tracks cs ps c ws s m fn v tracks =
      let s' = beside cs ps c ws s in
      Tracks-moved g s s' m
        (λ j there live. (there, LiveNode-kept g s s' j (g.node_of j) (λ d. d) (λ i. i) live, refl))
        fn v tracks

  beside-IsFresh :
      (state : ℕ → V) (cs ps : List ℕ) (c : ℕ) (ws : List (ℕ × V)) (s : Store V)
      → ((r : ℕ) → is_in r cs ≡ true → IsReader g r)
      → IsFresh g state s
      → IsFresh g state (beside cs ps c ws s)
  beside-IsFresh state cs ps c ws s running fresh = record {
    signals = fresh.signals;
    clean = λ m fm em dm im.
        let (tracks, fuel, held) = fresh.clean m fm em dm im in
        (beside-Tracks cs ps c ws s m fm (s.value m) tracks, fuel, held);
    readers = fresh.readers;
    running = running;
  }

  module _ (state : ℕ → V) (fuel depth : ℕ) (deep : fuel ≤ depth) where
    -- What is known of an effect that has written.
    abbrev pub Shows : Store V → ℕ → Code V → V → Type 0
    Shows s e fn v = Tracks g s e fn v × (f : ℕ) × (eval_fn (eval g.node_of state f) fn ≡ some v)

    abbrev pub OthersShow : ℕ → List ℕ → Store V → Type 0
    OthersShow n ps s =
        (e : ℕ) (fn : Code V) (v : V)
        → g.node_of e ≡ effect fn
        → shown e s.written ≡ some v
        → nat_eq e n ≡ false
        → is_in e ps ≡ false
        → Shows s e fn v

    abbrev entering : ℕ → List ℕ → Store V → Store V
    entering n ps s = entered g n (beside s.current ps (suc s.counter) s.written s)

    abbrev leaving : ℕ → V → Store V → Store V
    leaving n v s = beside (pop s.current) s.pending s.counter (s.written ++ ((n, v) ∷ [])) s

    entering-Tracks :
        (n : ℕ) (ps : List ℕ) (s : Store V) (e : ℕ) (fn : Code V) (v : V)
        → nat_eq e n ≡ false
        → Tracks g s e fn v
        → Tracks g (entering n ps s) e fn v
    entering-Tracks n ps s e fn v other tracks =
        Tracks-moved g s (entering n ps s) e
          (λ j there live. (
            is_in-unsubscribe g e n j (s.sources n) s.subs other there,
            LiveNode-kept g s (entering n ps s) j (g.node_of j) (λ d. d) (λ i. i) live,
            refl,
          ))
          fn v tracks

    Shows-self :
        (n e : ℕ) (fn fn' : Code V) (v v' : V) (s : Store V)
        → e ≡ n
        → g.node_of n ≡ effect fn
        → g.node_of e ≡ effect fn'
        → v ≡ v'
        → Shows s n fn v
        → Shows s e fn' v'
    Shows-self n e fn fn' v v' s p here em q h =
        let same : fn ≡ fn' = cc (here, em, p) in
        subst (λ x. Shows s x fn' v') (sym p)
          (subst (λ f. Shows s n f v') same (subst (λ w. Shows s n fn w) q h))

    -- After the effect has run, all that is not pending is up to date.
    left-Shows :
        (n : ℕ) (fn : Code V) (v : V) (ps : List ℕ) (s s' : Store V)
        → g.node_of n ≡ effect fn
        → eval_fn (eval g.node_of state fuel) fn ≡ some v
        → Keeps g (entering n ps s) s'
        → Tracks g s' n fn v
        → OthersShow n ps s
        → (e : ℕ) (fn' : Code V) (v' : V) → g.node_of e ≡ effect fn'
        → shown e (leaving n v s').written ≡ some v'
        → is_in e s'.pending ≡ false
        → Shows (leaving n v s') e fn' v'
    left-Shows n fn v ps s s' here held keeps tracks others e fn' v' em there quiet =
        let moved : (m : ℕ) (fm : Code V) (w : V)
            → Tracks g s' m fm w
            → Tracks g (leaving n v s') m fm w =
          beside-Tracks (pop s'.current) s'.pending s'.counter (s'.written ++ ((n, v) ∷ [])) s' in
        let now = sym (shown-append_one e n v s'.written) ∙ there in
        elim (Bool-cases (nat_eq e n)) [
          | inl same ↦
              let now' = rw same at now in
              Shows-self n e fn fn' v v' (leaving n v s') ((nat_eq_iff e n).0 same) here em
                (cc now') (moved n fn v tracks, fuel, held)
          | inr other ↦
              let now' = rw other at now in
              let (before, fuel', held') =
                others e fn' v' em (sym (ap (shown e) keeps.written) ∙ now') other
                  (sym (ap (is_in e) keeps.pending) ∙ quiet) in
              (
                moved e fn' v' (
                    Keeps-Tracks g (entering n ps s) s' keeps e
                      (subst (SettledNode g (entering n ps s) e) (sym em) tt) fn' v'
                      (entering-Tracks n ps s e fn' v' other before)),
                fuel',
                held',
              )
        ]

    -- An effect runs in a fresh store, where the other effects that are not pending are up to date.
    pub run_effect-IsSteady :
        (n : ℕ) (fn : Code V) (v : V) (ps : List ℕ) (s : Store V)
        → g.node_of n ≡ effect fn
        → eval_fn (eval g.node_of state fuel) fn ≡ some v
        → IsFresh g state s
        → s.recompute_stack ≡ []
        → OthersShow n ps s
        → (s' : Store V) × (run_effect g depth n fn (record s { pending = ps }) ≡ (ok tt, s'))
          × IsSteady g state s'
          × (s'.recompute_stack ≡ [])
          × (s'.pending ≡ ps)
          × (s'.written ≡ s.written ++ ((n, v) ∷ []))
    run_effect-IsSteady n fn v ps s here e fresh idle others =
        let b = beside s.current ps (suc s.counter) s.written s in
        let s1 = entering n ps s in
        let fresh1 : IsFresh g state s1 =
          entered-IsFresh g state n b (subst (ReaderNode g) (sym here) tt)
            (λ m fm em dm. apart (λ x. g.node_of x ≡ computed fm) m n em (λ h. cc (h, here)))
            (beside-IsFresh state s.current ps (suc s.counter) s.written s fresh.running fresh) in
        let (s2, ran, fresh2, keeps, tracks) =
          run_fn-Gives g state fuel depth n s.current (get-Gives g state fuel depth deep) fn v s1 e
            fresh1 (λ m im. let im' = sym (ap (is_in m) idle) ∙ im in cc im') refl
            (subst (SettledNode g s1 n) (sym here) tt) in
        (
          leaving n v s2,
          rw ran refl,
          record {
            fresh =
                beside-IsFresh state (pop s2.current) s2.pending s2.counter
                  (s2.written ++ ((n, v) ∷ [])) s2
                  (λ r h. fresh2.running r (pop-is_in r s2.current h)) fresh2;
            shows = left-Shows n fn v ps s s2 here e keeps tracks others;
          },
          keeps.stack ∙ idle,
          keeps.pending,
          ap (λ w. w ++ ((n, v) ∷ [])) keeps.written,
        )
