-- ===== src/Reactive/Settle.antt =====
-- The loop that runs the pending effects, once each, over fresh values.
use cositos.Base.{
  ℕ, ◌≤◌, ◌≡◌, refl, sym, ap, ◌∙◌, true, some, inl, inr, List, [], ◌∷◌, ◌++◌, length, append-nil,
  append_assoc, Option-cases, nat_eq_iff, arith,
}
use cositos.Errors.{ok}
use cositos.Reactive.{
  Code, Graph, Node, signal, computed, effect, Store, is_in, run_effect, run_node, flush,
}
use cositos.Reactive.Evaluate.{eval_fn, eval, eval_fn_unique}
use cositos.Reactive.Sets.{IsOnce}
use cositos.Reactive.Steady.{shown, IsSteady}
use cositos.Reactive.Flush.{shown-append, shown-append_one, OthersShow, run_effect-IsSteady}
use cositos.Reactive.Spread.{EffectNode}

module _ {V : Type 0} (g : Graph V) where
  -- Each effect has a value in the state, on the fuel.
  abbrev pub AllGive : (ℕ → V) → ℕ → Type 0
  AllGive state fuel =
      (e : ℕ) (fn : Code V)
      → g.node_of e ≡ effect fn
      → (w : V) × (eval_fn (eval g.node_of state fuel) fn ≡ some w)

  -- What has written once stays so.
  abbrev pub StillShown : Store V → Store V → Type 0
  StillShown s s' =
      (e : ℕ) (v : V) → shown e s.written ≡ some v → (w : V) × (shown e s'.written ≡ some w)

  effect_of : (node : Node V) → EffectNode g node → (fn : Code V) × (node ≡ effect fn)
  effect_of signal h = elim h [ ]
  effect_of (computed fn) h = elim h [ ]
  effect_of (effect fn) h = (fn, refl)

  -- The effects, in order, have written what their functions give in the state.
  abbrev pub Writes : (ℕ → V) → ℕ → List ℕ → List (ℕ × V) → Type 0
  Writes state fuel [] [] = Unit
  Writes state fuel (n ∷ ps) ((m, v) ∷ ws) =
      (m ≡ n)
      × ((fn : Code V) × (g.node_of n ≡ effect fn)
          × (eval_fn (eval g.node_of state fuel) fn ≡ some v))
      × Writes state fuel ps ws
  Writes state fuel ps ws = ⊥

  pub still_shown :
      (ws : List (ℕ × V)) (s s' : Store V) → s'.written ≡ s.written ++ ws → StillShown s s'
  still_shown ws s s' wrote e v there =
      let now = ap (shown e) wrote ∙ shown-append e s.written ws in
      elim (Option-cases (shown e ws)) [
        | inl nothing ↦ (v, now ∙ rw nothing there)
        | inr (w, later) ↦ (w, now ∙ rw later refl)
      ]

  -- A store that is steady for a state and idle, in which the listed effects are pending.
  pub record IsReady (state : ℕ → V) (ps : List ℕ) (s : Store V) : Type 0 where
    pub steady : IsSteady g state s
    pub idle : s.recompute_stack ≡ []
    pub pending : s.pending ≡ ps

  module _ (state : ℕ → V) (fuel depth : ℕ) (deep : fuel ≤ depth) (give : AllGive state fuel) where
    run_node-IsReady :
        (n : ℕ) (ps : List ℕ) (s : Store V)
        → EffectNode g (g.node_of n)
        → IsReady state (n ∷ ps) s
        → (s' : Store V) × (run_node g depth n (g.node_of n) (record s { pending = ps })
            ≡ (ok tt, s'))
          × IsReady state ps s'
          × (v : V) × (s'.written ≡ s.written ++ ((n, v) ∷ []))
          × ((fn : Code V) × (g.node_of n ≡ effect fn)
              × (eval_fn (eval g.node_of state fuel) fn ≡ some v))
    run_node-IsReady n ps s here ready =
        let (fn, e) = effect_of (g.node_of n) here in
        let (v, held) = give n fn e in
        let others : OthersShow g state fuel depth deep n ps s = λ e' fn' v' em there other quiet.
          ready.steady.shows e' fn' v' em there
            (ap (is_in e') ready.pending ∙ ground (arith, other, quiet)) in
        let (s', ran, steady, idle, pending, wrote) =
          run_effect-IsSteady g state fuel depth deep n fn v ps s e held ready.steady.fresh
            ready.idle others in
        (
          s',
          rw e ran,
          record { steady = steady; idle = idle; pending = pending },
          v,
          wrote,
          (fn, e, held),
        )

    pub flush-IsReady :
        (ps : List ℕ) (s : Store V)
        → ((r : ℕ) → is_in r ps ≡ true → EffectNode g (g.node_of r))
        → IsReady state ps s
        → (s' : Store V) × (flush g depth (length ps) s ≡ (ok tt, s'))
          × IsReady state [] s'
          × (ws : List (ℕ × V)) × (s'.written ≡ s.written ++ ws)
          × Writes state fuel ps ws
    unfolding flush
    flush-IsReady [] s effects ready =
        (s, simp ready.pending, ready, [], sym (append-nil s.written), tt)
    flush-IsReady (n ∷ ps) s effects ready =
        let (s1, ran, ready1, v, wrote, right) =
          run_node-IsReady n ps s (effects n (ground arith)) ready in
        let (s2, rest, ready2, ws, wrote2, writes) =
          flush-IsReady ps s1 (λ r h. effects r (ground (arith, h))) ready1 in
        (
          s2,
          rw (ready.pending, ran) rest,
          ready2,
          (n, v) ∷ ws,
          wrote2 ∙ ap (λ w. w ++ ws) wrote ∙ append_assoc s.written ((n, v) ∷ []) ws,
          (refl, right, writes),
        )

  -- An effect that is made runs once, and the store is as ready as it was.
  pub run_effect-IsReady :
      (state : ℕ → V) (fuel depth n : ℕ) (fn : Code V) (v : V) (s : Store V)
      → fuel ≤ depth
      → g.node_of n ≡ effect fn
      → eval_fn (eval g.node_of state fuel) fn ≡ some v
      → IsReady state [] s
      → (s' : Store V) × (run_effect g depth n fn s ≡ (ok tt, s'))
        × IsReady state [] s'
        × (shown n s'.written ≡ some v)
  run_effect-IsReady state fuel depth n fn v s deep here held ready =
      let (s', ran, steady, idle, pending, wrote) =
        run_effect-IsSteady g state fuel depth deep n fn v s.pending s here held ready.steady.fresh
          ready.idle (λ e fn' w em there other quiet. ready.steady.shows e fn' w em there quiet) in
      (
        s',
        ran,
        record { steady = steady; idle = idle; pending = pending ∙ ready.pending },
        ap (shown n) wrote ∙ shown-append_one n n v s.written ∙ rw ((nat_eq_iff n n).1 refl) refl,
      )

  -- Every effect that has written shows what its function gives in the state.
  abbrev pub AllShow : (ℕ → V) → ℕ → Store V → Store V → Type 0
  AllShow state fuel s s' =
      (e : ℕ) (fn : Code V) (v w : V)
      → g.node_of e ≡ effect fn
      → shown e s.written ≡ some v
      → eval_fn (eval g.node_of state fuel) fn ≡ some w
      → shown e s'.written ≡ some w

  -- Some effects, each once, have written what their functions give in the state, and nothing else is
  -- written.
  abbrev pub OneEach : (ℕ → V) → ℕ → Store V → Store V → Type 0
  OneEach state fuel s s' =
      (ps : List ℕ) × (ws : List (ℕ × V)) × IsOnce ps
      × Writes state fuel ps ws
      × (s'.written ≡ s.written ++ ws)

  pub ready-AllShow :
      (state : ℕ → V) (fuel : ℕ) (s s' : Store V)
      → IsReady state [] s'
      → StillShown s s'
      → AllShow state fuel s s'
  ready-AllShow state fuel s s' ready still e fn v w here before gives =
      let (u, now) = still e v before in
      let (tracks, fuel', held) = ready.steady.shows e fn u here now (ap (is_in e) ready.pending) in
      now ∙ ap some (eval_fn_unique g.node_of state fuel' fuel fn u w held gives)
