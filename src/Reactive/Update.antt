-- ===== src/Reactive/Update.antt =====
-- A set of a signal, and what marks a derivation stale: invalidation, and then all pending effects.
use mathlib.Core.Path.{subst, fun_ext}
use cositos.Base.{
  ℕ, Bool, false, ◌≤◌, ◌<◌, ◌≡◌, refl, sym, ap, ◌∙◌, true, Bool-cases, inl, inr, [], ◌++◌,
  append-nil, nat_eq, nat_eq_iff, arith,
}
use cositos.Errors.{Result, ok}
use cositos.Reactive.{Code, Graph, signal, computed, Store, is_in, set_at, set}
use cositos.Reactive.Sets.{IsOnce}
use cositos.Reactive.Push.{IsFinite, cleans-le-bound, subscribers-IsMarked}
use cositos.Reactive.{mark_stale, and_then, each, invalidate, flush_all}
use cositos.Reactive.Changed.{Changes, changed-IsReader, changed-IsSteady}
use cositos.Reactive.Tracked.{ReaderNode}
use cositos.Reactive.Settle.{
  IsReady, AllGive, AllShow, OneEach, still_shown, ready-AllShow, flush-IsReady,
}

-- What a call leads to, where `s` was before: a store that is up to date for the state, in which each
-- effect that has written shows what its function gives, and has written that once at most.
abbrev pub Updates :
    {V : Type 0} → Graph V → (ℕ → V) → ℕ → Store V → Result (Unit {0}) × Store V → Type 0
Updates {V} g state fuel s c =
    (s' : Store V) × (c ≡ (ok tt, s'))
    × IsReady g state [] s'
    × AllShow g state fuel s s'
    × OneEach g state fuel s s'

module _ {V : Type 0} (g g' : Graph V) (bound : ℕ) (finite : IsFinite g' bound)
    (state state' : ℕ → V) (s : Store V) (value : ℕ → V) (dirty : ℕ → Bool) (n : ℕ)
    (changes : Changes g g' state state' s value dirty n) where
  abbrev pushed : ℕ → Result (Unit {0}) × Store V
  pushed depth =
      and_then
        (each g' (invalidate g' depth) (g'.order (s.subs n))
          (record s { value = value; dirty = dirty }))
        (flush_all g' depth)

  -- Invalidation from what has changed, and the flush.
  pushed-Updates :
      (fuel depth : ℕ)
      → fuel ≤ depth
      → bound < depth
      → AllGive g' state' fuel
      → IsReady g state [] s
      → Updates g' state' fuel s (pushed depth)
  pushed-Updates fuel depth deep few give ready =
      let s0 = record s { value = value; dirty = dirty } in
      let (s1, done, spreads, marked) =
        subscribers-IsMarked g' bound finite depth n s0
          (λ m r h.
            changed-IsReader g g' state state' s value dirty n changes r
              (ready.steady.fresh.readers m r h))
          (omega (arith, cleans-le-bound bound dirty)) in
      let steady =
        changed-IsSteady g g' state state' s value dirty n changes s1 ready.steady.fresh spreads
          marked ready.steady in
      let (s2, flushed, ready2, ws, wrote, writes) =
        flush-IsReady g' state' fuel depth deep give s1.pending s1
          (λ r h. elim (spreads.effects r h) [
            | inl before ↦ let there = sym (ap (is_in r) ready.pending) ∙ before in cc there
            | inr e ↦ e
          ])
          (record { steady = steady; idle = spreads.stack ∙ ready.idle; pending = refl }) in
      let wrote' = wrote ∙ ap (λ w. w ++ ws) spreads.written in
      (
        s2,
        rw done flushed,
        ready2,
        ready-AllShow g' state' fuel s s2 ready2 (still_shown g' ws s s2 wrote'),
        (s1.pending, ws, spreads.once (subst IsOnce (sym ready.pending) tt), writes, wrote'),
      )

-- A value that is there already changes no state.
same_state : {V : Type 0} (state : ℕ → V) (n : ℕ) (v : V) → v ≡ state n → state ≡ set_at n v state
same_state state n v e = fun_ext (λ m. elim (Bool-cases (nat_eq m n)) [
  | inl same ↦ rw same (ap state ((nat_eq_iff m n).0 same) ∙ sym e)
  | inr other ↦ rw other refl
])

module _ {V : Type 0} (g : Graph V) (bound : ℕ) where
  set-Changes :
      (state : ℕ → V) (n : ℕ) (v : V) (s : Store V)
      → g.node_of n ≡ signal
      → Changes g g state (set_at n v state) s (set_at n v s.value) s.dirty n
  set-Changes state n v s here = record {
    nodes = λ m away. refl;
    states = λ m away. rw away refl;
    values = λ m away. rw away refl;
    dirties = λ m away. refl;
    as_signal = λ e. ground arith;
    as_derived = λ fn e. cc (here, e);
    as_effect = λ fn e. cc (here, e);
    as_reader = λ r. r;
  }

  -- If the numbers of the derivations have a bound, going through a set reaches just its elements, and
  -- `equals` tells equal values: a set of a signal, in a store that is up to date for a state, on more
  -- fuel than the bound and no less than gives each effect a value in the new state, returns. The
  -- store is up to date for the state with the new value then, every effect that has written before
  -- shows what naive evaluation gives in the new state, and what the set has written are such values,
  -- at most one for each effect.
  pub set-Updates :
      (state : ℕ → V) (fuel depth n : ℕ) (v : V) (s : Store V)
      → IsFinite g bound
      → ((a b : V) → g.equals a b ≡ true → a ≡ b)
      → fuel ≤ depth
      → bound < depth
      → g.node_of n ≡ signal
      → AllGive g (set_at n v state) fuel
      → IsReady g state [] s
      → Updates g (set_at n v state) fuel s (set g depth n v s)
  unfolding set
  set-Updates state fuel depth n v s finite tells deep few here give ready =
      elim (Bool-cases (g.equals v (s.value n))) [
        | inl equal ↦
            let e = tells v (s.value n) equal ∙ ready.steady.fresh.signals n here in
            let ready' = subst (λ σ. IsReady g σ [] s) (same_state state n v e) ready in
            (
              s,
              rw equal refl,
              ready',
              ready-AllShow g (set_at n v state) fuel s s ready' (λ e' w h. (w, h)),
              ([], [], tt, tt, sym (append-nil s.written)),
            )
        | inr new ↦ rw new (
            pushed-Updates g g bound finite state (set_at n v state) s (set_at n v s.value) s.dirty
              n (set-Changes state n v s here) fuel depth deep few give ready)
      ]

  -- If objects are as before but for the function of one derivation, the numbers of the derivations have
  -- a bound and going through a set reaches just its elements: marking that derivation stale, in a store
  -- that was up to date for a state, on more fuel than the bound and no less than gives each effect a
  -- value, returns. The store is up to date for the state then, every effect that has written before
  -- shows what naive evaluation gives now, and what was written by the call are such values, at most
  -- one for each effect.
  pub mark_stale-Updates :
      (g' : Graph V) (state : ℕ → V) (fuel depth n : ℕ) (fn : Code V) (s : Store V)
      → IsFinite g' bound
      → fuel ≤ depth
      → bound < depth
      → g'.node_of n ≡ computed fn
      → ((m : ℕ) → nat_eq m n ≡ false → g'.node_of m ≡ g.node_of m)
      → AllGive g' state fuel
      → IsReady g state [] s
      → Updates g' state fuel s (mark_stale g' depth n s)
  unfolding mark_stale
  mark_stale-Updates g' state fuel depth n fn s finite deep few here nodes give ready =
      let changes : Changes g g' state state s s.value (set_at n true s.dirty) n = record {
        nodes = nodes;
        states = λ m away. refl;
        values = λ m away. refl;
        dirties = λ m away. rw away refl;
        as_signal = λ e. cc (here, e);
        as_derived = λ fn' e. ground arith;
        as_effect = λ fn' e. cc (here, e);
        as_reader = λ r. subst (ReaderNode g') (sym here) tt;
      } in
      pushed-Updates g g' bound finite state state s s.value (set_at n true s.dirty) n changes fuel
        depth deep few give ready
