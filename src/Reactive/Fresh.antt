-- ===== src/Reactive/Fresh.antt =====
-- Stores whose clean derivations hold what they stand for, and the steps of a read that keep them so.
use mathlib.Core.Path.{subst}
use cositos.Base.{ℕ, ◌≡◌, refl, sym, ap, ◌∙◌, true, false, some, inl, inr, List, [], ◌∷◌, arith}
use cositos.Errors.{Result, ok}
use cositos.Reactive.{Code, Graph, signal, computed, Store, is_in, subscribed, subscribe, answer}
use cositos.Reactive.Evaluate.{eval}
use cositos.Reactive.Sets.{is_in-set_at, is_in-set_at_self, set_at-is_in}
use cositos.Reactive.Tracked.{
  IsLive, IsReader, Tracks, Keeps, Keeps-refl, Keeps-IsLive, Keeps-Tracks, clean-IsSettled,
}

module _ {V : Type 0} (g : Graph V) (state : ℕ → V) where
  -- The signals hold the state; a derivation that is clean and not being computed holds what it stands
  -- for in that state, and what it has read is tracked. What subscribes or runs is no signal.
  pub record IsFresh (s : Store V) : Type 0 where
    pub signals : (n : ℕ) → g.node_of n ≡ signal → s.value n ≡ state n
    pub clean :
        (n : ℕ) (fn : Code V)
        → g.node_of n ≡ computed fn
        → s.dirty n ≡ false
        → is_in n s.recompute_stack ≡ false
        → Tracks g s n fn (s.value n)
          × (fuel : ℕ) × (eval g.node_of state fuel n ≡ some (s.value n))
    pub readers : (m r : ℕ) → is_in r (s.subs m) ≡ true → IsReader g r
    pub running : (r : ℕ) → is_in r s.current ≡ true → IsReader g r

  -- The object has what is running, if anything is, among its subscribers.
  abbrev pub Heard : List ℕ → ℕ → Store V → Type 0
  Heard [] n s = Unit
  Heard (c ∷ cs) n s = is_in c (s.subs n) ≡ true

  -- A call that returns the value of the object, which is live after it, and leaves a fresh store.
  abbrev pub Gives : Result V × Store V → ℕ → V → Store V → Type 0
  Gives c n v s =
      (s' : Store V) × (c ≡ (ok v, s'))
      × IsFresh s'
      × Keeps g s s'
      × IsLive g s' n
      × (s'.value n ≡ v)
      × Heard s.current n s'

  subscribed-Gives :
      (n : ℕ) (cs : List ℕ) (s : Store V)
      → ((r : ℕ) → is_in r cs ≡ true → IsReader g r)
      → IsFresh s
      → IsLive g s n
      → let s' = subscribed g n cs s in
        IsFresh s' × Keeps g s s' × IsLive g s' n × (s'.value ≡ s.value) × Heard cs n s'
  subscribed-Gives n [] s known fresh live = (fresh, Keeps-refl g s, live, refl, tt)
  subscribed-Gives n (c ∷ cs) s known fresh live =
      let s' = subscribed g n (c ∷ cs) s in
      let keeps : Keeps g s s' = record {
        stack = refl;
        current = refl;
        pending = refl;
        written = refl;
        dirty = λ m h. h;
        value = λ m h. refl;
        subs = λ r m settled h. is_in-set_at r m n c s.subs h;
      } in
      let fresh' : IsFresh s' = record {
        signals = fresh.signals;
        clean = λ m fm em dm im.
            let (tracks, fuel, e) = fresh.clean m fm em dm im in
            (
              Keeps-Tracks g s s' keeps m (clean-IsSettled g s m fm em dm) fm (s.value m) tracks,
              fuel,
              e,
            );
        readers = λ m r h. elim (set_at-is_in r m n c s.subs h) [
          | inl new ↦ subst (IsReader g) (sym new) (known c (ground arith))
          | inr old ↦ fresh.readers m r old
        ];
        running = fresh.running;
      } in
      (fresh', keeps, Keeps-IsLive g s s' keeps n live, refl, is_in-set_at_self n c s.subs)

  pub answer-Gives :
      (n : ℕ) (v : V) (s : Store V)
      → IsFresh s
      → IsLive g s n
      → s.value n ≡ v
      → Gives (answer g n tt s) n v s
  unfolding subscribe
  answer-Gives n v s fresh live e =
      let (fresh', keeps, live', values, heard) =
        subscribed-Gives n s.current s fresh.running fresh live in
      let held = ap (λ f. f n) values ∙ e in
      (
        subscribed g n s.current s,
        ap (λ w. (ok w, subscribed g n s.current s)) held,
        fresh',
        keeps,
        live',
        held,
        heard,
      )
