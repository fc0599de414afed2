-- ===== src/Reactive/Steady.antt =====
-- Stores in which what the effects have written is up to date.
use cositos.Base.{
  ℕ, zero, suc, ◌≡◌, ◌∙◌, false, Option, none, some, first, List, [], ◌∷◌, nat_eq, if◌then◌else◌,
}
use cositos.Reactive.{Code, Graph, Node, signal, computed, effect, Store, is_in}
use cositos.Reactive.Evaluate.{eval_fn, eval, eval_unique}
use cositos.Reactive.Tracked.{LiveNode, Tracks}
use cositos.Reactive.Fresh.{IsFresh}

-- What an effect has written last.
abbrev pub shown {ℓ} : {V : Type ℓ} → ℕ → List (ℕ × V) → Option V
shown e [] = none
shown e ((m, v) ∷ ws) = first (shown e ws) (if nat_eq e m then some v else none)

module _ {V : Type 0} (g : Graph V) where
  -- What an effect has written, unless it is pending, is what its function gives in the state, and what
  -- it has read is tracked.
  pub record IsSteady (state : ℕ → V) (s : Store V) : Type 0 where
    pub fresh : IsFresh g state s
    pub shows :
        (e : ℕ) (fn : Code V) (v : V)
        → g.node_of e ≡ effect fn
        → shown e s.written ≡ some v
        → is_in e s.pending ≡ false
        → Tracks g s e fn v × (fuel : ℕ) × (eval_fn (eval g.node_of state fuel) fn ≡ some v)

  -- A live object has its value.
  pub LiveNode-value :
      (state : ℕ → V) (s : Store V) (m fuel : ℕ) (w : V) (node : Node V)
      → IsFresh g state s
      → g.node_of m ≡ node
      → LiveNode g s m node
      → eval g.node_of state fuel m ≡ some w
      → s.value m ≡ w
  unfolding eval
  LiveNode-value state s m zero w node fresh here live e = cc e
  LiveNode-value state s m (suc fuel) w signal fresh here live e =
      let e' = rw here at e in fresh.signals m here ∙ cc e'
  LiveNode-value state s m (suc fuel) w (computed fn) fresh here live e =
      let (tracks, fuel', held) = fresh.clean m fn here live.0 live.1 in
      eval_unique g.node_of state fuel' (suc fuel) m (s.value m) w held e
  LiveNode-value state s m (suc fuel) w (effect fn) fresh here live e = elim live [ ]
