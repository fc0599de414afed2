-- ===== src/Reactive.antt =====
-- examples/benchmarks/reactive.py: signals, memoized derivations and effects, that track what they
-- read. The objects are numbers; an object's attributes are what the store holds under its number.
-- The function of a derivation or an effect is a program that reads objects, and ends with a value
-- or an exception; an effect's value is what it writes to its widget. A function that sets a signal is
-- not modelled. A set is a list without repetitions, and the order in which Python goes through it is
-- a parameter. The store's stacks have their top in front. Edges, which are recorded for the reports
-- only, are of all objects or none.
pub mod Evaluate
pub mod Sets
pub mod Tracked
pub mod Fresh
pub mod Steps
pub mod Pull
pub mod Spread
pub mod Push
pub mod Steady
pub mod Changed
pub mod Flush
pub mod Settle
pub mod Update
mod Examples
use cositos.Base.{
  ℕ, zero, suc, Bool, true, false, not, ◌&&◌, ◌||◌, List, [], ◌∷◌, ◌++◌, nat_eq, length,
  if◌then◌else◌,
}
use cositos.Errors.{Error, no_fuel, type_error, runtime_error, Result, ok, err, ◌>>=◌}

pub data Code (V : Type 0) : Type 0 where
  give : V → Code V
  raise : Error → Code V
  read : ℕ → (V → Code V) → Code V

pub data Node (V : Type 0) : Type 0 where
  signal : Node V
  computed effect : Code V → Node V

-- The modules' three lists, and the attributes of all objects.
pub record Store (V : Type 0) : Type 0 where
  pub current : List ℕ
  pub pending : List ℕ
  pub recompute_stack : List ℕ
  pub value : ℕ → V
  pub dirty : ℕ → Bool
  pub subs : ℕ → List ℕ
  pub sources : ℕ → List ℕ
  pub counter : ℕ
  pub edges : List (ℕ × ℕ)
  pub written : List (ℕ × V)

-- `x in xs`, `xs.add(x)`, `xs.discard(x)`
abbrev pub is_in : ℕ → List ℕ → Bool
is_in n [] = false
is_in n (m ∷ ms) = nat_eq n m || is_in n ms

abbrev pub add : ℕ → List ℕ → List ℕ
add n ms = if is_in n ms then ms else n ∷ ms

abbrev pub discard : ℕ → List ℕ → List ℕ
discard n [] = []
discard n (m ∷ ms) = if nat_eq n m then discard n ms else m ∷ discard n ms

abbrev pub pop : List ℕ → List ℕ
pop [] = []
pop (n ∷ ns) = ns

-- an attribute of one object written
abbrev pub set_at {ℓ} : {A : Type ℓ} → ℕ → A → (ℕ → A) → ℕ → A
set_at n a f m = if nat_eq m n then a else f m

-- A call, and what follows it unless it raises.
abbrev pub and_then : {S A B : Type 0} → Result A × S → (A → S → Result B × S) → Result B × S
and_then (ok a, s) f = f a s
and_then (err e, s) f = (err e, s)

-- The objects of a program, Python's `==`, the order in which it goes through a set, and whether
-- edges are recorded.
pub record Graph (V : Type 0) : Type 0 where
  pub node_of : ℕ → Node V
  pub equals : V → V → Bool
  pub order : List ℕ → List ℕ
  pub tracks_edges : Bool

module _ {V : Type 0} (g : Graph V) where
  abbrev pub Call : Type 0 → Type 0
  Call A = Result A × Store V

  -- `_subscribe`
  abbrev pub subscribed : ℕ → List ℕ → Store V → Store V
  subscribed source [] s = s
  subscribed source (sub ∷ subs) s = record s {
    subs = set_at source (add sub (s.subs source)) s.subs;
    sources = set_at sub (add source (s.sources sub)) s.sources;
    edges = if g.tracks_edges then s.edges ++ ((source, sub) ∷ []) else s.edges;
  }

  unfoldable pub subscribe : ℕ → Store V → Store V
  subscribe source s = subscribed source s.current s

  -- the loop that clears the subscriptions of a node
  abbrev pub unsubscribe : ℕ → List ℕ → (ℕ → List ℕ) → ℕ → List ℕ
  unsubscribe n [] subs = subs
  unsubscribe n (m ∷ ms) subs = unsubscribe n ms (set_at m (discard n (subs m)) subs)

  -- A node without sources, that starts to run.
  abbrev pub entered : ℕ → Store V → Store V
  entered n s = record s {
    subs = unsubscribe n (s.sources n) s.subs;
    sources = set_at n [] s.sources;
    current = n ∷ s.current;
  }

  abbrev pub left : Store V → Store V
  left s = record s { current = pop s.current }

  -- a function, where `get` reads an object
  unfoldable pub run_fn : (ℕ → Store V → Call V) → Code V → Store V → Call V
  run_fn get (give v) s = (ok v, s)
  run_fn get (raise e) s = (err e, s)
  run_fn get (read n k) s = and_then (get n s) (λ v s'. run_fn get (k v) s')

  -- `_recompute`, behind its `try`
  abbrev pub recomputed : ℕ → Call V → Call (Unit {0})
  recomputed n (ok v, s) = (
    ok tt,
    left (record s { recompute_stack = pop s.recompute_stack; value = set_at n v s.value }),
  )
  recomputed n (err e, s) = (err e, left (record s { recompute_stack = pop s.recompute_stack }))

  -- `_recompute`
  abbrev pub recompute : (ℕ → Store V → Call V) → ℕ → Code V → Store V → Call (Unit {0})
  recompute get n fn s = recomputed n (
      run_fn get fn (record (entered n s) {
        dirty = set_at n false s.dirty;
        recompute_stack = n ∷ s.recompute_stack;
      }))

  -- the end of `get`
  abbrev pub answer : ℕ → Unit {0} → Store V → Call V
  answer n u s = let s' = subscribe n s in (ok (s'.value n), s')

  -- `Signal.get` and `Computed.get`; an effect has no `get`.
  abbrev pub get_node : (ℕ → Store V → Call V) → ℕ → Node V → Store V → Call V
  get_node get n signal s = answer n tt s
  get_node get n (computed fn) s =
      if is_in n s.recompute_stack
      then (err (runtime_error "reactive cycle through computed"), s)
      else and_then (if s.dirty n then recompute get n fn s else (ok tt, s)) (answer n)
  get_node get n (effect fn) s = (err type_error, s)

  -- The fuel bounds how deep the calls nest.
  unfoldable pub get : ℕ → ℕ → Store V → Call V
  get zero n s = (err no_fuel, s)
  get (suc fuel) n s = get_node (get fuel) n (g.node_of n) s

  -- `Effect._run`, behind its `try`
  abbrev pub ran : ℕ → Call V → Call (Unit {0})
  ran n (ok v, s) = (ok tt, left (record s { written = s.written ++ ((n, v) ∷ []) }))
  ran n (err e, s) = (err e, left s)

  -- `Effect._run`
  abbrev pub run_effect : ℕ → ℕ → Code V → Store V → Call (Unit {0})
  run_effect fuel n fn s =
      ran n (run_fn (get fuel) fn (entered n (record s { counter = suc s.counter })))

  abbrev pub run_node : ℕ → ℕ → Node V → Store V → Call (Unit {0})
  run_node fuel n (effect fn) s = run_effect fuel n fn s
  run_node fuel n node s = (err type_error, s)

  -- `_flush`, whose fuel is the number of effects that are pending
  unfoldable pub flush : ℕ → ℕ → Store V → Call (Unit {0})
  flush fuel zero s = elim s.pending [ [] ↦ (ok tt, s) | n ∷ ns ↦ (err no_fuel, s) ]
  flush fuel (suc rounds) s = elim s.pending [
    | [] ↦ (ok tt, s)
    | n ∷ ns ↦
        and_then (run_node fuel n (g.node_of n) (record s { pending = ns }))
          (λ u s'. flush fuel rounds s')
  ]

  -- the loop over subscribers, with `_invalidate`
  unfoldable pub each : (ℕ → Store V → Call (Unit {0})) → List ℕ → Store V → Call (Unit {0})
  each invalidate [] s = (ok tt, s)
  each invalidate (n ∷ ns) s = and_then (invalidate n s) (λ u s'. each invalidate ns s')

  -- `Computed._invalidate` and `Effect._invalidate`; a signal has none.
  abbrev pub invalidate_node :
      (ℕ → Store V → Call (Unit {0})) → ℕ → Node V → Store V → Call (Unit {0})
  invalidate_node invalidate n signal s = (err type_error, s)
  invalidate_node invalidate n (computed fn) s =
      if s.dirty n
      then (ok tt, s)
      else each invalidate (g.order (s.subs n)) (record s { dirty = set_at n true s.dirty })
  invalidate_node invalidate n (effect fn) s =
      (ok tt, if is_in n s.pending then s else record s { pending = s.pending ++ (n ∷ []) })

  unfoldable pub invalidate : ℕ → ℕ → Store V → Call (Unit {0})
  invalidate zero n s = (err no_fuel, s)
  invalidate (suc fuel) n s = invalidate_node (invalidate fuel) n (g.node_of n) s

  abbrev pub flush_all : ℕ → Unit {0} → Store V → Call (Unit {0})
  flush_all fuel u s = flush fuel (length s.pending) s

  -- `Signal.set`
  unfoldable pub set : ℕ → ℕ → V → Store V → Call (Unit {0})
  set fuel n v s =
      if g.equals v (s.value n)
      then (ok tt, s)
      else and_then
          (each (invalidate fuel) (g.order (s.subs n)) (record s { value = set_at n v s.value }))
          (flush_all fuel)

  -- `Computed.mark_stale`
  unfoldable pub mark_stale : ℕ → ℕ → Store V → Call (Unit {0})
  mark_stale fuel n s =
      and_then
        (each (invalidate fuel) (g.order (s.subs n)) (record s { dirty = set_at n true s.dirty }))
        (flush_all fuel)
