-- ===== src/Reactive/Pull.antt =====
-- Reading an object gives what it stands for, if the derivations that are clean hold that already.
use mathlib.Core.Path.{subst}
use cositos.Base.{
  ℕ, zero, suc, ◌≤◌, ◌≡◌, refl, sym, ap, ◌∙◌, true, false, Bool-cases, none, some, Option-cases,
  inl, inr, List, [], ◌∷◌, nat_eq, nat_eq_iff, arith,
}
use cositos.Errors.{ok}
use cositos.Reactive.{
  Code, Graph, give, raise, read, Node, signal, computed, effect, Store, is_in, run_fn, recompute,
  get_node, get,
}
use cositos.Reactive.Fresh.{IsFresh, Gives, Heard, answer-Gives}
use cositos.Reactive.Steps.{started, started-IsFresh, ended, ended-IsFresh, recomputed-Keeps}
use cositos.Reactive.Tracked.{
  IsLive, LiveNode, IsSettled, Tracks, Keeps, Keeps-refl, Keeps-trans, Keeps-IsLive,
  Keeps-IsSettled, clean-IsSettled,
}
use cositos.Reactive.Evaluate.{eval_fn, eval, eval_node, and_if-some, eval-suc, eval_unique}

module _ {V : Type 0} (g : Graph V) (state : ℕ → V) where
  -- What is being computed has no value yet on the fuel.
  abbrev pub Unfinished : ℕ → List ℕ → Type 0
  Unfinished fuel stack = (m : ℕ) → is_in m stack ≡ true → eval g.node_of state fuel m ≡ none

  -- reading on a fuel
  abbrev pub Reads : ℕ → ℕ → Type 0
  Reads fuel depth =
      (n : ℕ) (v : V) (s : Store V)
      → eval g.node_of state fuel n ≡ some v
      → IsFresh g state s
      → Unfinished fuel s.recompute_stack
      → Gives g state (get g depth n s) n v s

  -- The function of what is running gives its value, and everything that it reads is tracked.
  pub run_fn-Gives :
      (fuel depth n : ℕ) (cs : List ℕ)
      → Reads fuel depth
      → (fn : Code V) (v : V) (s : Store V) → eval_fn (eval g.node_of state fuel) fn ≡ some v
      → IsFresh g state s
      → Unfinished fuel s.recompute_stack
      → s.current ≡ n ∷ cs
      → IsSettled g s n
      → (s' : Store V) × (run_fn g (get g depth) fn s ≡ (ok v, s'))
        × IsFresh g state s'
        × Keeps g s s'
        × Tracks g s' n fn v
  unfolding run_fn eval_fn
  run_fn-Gives fuel depth n cs reads (give w) v s e fresh u top settled =
      (s, cc e, fresh, Keeps-refl g s, cc e)
  run_fn-Gives fuel depth n cs reads (raise x) v s e fresh u top settled = cc e
  run_fn-Gives fuel depth n cs reads (read m k) v s e fresh u top settled =
      let (w, found, rest) =
        and_if-some (eval g.node_of state fuel m) (λ w. eval_fn (eval g.node_of state fuel) (k w)) v
          e in
      let (s1, got, fresh1, keeps1, live1, held, heard) = reads m w s found fresh u in
      let (s2, ran, fresh2, keeps2, tracks) =
        run_fn-Gives fuel depth n cs reads (k w) v s1 rest fresh1
          (subst (Unfinished fuel) (sym keeps1.stack) u) (keeps1.current ∙ top)
          (Keeps-IsSettled g s s1 keeps1 n settled) in
      (
        s2,
        rw got ran,
        fresh2,
        Keeps-trans g s s1 s2 keeps1 keeps2,
        (
          keeps2.subs n m (Keeps-IsSettled g s s1 keeps1 n settled)
              (subst (λ c. Heard g state c m s1) top heard),
          Keeps-IsLive g s1 s2 keeps2 m live1,
          subst (λ w'. Tracks g s2 n (k w') v) (sym (keeps2.value m live1 ∙ held)) tracks,
        ),
      )

  recompute-Gives :
      (fuel depth n : ℕ) (fn : Code V) (v : V) (s : Store V)
      → Reads fuel depth
      → g.node_of n ≡ computed fn
      → s.dirty n ≡ true
      → is_in n s.recompute_stack ≡ false
      → eval_fn (eval g.node_of state fuel) fn ≡ some v
      → IsFresh g state s
      → Unfinished fuel (n ∷ s.recompute_stack)
      → (s' : Store V) × (recompute g (get g depth) n fn s ≡ (ok tt, s'))
        × IsFresh g state s'
        × Keeps g s s'
        × IsLive g s' n
        × (s'.value n ≡ v)
  unfolding eval
  recompute-Gives fuel depth n fn v s reads derived dirty idle e fresh u =
      let s1 = started g state n s in
      let (s2, ran, fresh2, keeps, tracks) =
        run_fn-Gives fuel depth n s.current reads fn v s1 e
          (started-IsFresh g state n fn s derived dirty fresh) u refl
          (clean-IsSettled g s1 n fn derived (ground arith)) in
      let keeps' = recomputed-Keeps g state n fn v s s2 derived dirty keeps in
      let clean : s2.dirty n ≡ false = keeps.dirty n (ground arith) in
      (
        ended g state n v s2,
        rw ran refl,
        ended-IsFresh g state n fn (suc fuel) v s.recompute_stack s2 (derived, keeps.stack)
            (rw derived e) tracks fresh2,
        keeps',
        subst (LiveNode g (ended g state n v s2) n) (sym derived)
            (clean, ap (is_in n) keeps'.stack ∙ idle),
        ground arith,
      )

  earlier :
      (fuel m : ℕ) → eval g.node_of state (suc fuel) m ≡ none → eval g.node_of state fuel m ≡ none
  earlier fuel m missing = elim (Option-cases (eval g.node_of state fuel m)) [
    | inl nothing ↦ nothing
    | inr (w, found) ↦ cc (missing, eval-suc g.node_of state fuel m w found)
  ]

  deeper :
      (fuel n : ℕ) (stack : List ℕ)
      → eval g.node_of state fuel n ≡ none
      → Unfinished (suc fuel) stack
      → Unfinished fuel (n ∷ stack)
  deeper fuel n stack none_yet u m im = elim (Bool-cases (nat_eq m n)) [
    | inl same ↦ ap (eval g.node_of state fuel) ((nat_eq_iff m n).0 same) ∙ none_yet
    | inr other ↦ earlier fuel m (u m (ground (arith, im, other)))
  ]

  -- What is read is a signal or a derivation, and has a value on no less fuel.
  node-Gives :
      (fuel depth n : ℕ) (v : V) (s : Store V) (node : Node V)
      → Reads fuel depth
      → g.node_of n ≡ node
      → eval_node g.node_of state (eval g.node_of state fuel) n node ≡ some v
      → eval g.node_of state fuel n ≡ none
      → IsFresh g state s
      → Unfinished (suc fuel) s.recompute_stack
      → Gives g state (get_node g (get g depth) n node s) n v s
  unfolding eval
  node-Gives fuel depth n v s signal reads here e none_yet fresh u =
      answer-Gives g state n v s fresh (subst (LiveNode g s n) (sym here) tt)
        (fresh.signals n here ∙ cc e)
  node-Gives fuel depth n v s (effect fn) reads here e none_yet fresh u = cc e
  node-Gives fuel depth n v s (computed fn) reads here e none_yet fresh u =
      let whole : eval g.node_of state (suc fuel) n ≡ some v = rw here e in
      elim (Bool-cases (is_in n s.recompute_stack)) [
        | inl running ↦ cc (u n running, whole)
        | inr idle ↦ elim (Bool-cases (s.dirty n)) [
          | inl dirty ↦
              let (s1, done, fresh1, keeps1, live1, held) =
                recompute-Gives fuel depth n fn v s reads here dirty idle e fresh
                  (deeper fuel n s.recompute_stack none_yet u) in
              let (s2, answered, fresh2, keeps2, live2, held2, heard) =
                answer-Gives g state n v s1 fresh1 live1 held in
              (
                s2,
                rw (idle, dirty, done) answered,
                fresh2,
                Keeps-trans g s s1 s2 keeps1 keeps2,
                live2,
                held2,
                subst (λ c. Heard g state c n s2) keeps1.current heard,
              )
          | inr clean ↦
              let (tracks, fuel', held) = fresh.clean n fn here clean idle in
              let (s2, answered, fresh2, keeps2, live2, held2, heard) =
                answer-Gives g state n v s fresh (subst (LiveNode g s n) (sym here) (clean, idle))
                  (eval_unique g.node_of state fuel' (suc fuel) n (s.value n) v held whole) in
              (s2, rw (idle, clean) answered, fresh2, keeps2, live2, held2, heard)
        ]
      ]

  pub get-Gives : (fuel depth : ℕ) → fuel ≤ depth → Reads fuel depth
  unfolding get eval
  get-Gives zero depth h n v s e fresh u = cc e
  get-Gives (suc fuel) zero h n v s e fresh u =
      let none_left : ⊥ = omega arith in elim none_left [ ]
  get-Gives (suc fuel) (suc depth) h n v s e fresh u =
      elim (Option-cases (eval g.node_of state fuel n)) [
        | inl none_yet ↦
            node-Gives fuel depth n v s (g.node_of n) (get-Gives fuel depth (omega arith)) refl e
              none_yet fresh u
        | inr (w, before) ↦
            get-Gives fuel (suc depth) (omega arith) n v s
              (before ∙ ap some (eval_unique g.node_of state fuel (suc fuel) n w v before e)) fresh
              (λ m im. earlier fuel m (u m im))
      ]

  -- In a store in which nothing is being computed, the signals hold a state, and each derivation that
  -- is clean holds what it stands for in that state and has its reads tracked: if the naive
  -- evaluation, in which every read computes anew, gives an object a value on some fuel, then reading
  -- the object on no less fuel returns that value, and the store that it leaves is such a store again,
  -- in which the object is clean and what was clean has kept its value.
  pub get-eval :
      (fuel depth n : ℕ) (v : V) (s : Store V)
      → fuel ≤ depth
      → eval g.node_of state fuel n ≡ some v
      → IsFresh g state s
      → s.recompute_stack ≡ []
      → (s' : Store V) × (get g depth n s ≡ (ok v, s'))
        × IsFresh g state s'
        × Keeps g s s'
        × IsLive g s' n
  get-eval fuel depth n v s h e fresh idle =
      let (s', got, fresh', keeps, live, held, heard) =
        get-Gives fuel depth h n v s e fresh (subst (Unfinished fuel) (sym idle) (λ m im. cc im)) in
      (s', got, fresh', keeps, live)
