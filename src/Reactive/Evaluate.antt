-- ===== src/Reactive/Evaluate.antt =====
-- What a derivation stands for: the value that comes of it if every read computes anew.
use cositos.Base.{ℕ, zero, suc, ◌+◌, ◌≡◌, refl, sym, ap, ◌∙◌, Option, none, some}
use mathlib.Core.Path.{subst}
use cositos.Base.{arith}
use cositos.Reactive.{Code, give, raise, read, Node, signal, computed, effect}

-- an optional value, and what follows it if it is there
abbrev pub and_if {ℓ κ} : {A : Type ℓ} {B : Type κ} → Option A → (A → Option B) → Option B
and_if none f = none
and_if (some a) f = f a

pub and_if-some {ℓ κ} :
    {A : Type ℓ} {B : Type κ} (o : Option A) (f : A → Option B) (b : B)
    → and_if o f ≡ some b
    → (a : A) × (o ≡ some a) × (f a ≡ some b)
and_if-some none f b e = cc e
and_if-some (some a) f b e = (a, refl, e)

module _ {V : Type 0} where
  unfoldable pub eval_fn : (ℕ → Option V) → Code V → Option V
  eval_fn get (give v) = some v
  eval_fn get (raise e) = none
  eval_fn get (read n k) = and_if (get n) (λ v. eval_fn get (k v))

  -- More reads that give a value do no harm.
  abbrev pub Extends : (ℕ → Option V) → (ℕ → Option V) → Type 0
  Extends g g' = (n : ℕ) (v : V) → g n ≡ some v → g' n ≡ some v

  pub eval_fn-Extends :
      (g g' : ℕ → Option V) (fn : Code V) (v : V)
      → Extends g g'
      → eval_fn g fn ≡ some v
      → eval_fn g' fn ≡ some v
  unfolding eval_fn
  eval_fn-Extends g g' (give w) v h e = e
  eval_fn-Extends g g' (raise x) v h e = cc e
  eval_fn-Extends g g' (read n k) v h e =
      let (u, found, rest) = and_if-some (g n) (λ w. eval_fn g (k w)) v e in
      rw (h n u found) (eval_fn-Extends g g' (k u) v h rest)

module _ {V : Type 0} (node_of : ℕ → Node V) (state : ℕ → V) where
  abbrev pub eval_node : (ℕ → Option V) → ℕ → Node V → Option V
  eval_node get n signal = some (state n)
  eval_node get n (computed fn) = eval_fn get fn
  eval_node get n (effect fn) = none

  -- the value of an object, from the signals' values alone; the fuel bounds how deep the reads nest
  unfoldable pub eval : ℕ → ℕ → Option V
  eval zero n = none
  eval (suc fuel) n = eval_node (eval fuel) n (node_of n)

  node-Extends :
      (g g' : ℕ → Option V) (n : ℕ) (node : Node V)
      → Extends g g'
      → (v : V) → eval_node g n node ≡ some v
      → eval_node g' n node ≡ some v
  node-Extends g g' n signal h v e = e
  node-Extends g g' n (computed fn) h v e = eval_fn-Extends g g' fn v h e
  node-Extends g g' n (effect fn) h v e = e

  pub eval-suc : (fuel : ℕ) → Extends (eval fuel) (eval (suc fuel))
  unfolding eval
  eval-suc zero n v e = cc e
  eval-suc (suc fuel) n v e =
      node-Extends (eval fuel) (eval (suc fuel)) n (node_of n) (eval-suc fuel) v e

  eval-add : (k fuel : ℕ) → Extends (eval fuel) (eval (k + fuel))
  eval-add zero fuel n v e =
      let same : fuel ≡ zero + fuel = omega arith in subst (λ f. eval f n ≡ some v) same e
  eval-add (suc k) fuel n v e =
      let same : suc (k + fuel) ≡ suc k + fuel = omega arith in
      subst (λ f. eval f n ≡ some v) same (eval-suc (k + fuel) n v (eval-add k fuel n v e))

  -- An object has one value, on whatever fuel.
  pub eval_unique :
      (fuel fuel' n : ℕ) (v w : V) → eval fuel n ≡ some v → eval fuel' n ≡ some w → v ≡ w
  eval_unique fuel fuel' n v w e d =
      let swap : fuel' + fuel ≡ fuel + fuel' = omega arith in
      let more = eval-add fuel' fuel n v e in
      let both = sym more ∙ ap (λ f. eval f n) swap ∙ eval-add fuel fuel' n w d in cc both

  pub eval_fn_unique :
      (fuel fuel' : ℕ) (fn : Code V) (v w : V)
      → eval_fn (eval fuel) fn ≡ some v
      → eval_fn (eval fuel') fn ≡ some w
      → v ≡ w
  eval_fn_unique fuel fuel' fn v w e d =
      let swap : fuel' + fuel ≡ fuel + fuel' = omega arith in
      let more = eval_fn-Extends (eval fuel) (eval (fuel' + fuel)) fn v (eval-add fuel' fuel) e in
      let more' = eval_fn-Extends (eval fuel') (eval (fuel + fuel')) fn w (eval-add fuel fuel') d in
      let both = sym more ∙ ap (λ f. eval_fn (eval f) fn) swap ∙ more' in cc both
