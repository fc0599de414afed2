-- ===== src/Reactive/Examples.antt =====
-- The programs of examples/benchmarks/reactive_selftest.py.
use mathlib.Core.Path.{subst}
use cositos.Base.{
  ℕ, zero, suc, ◌+◌, ◌<◌, ◌≡◌, refl, sym, ap, true, false, some, [], ◌∷◌, nat_eq, nat_eq_iff,
  if◌then◌else◌, arith,
}
use cositos.Errors.{ok, err, runtime_error}
use cositos.Reactive.{
  give, read, Code, Node, Graph, set_at, signal, computed, effect, Store, get, set, mark_stale,
  run_fn, subscribe, flush, each, invalidate, run_effect,
}
use cositos.Reactive.Evaluate.{eval, eval_fn}
use cositos.Reactive.Fresh.{IsFresh}
use cositos.Reactive.Tracked.{IsLive, Keeps}
use cositos.Reactive.Pull.{get-eval}
use cositos.Reactive.Push.{IsFinite}
use cositos.Reactive.Settle.{IsReady, AllGive, run_effect-IsReady}
use cositos.Reactive.Update.{Updates, set-Updates, mark_stale-Updates}

-- A diamond: a signal, two derivations of it, their sum, and an effect that writes the sum.
abbrev diamond : Code ℕ → ℕ → Node ℕ
diamond fn zero = signal
diamond fn (suc zero) = computed (read 0 (λ s. give (s + 1)))
diamond fn (suc (suc zero)) = computed fn
diamond fn (suc (suc (suc zero))) = computed (read 1 (λ d. read 2 (λ e. give (d + e))))
diamond fn n = effect (read 3 give)

abbrev graph_of : Code ℕ → Graph ℕ
graph_of fn = record {
  node_of = diamond fn;
  equals = nat_eq;
  order = λ ns. ns;
  tracks_edges = true;
}

abbrev graph : Graph ℕ
graph = graph_of (read 0 (λ s. give (s + s)))

-- The second derivation after its function has changed.
abbrev plus_three : Code ℕ
plus_three = read 0 (λ s. give (s + 3))

abbrev new_store : Store ℕ
new_store = record {
  current = [];
  pending = [];
  recompute_stack = [];
  value = λ n. if nat_eq n 0 then 1 else 0;
  dirty = λ n. true;
  subs = λ n. [];
  sources = λ n. [];
  counter = 0;
  edges = [];
  written = [];
}

abbrev started : Store ℕ
started = (run_effect graph 9 4 (read 3 give) new_store).1

abbrev after_stale : Store ℕ
after_stale = (mark_stale (graph_of plus_three) 9 2 started).1

stale_written : after_stale.written ≡ (4, 4) ∷ (4, 6) ∷ []
unfolding get mark_stale run_fn subscribe flush each invalidate
stale_written = refl

abbrev after_set : Store ℕ
after_set = (set graph 9 0 10 started).1

diamond_written : after_set.written ≡ (4, 4) ∷ (4, 31) ∷ []
unfolding get set run_fn subscribe flush each invalidate
diamond_written = refl

-- All derivations are dirty at first, and no effect has written.
new_store-IsReady : IsReady graph new_store.value [] new_store
new_store-IsReady = record {
  steady = record {
    fresh = record {
      signals = λ n e. refl;
      clean = λ n fn e d i. cc d;
      readers = λ m r h. cc h;
      running = λ r h. cc h;
    };
    shows = λ e fn v em there quiet. cc there;
  };
  idle = refl;
  pending = refl;
}

-- So it is once the effect is made.
started-IsReady : IsReady graph new_store.value [] started
unfolding eval eval_fn
started-IsReady =
    let (s', ran, ready, wrote) =
      run_effect-IsReady graph new_store.value 4 9 4 (read 3 give) 4 new_store (omega arith) refl
        refl new_store-IsReady in
    subst (IsReady graph new_store.value []) (sym (ap (λ c. c.1) ran)) ready

-- The sum, read in the new store.
get-eval_example :
    (s' : Store ℕ) × (get graph 9 3 new_store ≡ (ok 4, s'))
    × IsFresh graph new_store.value s'
    × Keeps graph new_store s'
    × IsLive graph s' 3
unfolding eval eval_fn
get-eval_example =
    get-eval graph new_store.value 4 9 3 4 new_store (omega arith) refl
      new_store-IsReady.steady.fresh refl

diamond_bounded : (f : Code ℕ) (m : ℕ) (fn : Code ℕ) → diamond f m ≡ computed fn → m < 4
diamond_bounded f zero fn e = omega arith
diamond_bounded f (suc zero) fn e = omega arith
diamond_bounded f (suc (suc zero)) fn e = omega arith
diamond_bounded f (suc (suc (suc zero))) fn e = omega arith
diamond_bounded f (suc (suc (suc (suc m)))) fn e = cc e

diamond-IsFinite : (f : Code ℕ) → IsFinite (graph_of f) 4
diamond-IsFinite f = record { bounded = diamond_bounded f; shuffles = λ r xs. refl }

diamond-AllGive :
    (f : Code ℕ) (state : ℕ → ℕ) (w : ℕ)
    → eval_fn (eval (diamond f) state 4) (read 3 give) ≡ some w
    → AllGive (graph_of f) state 4
diamond-AllGive f state w h zero fn e = cc e
diamond-AllGive f state w h (suc zero) fn e = cc e
diamond-AllGive f state w h (suc (suc zero)) fn e = cc e
diamond-AllGive f state w h (suc (suc (suc zero))) fn e = cc e
diamond-AllGive f state w h (suc (suc (suc (suc m)))) fn e =
    let same : read 3 give ≡ fn = cc e in
    subst (λ x. (u : ℕ) × (eval_fn (eval (diamond f) state 4) x ≡ some u)) same (w, h)

set-Updates_example :
    Updates graph (set_at 0 10 new_store.value) 4 started (set graph 9 0 10 started)
unfolding eval eval_fn
set-Updates_example =
    set-Updates graph 4 new_store.value 4 9 0 10 started (diamond-IsFinite _)
      (λ a b. (nat_eq_iff a b).0) (omega arith) (omega arith) refl
      (diamond-AllGive _ (set_at 0 10 new_store.value) 31 refl) started-IsReady

only_second : (f f' : Code ℕ) (m : ℕ) → nat_eq m 2 ≡ false → diamond f' m ≡ diamond f m
only_second f f' zero h = refl
only_second f f' (suc zero) h = refl
only_second f f' (suc (suc zero)) h = cc h
only_second f f' (suc (suc (suc zero))) h = refl
only_second f f' (suc (suc (suc (suc m)))) h = refl

mark_stale-Updates_example :
    Updates
      (graph_of plus_three)
      new_store.value
      4
      started
      (mark_stale (graph_of plus_three) 9 2 started)
unfolding eval eval_fn
mark_stale-Updates_example =
    mark_stale-Updates graph 4 (graph_of plus_three) new_store.value 4 9 2 plus_three started
      (diamond-IsFinite plus_three) (omega arith) (omega arith) refl (only_second _ plus_three)
      (diamond-AllGive plus_three new_store.value 6 refl) started-IsReady

-- Two derivations that read each other.
abbrev cycle : ℕ → Node ℕ
cycle zero = computed (read 1 (λ b. give (b + 1)))
cycle n = computed (read 0 (λ a. give (a + 1)))

abbrev looped : Graph ℕ
looped = record { node_of = cycle; equals = nat_eq; order = λ ns. ns; tracks_edges = false }

-- The first read raises.
cycle_raises : (get looped 9 0 new_store).0 ≡ err (runtime_error "reactive cycle through computed")
unfolding get run_fn
cycle_raises = refl

-- The second read returns what the derivation held before.
cycle_second : (get looped 9 0 (get looped 9 0 new_store).1).0 ≡ ok 1
unfolding get run_fn subscribe
cycle_second = refl
