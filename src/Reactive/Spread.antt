-- ===== src/Reactive/Spread.antt =====
-- What an invalidation changes: more derivations are dirty, and more effects pending.
use cositos.Base.{ℕ, ◌≡◌, refl, ap, ◌∙◌, true, false, Bool-cases, ◌⊎◌, inl, inr}
use cositos.Reactive.{Graph, Node, signal, computed, effect, Store, is_in}
use cositos.Reactive.Sets.{IsOnce}

module _ {V : Type 0} (g : Graph V) where
  abbrev pub MarkedNode : Store V → ℕ → Node V → Type 0
  MarkedNode s r signal = ⊥
  MarkedNode s r (computed fn) = s.dirty r ≡ true
  MarkedNode s r (effect fn) = is_in r s.pending ≡ true

  -- A derivation that is dirty, or an effect that is pending.
  abbrev pub IsMarked : Store V → ℕ → Type 0
  IsMarked s r = MarkedNode s r (g.node_of r)

  abbrev pub EffectNode : Node V → Type 0
  EffectNode (effect fn) = Unit
  EffectNode node = ⊥

  -- What has become dirty has all its subscribers marked; nothing else than marks has changed.
  pub record Spreads (s s' : Store V) : Type 0 where
    pub stack : s'.recompute_stack ≡ s.recompute_stack
    pub current : s'.current ≡ s.current
    pub value : s'.value ≡ s.value
    pub subs : s'.subs ≡ s.subs
    pub written : s'.written ≡ s.written
    pub dirty : (m : ℕ) → s.dirty m ≡ true → s'.dirty m ≡ true
    pub pending : (r : ℕ) → is_in r s.pending ≡ true → is_in r s'.pending ≡ true
    pub once : IsOnce s.pending → IsOnce s'.pending
    pub effects :
        (r : ℕ) → is_in r s'.pending ≡ true → (is_in r s.pending ≡ true) ⊎ EffectNode (g.node_of r)
    pub reached :
        (m r : ℕ)
        → s.dirty m ≡ false
        → s'.dirty m ≡ true
        → is_in r (s.subs m) ≡ true
        → IsMarked s' r

  pub MarkedNode-kept :
      (s s' : Store V) (r : ℕ) (node : Node V)
      → Spreads s s'
      → MarkedNode s r node
      → MarkedNode s' r node
  MarkedNode-kept s s' r signal k h = h
  MarkedNode-kept s s' r (computed fn) k h = k.dirty r h
  MarkedNode-kept s s' r (effect fn) k h = k.pending r h

  pub Spreads-refl : (s : Store V) → Spreads s s
  Spreads-refl s = record {
    stack = refl;
    current = refl;
    value = refl;
    subs = refl;
    written = refl;
    dirty = λ m h. h;
    pending = λ r h. h;
    once = λ o. o;
    effects = λ r h. inl h;
    reached = λ m r h h' i. cc (h, h');
  }

  pub Spreads-trans : (s s' s'' : Store V) → Spreads s s' → Spreads s' s'' → Spreads s s''
  Spreads-trans s s' s'' k l = record {
    stack = l.stack ∙ k.stack;
    current = l.current ∙ k.current;
    value = l.value ∙ k.value;
    subs = l.subs ∙ k.subs;
    written = l.written ∙ k.written;
    dirty = λ m h. l.dirty m (k.dirty m h);
    pending = λ r h. l.pending r (k.pending r h);
    once = λ o. l.once (k.once o);
    effects = λ r h. elim (l.effects r h) [ inl before ↦ k.effects r before | inr e ↦ inr e ];
    reached = λ m r clean dirty i. elim (Bool-cases (s'.dirty m)) [
      | inl early ↦ MarkedNode-kept s' s'' r (g.node_of r) l (k.reached m r clean early i)
      | inr late ↦ l.reached m r late dirty (ap (λ f. is_in r (f m)) k.subs ∙ i)
    ];
  }
