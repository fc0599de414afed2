-- ===== src/Reactive/Tracked.antt =====
-- What a store knows of a derivation that has been computed: the objects that it has read, with the
-- values that they still have.
use mathlib.Core.Path.{subst}
use cositos.Base.{ℕ, ◌≡◌, refl, sym, ap, ◌∙◌, true, false, nat_eq}
use cositos.Reactive.{Code, Graph, give, raise, read, Node, signal, computed, effect, Store, is_in}
use cositos.Reactive.Sets.{apart}

module _ {V : Type 0} (g : Graph V) where
  -- An object whose value can be taken as it is: a signal, or a derivation that is clean and not being
  -- computed.
  abbrev pub LiveNode : Store V → ℕ → Node V → Type 0
  LiveNode s m signal = Unit
  LiveNode s m (computed fn) = (s.dirty m ≡ false) × (is_in m s.recompute_stack ≡ false)
  LiveNode s m (effect fn) = ⊥

  abbrev pub IsLive : Store V → ℕ → Type 0
  IsLive s m = LiveNode s m (g.node_of m)

  -- An object that a read leaves subscribed to what it reads: all but the dirty derivations.
  abbrev pub SettledNode : Store V → ℕ → Node V → Type 0
  SettledNode s r signal = Unit
  SettledNode s r (computed fn) = s.dirty r ≡ false
  SettledNode s r (effect fn) = Unit

  abbrev pub IsSettled : Store V → ℕ → Type 0
  IsSettled s r = SettledNode s r (g.node_of r)

  abbrev pub ReaderNode : Node V → Type 0
  ReaderNode signal = ⊥
  ReaderNode node = Unit

  abbrev pub IsReader : ℕ → Type 0
  IsReader r = ReaderNode (g.node_of r)

  -- The function, with the values that the objects have now, gives the value, and everything that it
  -- reads is live and has the reader among its subscribers.
  abbrev pub Tracks : Store V → ℕ → Code V → V → Type 0
  Tracks s n (give w) v = v ≡ w
  Tracks s n (raise e) v = ⊥
  Tracks s n (read m k) v = (is_in n (s.subs m) ≡ true) × IsLive s m × Tracks s n (k (s.value m)) v

  pub Tracks-moved :
      (s s' : Store V) (n : ℕ)
      → ((m : ℕ)
          → is_in n (s.subs m) ≡ true
          → IsLive s m
          → (is_in n (s'.subs m) ≡ true) × IsLive s' m × (s'.value m ≡ s.value m))
      → (fn : Code V) (v : V) → Tracks s n fn v
      → Tracks s' n fn v
  Tracks-moved s s' n moved (give w) v t = t
  Tracks-moved s s' n moved (raise e) v t = t
  Tracks-moved s s' n moved (read m k) v (there, live, rest) =
      let (there', live', same) = moved m there live in
      (
        there',
        live',
        subst (λ u. Tracks s' n (k u) v) (sym same)
            (Tracks-moved s s' n moved (k (s.value m)) v rest),
      )

  pub LiveNode-kept :
      (s s' : Store V) (m : ℕ) (node : Node V)
      → (s.dirty m ≡ false → s'.dirty m ≡ false)
      → (is_in m s.recompute_stack ≡ false → is_in m s'.recompute_stack ≡ false)
      → LiveNode s m node
      → LiveNode s' m node
  LiveNode-kept s s' m signal d i live = tt
  LiveNode-kept s s' m (computed fn) d i live = (d live.0, i live.1)
  LiveNode-kept s s' m (effect fn) d i live = live

  pub SettledNode-kept :
      (s s' : Store V) (r : ℕ) (node : Node V)
      → (s.dirty r ≡ false → s'.dirty r ≡ false)
      → SettledNode s r node
      → SettledNode s' r node
  SettledNode-kept s s' r signal d h = tt
  SettledNode-kept s s' r (computed fn) d h = d h
  SettledNode-kept s s' r (effect fn) d h = tt

  -- A dirty derivation is neither live nor settled, and one that is being computed is not live.
  pub dirty-IsLive :
      (s : Store V) (m n : ℕ) (fn : Code V)
      → g.node_of n ≡ computed fn
      → s.dirty n ≡ true
      → IsLive s m
      → nat_eq m n ≡ false
  dirty-IsLive s m n fn e d live =
      apart (IsLive s) m n live (λ h. let h' = subst (LiveNode s n) e h in cc (d, h'.0))

  pub dirty-IsSettled :
      (s : Store V) (m n : ℕ) (fn : Code V)
      → g.node_of n ≡ computed fn
      → s.dirty n ≡ true
      → IsSettled s m
      → nat_eq m n ≡ false
  dirty-IsSettled s m n fn e d settled =
      apart (IsSettled s) m n settled (λ h. let h' = subst (SettledNode s n) e h in cc (d, h'))

  pub running-IsLive :
      (s : Store V) (m n : ℕ) (fn : Code V)
      → g.node_of n ≡ computed fn
      → is_in n s.recompute_stack ≡ true
      → IsLive s m
      → nat_eq m n ≡ false
  running-IsLive s m n fn e d live =
      apart (IsLive s) m n live (λ h. let h' = subst (LiveNode s n) e h in cc (d, h'.1))

  -- What a read leaves as it was.
  pub record Keeps (s s' : Store V) : Type 0 where
    pub stack : s'.recompute_stack ≡ s.recompute_stack
    pub current : s'.current ≡ s.current
    pub pending : s'.pending ≡ s.pending
    pub written : s'.written ≡ s.written
    pub dirty : (m : ℕ) → s.dirty m ≡ false → s'.dirty m ≡ false
    pub value : (m : ℕ) → IsLive s m → s'.value m ≡ s.value m
    pub subs : (r m : ℕ) → IsSettled s r → is_in r (s.subs m) ≡ true → is_in r (s'.subs m) ≡ true

  pub Keeps-IsLive : (s s' : Store V) → Keeps s s' → (m : ℕ) → IsLive s m → IsLive s' m
  Keeps-IsLive s s' k m live =
      LiveNode-kept s s' m (g.node_of m) (k.dirty m) (λ i. ap (is_in m) k.stack ∙ i) live

  pub Keeps-IsSettled : (s s' : Store V) → Keeps s s' → (m : ℕ) → IsSettled s m → IsSettled s' m
  Keeps-IsSettled s s' k m settled = SettledNode-kept s s' m (g.node_of m) (k.dirty m) settled

  pub Keeps-trans : (s s' s'' : Store V) → Keeps s s' → Keeps s' s'' → Keeps s s''
  Keeps-trans s s' s'' k l = record {
    stack = l.stack ∙ k.stack;
    current = l.current ∙ k.current;
    pending = l.pending ∙ k.pending;
    written = l.written ∙ k.written;
    dirty = λ m h. l.dirty m (k.dirty m h);
    value = λ m live. l.value m (Keeps-IsLive s s' k m live) ∙ k.value m live;
    subs = λ r m settled h. l.subs r m (Keeps-IsSettled s s' k r settled) (k.subs r m settled h);
  }

  pub Keeps-refl : (s : Store V) → Keeps s s
  Keeps-refl s = record {
    stack = refl;
    current = refl;
    pending = refl;
    written = refl;
    dirty = λ m h. h;
    value = λ m live. refl;
    subs = λ r m settled h. h;
  }

  pub Keeps-Tracks :
      (s s' : Store V)
      → Keeps s s'
      → (n : ℕ) → IsSettled s n
      → (fn : Code V) (v : V) → Tracks s n fn v
      → Tracks s' n fn v
  Keeps-Tracks s s' k n settled fn v t =
      Tracks-moved s s' n
        (λ m there live. (k.subs n m settled there, Keeps-IsLive s s' k m live, k.value m live)) fn
        v t

  pub clean-IsSettled :
      (s : Store V) (n : ℕ) (fn : Code V)
      → g.node_of n ≡ computed fn
      → s.dirty n ≡ false
      → IsSettled s n
  clean-IsSettled s n fn e d = subst (SettledNode s n) (sym e) d
