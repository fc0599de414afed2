-- ===== src/Buffers/Faults.antt =====
-- When the walk meets an error: just when containers nest too deep, or one is inside itself.
use Prim.Native.Nat.{max}
use cositos.Base.{
  ℕ, suc, ◌+◌, ◌≤◌, ◌≡◌, refl, ◌↔◌, Bool, false, Option, none, some, List, [], ◌∷◌, ◌++◌,
  if◌then◌else◌, arith, first, ltb,
}
use cositos.Value.{
  pos, Key, index, Address, Ident, object, fresh, ident_mem, Value, null, bool, int, str, opaque,
  bytes, seq, dict, Items, nil, cons, Fields, end, field,
}
use cositos.Buffers.{max_depth}
use cositos.Buffers.Recursive.{fault, fault_items, fault_fields}
use cositos.Buffers.Removed.{fault_of}

-- How deep containers nest; a value that is no container has height 0.
unfoldable mutual
  pub height : Value → ℕ
  height (seq k i xs) = suc (height_items xs)
  height (dict i fs) = suc (height_fields fs)
  height null = 0
  height (bool b) = 0
  height (int z) = 0
  height (str s) = 0
  height (opaque n) = 0
  height (bytes b) = 0

  pub height_items : Items → ℕ
  height_items nil = 0
  height_items (cons x xs) = max (height x) (height_items xs)

  pub height_fields : Fields → ℕ
  height_fields end = 0
  height_fields (field k v fs) = max (height v) (height_fields fs)

-- No container stands among its own ancestors, `anc` among them.
abbrev mutual
  pub Acyclic : List Ident → Value → Type 0
  Acyclic anc (seq k i xs) = (ident_mem i anc ≡ false) × AcyclicItems (anc ++ i ∷ []) xs
  Acyclic anc (dict i fs) = (ident_mem i anc ≡ false) × AcyclicFields (anc ++ i ∷ []) fs
  Acyclic anc v = Unit

  pub AcyclicItems : List Ident → Items → Type 0
  AcyclicItems anc nil = Unit
  AcyclicItems anc (cons x xs) = Acyclic anc x × AcyclicItems anc xs

  pub AcyclicFields : List Ident → Fields → Type 0
  AcyclicFields anc end = Unit
  AcyclicFields anc (field k v fs) = Acyclic anc v × AcyclicFields anc fs

-- The two checks at a container, as one test.
checks_pass :
    {A : Type 0} (d : ℕ) (b : Bool) (e f : A) (o : Option A)
    → (if ltb max_depth d then some e else if b then some f else o) ≡ none
    → (d ≤ max_depth) × (b ≡ false) × (o ≡ none)
checks_pass d b e f o h = ground arith

pass_checks :
    {A : Type 0} (d : ℕ) (b : Bool) (e f : A) (o : Option A)
    → d ≤ max_depth
    → b ≡ false
    → o ≡ none
    → (if ltb max_depth d then some e else if b then some f else o) ≡ none
pass_checks d b e f o h p q = ground arith

first-none : {A : Type 0} (a b : Option A) → first a b ≡ none → (a ≡ none) × (b ≡ none)
first-none none b h = (refl, h)
first-none (some x) b h = cc

none-first : {A : Type 0} (a b : Option A) → a ≡ none → b ≡ none → first a b ≡ none
none-first a b h k = rw (h, k)

mutual
  unfolding fault height

  fine_fault :
      (path : Address) (anc : List Ident) (d : ℕ) (key : Key) (v : Value)
      → d ≤ max_depth
      → fault path anc d key v ≡ none
      → (d + height v ≤ max_depth) × Acyclic anc v
  fine_fault path anc d key null b h = (omega arith, tt)
  fine_fault path anc d key (bool x) b h = (omega arith, tt)
  fine_fault path anc d key (int z) b h = (omega arith, tt)
  fine_fault path anc d key (str s) b h = (omega arith, tt)
  fine_fault path anc d key (opaque n) b h = (omega arith, tt)
  fine_fault path anc d key (bytes x) b h = (omega arith, tt)
  fine_fault path anc d key (seq k i xs) b h =
      let (p, q, r) = checks_pass (suc d) (ident_mem i anc) _ _ _ h in
      let (s, t) = fine_items (path ++ key ∷ []) (anc ++ i ∷ []) (suc d) 0 xs p r in
      (omega arith, (q, t))
  fine_fault path anc d key (dict i fs) b h =
      let (p, q, r) = checks_pass (suc d) (ident_mem i anc) _ _ _ h in
      let (s, t) = fine_fields (path ++ key ∷ []) (anc ++ i ∷ []) (suc d) fs p r in
      (omega arith, (q, t))

  fine_items :
      (path : Address) (anc : List Ident) (d n : ℕ) (xs : Items)
      → d ≤ max_depth
      → fault_items path anc d n xs ≡ none
      → (d + height_items xs ≤ max_depth) × AcyclicItems anc xs
  fine_items path anc d n nil b h = (omega arith, tt)
  fine_items path anc d n (cons x xs) b h =
      let (p, q) = first-none (fault path anc d (index (pos n)) x) _ h in
      let (r, s) = fine_fault path anc d (index (pos n)) x b p in
      let (t, u) = fine_items path anc d (suc n) xs b q in (omega arith, (s, u))

  fine_fields :
      (path : Address) (anc : List Ident) (d : ℕ) (fs : Fields)
      → d ≤ max_depth
      → fault_fields path anc d fs ≡ none
      → (d + height_fields fs ≤ max_depth) × AcyclicFields anc fs
  fine_fields path anc d end b h = (omega arith, tt)
  fine_fields path anc d (field k v fs) b h =
      let (p, q) = first-none (fault path anc d k v) _ h in
      let (r, s) = fine_fault path anc d k v b p in
      let (t, u) = fine_fields path anc d fs b q in (omega arith, (s, u))

mutual
  unfolding fault height

  fault_fine :
      (path : Address) (anc : List Ident) (d : ℕ) (key : Key) (v : Value)
      → d + height v ≤ max_depth
      → Acyclic anc v
      → fault path anc d key v ≡ none
  fault_fine path anc d key null b h = refl
  fault_fine path anc d key (bool x) b h = refl
  fault_fine path anc d key (int z) b h = refl
  fault_fine path anc d key (str s) b h = refl
  fault_fine path anc d key (opaque n) b h = refl
  fault_fine path anc d key (bytes x) b h = refl
  fault_fine path anc d key (seq k i xs) b h =
      pass_checks (suc d) (ident_mem i anc) _ _ _ (omega arith) h.0
        (items_fine (path ++ key ∷ []) (anc ++ i ∷ []) (suc d) 0 xs (omega arith) h.1)
  fault_fine path anc d key (dict i fs) b h =
      pass_checks (suc d) (ident_mem i anc) _ _ _ (omega arith) h.0
        (fields_fine (path ++ key ∷ []) (anc ++ i ∷ []) (suc d) fs (omega arith) h.1)

  items_fine :
      (path : Address) (anc : List Ident) (d n : ℕ) (xs : Items)
      → d + height_items xs ≤ max_depth
      → AcyclicItems anc xs
      → fault_items path anc d n xs ≡ none
  items_fine path anc d n nil b h = refl
  items_fine path anc d n (cons x xs) b h =
      none-first _ _ (fault_fine path anc d (index (pos n)) x (omega arith) h.0)
        (items_fine path anc d (suc n) xs (omega arith) h.1)

  fields_fine :
      (path : Address) (anc : List Ident) (d : ℕ) (fs : Fields)
      → d + height_fields fs ≤ max_depth
      → AcyclicFields anc fs
      → fault_fields path anc d fs ≡ none
  fields_fine path anc d end b h = refl
  fields_fine path anc d (field k v fs) b h =
      none-first _ _ (fault_fine path anc d k v (omega arith) h.0)
        (fields_fine path anc d fs (omega arith) h.1)

not_mem-nil : (i : Ident) → ident_mem i [] ≡ false
unfolding ident_mem
not_mem-nil (object n) = refl
not_mem-nil fresh = refl

fine_of : (v : Value) → fault_of v ≡ none → (height v ≤ suc max_depth) × Acyclic [] v
unfolding fault_of height
fine_of (seq k i xs) h =
    let (p, q) = fine_items [] (i ∷ []) 0 0 xs (omega arith) h in (omega arith, (not_mem-nil i, q))
fine_of (dict i fs) h =
    let (p, q) = fine_fields [] (i ∷ []) 0 fs (omega arith) h in (omega arith, (not_mem-nil i, q))
fine_of null h = (omega arith, tt)
fine_of _ h = (omega arith, tt)

of_fine : (v : Value) → height v ≤ suc max_depth → Acyclic [] v → fault_of v ≡ none
unfolding fault_of height
of_fine (seq k i xs) b h = items_fine [] (i ∷ []) 0 0 xs (omega arith) h.1
of_fine (dict i fs) b h = fields_fine [] (i ∷ []) 0 fs (omega arith) h.1
of_fine null b h = refl
of_fine _ b h = refl

-- The walk meets no error just if containers nest at most `max_depth` below the outermost and none
-- is inside itself.
pub fault_of-none_iff :
    (v : Value) → (fault_of v ≡ none) ↔ ((height v ≤ suc max_depth) × Acyclic [] v)
fault_of-none_iff v = (fine_of v, λ h. of_fine v h.0 h.1)
