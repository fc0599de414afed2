-- ===== src/Buffers/Located.antt =====
-- Where the paths of `remove_buffers` lead in the state that it was given.
use cositos.Base.{
  ℕ, zero, suc, ◌+◌, ◌≤◌, ◌<◌, ◌≡◌, refl, ap, ◌∙◌, none, some, List, [], ◌∷◌, ◌++◌, length, arith,
}
use cositos.Value.{
  pos, Key, index, key_eq_iff, key_eq_refl, Address, Bytes, SeqKind, Ident, Value, null, bool, int,
  str, opaque, bytes, seq, dict, Items, nil, cons, Fields, end, field,
}
use cositos.Value.Dict.{lookup, Distinct}
use cositos.Value.Seq.{size, get_item?, position}
use cositos.Errors.{Result, ok, ◌>>=◌}
use cositos.Buffers.{Split, max_depth, remove_buffers}
use cositos.Buffers.Strip.{Tidy, TidyItems, TidyFields}
use cositos.Buffers.Faults.{height, height_items, height_fields}
use cositos.Buffers.Places.{
  beneath, places, places_items, places_fields, payloads, payloads_items, payloads_fields,
}
use cositos.Buffers.Removed.{split_of, unless_bytes}
use cositos.Buffers.Accepts.{IsAccepted, remove_buffers-IsAccepted}
use cositos.Buffers.Put.{get_item}

-- `v[k][j]...`, along a path
abbrev pub follow : Value → Address → Result Value
follow v [] = ok v
follow v (k ∷ p) = do child ← get_item v k; follow child p

-- Each path is not empty, has at most `n` keys, and leads to its buffer; there is one for each.
abbrev pub Located : ℕ → Value → List Address → List Bytes → Type 0
Located n v [] [] = Unit
Located n v (p ∷ ps) (b ∷ bs) =
    (0 < length p) × (length p ≤ n) × (follow v p ≡ ok (bytes b)) × Located n v ps bs
Located n v ps bs = ⊥

-- The same below a value, where a bare binary value has the empty path.
abbrev Found : ℕ → Value → List Address → List Bytes → Type 0
Found n v [] [] = Unit
Found n v (p ∷ ps) (b ∷ bs) = (length p ≤ n) × (follow v p ≡ ok (bytes b)) × Found n v ps bs
Found n v ps bs = ⊥

Located-append :
    (n : ℕ) (v : Value) (ps qs : List Address) (bs cs : List Bytes)
    → Located n v ps bs
    → Located n v qs cs
    → Located n v (ps ++ qs) (bs ++ cs)
Located-append n v [] qs [] cs h k = k
Located-append n v [] qs (b ∷ bs) cs h k = elim h [ ]
Located-append n v (p ∷ ps) qs [] cs h k = elim h [ ]
Located-append n v (p ∷ ps) qs (b ∷ bs) cs h k =
    (h.0, h.1, h.2, Located-append n v ps qs bs cs h.3 k)

Located-beneath :
    (n m : ℕ) (v w : Value) (k : Key) (ps : List Address) (bs : List Bytes)
    → get_item v k ≡ ok w
    → m < n
    → Found m w ps bs
    → Located n v (beneath (k ∷ []) ps) bs
Located-beneath n m v w k [] [] e l h = tt
Located-beneath n m v w k [] (b ∷ bs) e l h = elim h [ ]
Located-beneath n m v w k (p ∷ ps) [] e l h = elim h [ ]
Located-beneath n m v w k (p ∷ ps) (b ∷ bs) e l h =
    (omega arith, omega (arith, h.0), rw e (h.1), Located-beneath n m v w k ps bs e l h.2)

Found-Located :
    (n : ℕ) (v : Value) (ps : List Address) (bs : List Bytes) → Located n v ps bs → Found n v ps bs
Found-Located n v [] [] h = tt
Found-Located n v [] (b ∷ bs) h = elim h [ ]
Found-Located n v (p ∷ ps) [] h = elim h [ ]
Found-Located n v (p ∷ ps) (b ∷ bs) h = (h.1, h.2, Found-Located n v ps bs h.3)

-- The rest of a sequence from a position on, and the rest of a dict's entries.
abbrev Rest : Items → ℕ → Items → Type 0
Rest whole n xs = (j : ℕ) → get_item? whole (n + j) ≡ get_item? xs j

abbrev Within : Fields → Fields → Type 0
Within whole fs = (k : Key) (v : Value) → lookup k fs ≡ some v → lookup k whole ≡ some v

in_range : (xs : Items) (n : ℕ) (x : Value) → get_item? xs n ≡ some x → n < size xs
unfolding get_item?
in_range nil n x h = cc h
in_range (cons y xs) zero x h = omega arith
in_range (cons y xs) (suc n) x h = omega (arith, in_range xs n x h)

get_item-seq :
    (s : SeqKind) (i : Ident) (xs : Items) (n : ℕ) (x : Value)
    → get_item? xs n ≡ some x
    → get_item (seq s i xs) (index (pos n)) ≡ ok x
unfolding get_item position
get_item-seq s i xs n x h = ground (arith, in_range xs n x h)

head_Rest :
    (whole : Items) (n : ℕ) (x : Value) (xs : Items)
    → Rest whole n (cons x xs)
    → get_item? whole n ≡ some x
unfolding get_item?
head_Rest whole n x xs r = ground (arith, r 0)

tail_Rest :
    (whole : Items) (n : ℕ) (x : Value) (xs : Items)
    → Rest whole n (cons x xs)
    → Rest whole (suc n) xs
unfolding get_item?
tail_Rest whole n x xs r j = ap (get_item? whole) (omega arith) ∙ r (suc j)

get_item-dict :
    (i : Ident) (fs : Fields) (k : Key) (v : Value)
    → lookup k fs ≡ some v
    → get_item (dict i fs) k ≡ ok v
unfolding get_item
get_item-dict i fs k v h = rw h

head_entry : (k : Key) (v : Value) (fs : Fields) → lookup k (field k v fs) ≡ some v
unfolding lookup
head_entry k v fs = rw key_eq_refl

tail_entry :
    (j k : Key) (u v : Value) (fs : Fields)
    → lookup k fs ≡ none
    → lookup j fs ≡ some u
    → lookup j (field k v fs) ≡ some u
unfolding lookup
tail_entry j k u v fs new h = ground (arith, key_eq_iff k j)

mutual
  unfolding places payloads height

  places-Found : (v : Value) → Tidy v → Found (height v) v (places v) (payloads v)
  places-Found null t = tt
  places-Found (bool b) t = tt
  places-Found (int z) t = tt
  places-Found (str s) t = tt
  places-Found (opaque n) t = tt
  places-Found (bytes b) t = (omega arith, refl, tt)
  places-Found (seq k i xs) t = Found-Located _ _ _ _ (
      items_Located (suc (height_items xs)) k i xs 0 xs (λ j. ap (get_item? xs) (omega arith)) t
        (omega arith))
  places-Found (dict i fs) t =
      Found-Located _ _ _ _
        (fields_Located (suc (height_fields fs)) i fs fs (λ k v h. h) t.0 t.1 (omega arith))

  items_Located :
      (n : ℕ) (k : SeqKind) (i : Ident) (whole : Items) (m : ℕ) (xs : Items)
      → Rest whole m xs
      → TidyItems xs
      → height_items xs < n
      → Located n (seq k i whole) (places_items m xs) (payloads_items xs)
  items_Located n k i whole m nil r t h = tt
  items_Located n k i whole m (cons x xs) r t h =
      Located-append n (seq k i whole) (beneath (index (pos m) ∷ []) (places x))
        (places_items (suc m) xs) (payloads x) (payloads_items xs)
        (Located-beneath n (height x) (seq k i whole) x (index (pos m)) (places x) (payloads x)
          (get_item-seq k i whole m x (head_Rest whole m x xs r)) (omega (arith, h))
          (places-Found x t.0))
        (items_Located n k i whole (suc m) xs (tail_Rest whole m x xs r) t.1 (omega (arith, h)))

  fields_Located :
      (n : ℕ) (i : Ident) (whole fs : Fields)
      → Within whole fs
      → Distinct fs
      → TidyFields fs
      → height_fields fs < n
      → Located n (dict i whole) (places_fields fs) (payloads_fields fs)
  fields_Located n i whole end w d t h = tt
  fields_Located n i whole (field k v fs) w d t h =
      Located-append n (dict i whole) (beneath (k ∷ []) (places v)) (places_fields fs) (payloads v)
        (payloads_fields fs)
        (Located-beneath n (height v) (dict i whole) v k (places v) (payloads v)
          (get_item-dict i whole k v (w k v (head_entry k v fs))) (omega (arith, h))
          (places-Found v t.0))
        (fields_Located n i whole fs (λ j u h. w j u (tail_entry j k u v fs d.0 h)) d.1 t.1
          (omega (arith, h)))

value_Located :
    (n : ℕ) (v : Value)
    → Tidy v
    → height v ≤ n
    → Located n v (unless_bytes v (places v)) (unless_bytes v (payloads v))
unfolding places payloads height
value_Located n (seq k i xs) t h =
    items_Located n k i xs 0 xs (λ j. ap (get_item? xs) (omega arith)) t h
value_Located n (dict i fs) t h = fields_Located n i fs fs (λ k v h. h) t.0 t.1 h
value_Located n null t h = tt
value_Located n (bool b) t h = tt
value_Located n (int z) t h = tt
value_Located n (str s) t h = tt
value_Located n (opaque z) t h = tt
value_Located n (bytes b) t h = tt

-- Of an accepted state `remove_buffers` returns as many paths as buffers. Each path has at least one
-- key and at most one more than `max_depth`, and indexing the state along it gives its buffer.
pub remove_buffers-Located :
    (v : Value)
    → IsAccepted v
    → (s : Split) × (remove_buffers v ≡ ok s) × Located (suc max_depth) v s.buffer_paths s.buffers
unfolding split_of
remove_buffers-Located v h =
    (split_of v, remove_buffers-IsAccepted v h, value_Located (suc max_depth) v h.tidy h.shallow)
