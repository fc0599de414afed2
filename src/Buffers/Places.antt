-- ===== src/Buffers/Places.antt =====
-- The addresses of the binary values in a value and their bytes, in the order of the walk, and that
-- these are what the walk appends to its two lists.
use cositos.Base.{ℕ, suc, ◌≡◌, refl, sym, ap, ◌∙◌, List, [], ◌∷◌, ◌++◌, append-nil, append_assoc}
use cositos.Value.{
  pos, Key, index, Address, Bytes, Value, null, bool, int, str, opaque, bytes, seq, dict, Items,
  nil, cons, Fields, end, field,
}
use cositos.Buffers.{Out}
use cositos.Buffers.Recursive.{note, note_items, note_fields}

-- Every address, below another.
abbrev pub beneath : Address → List Address → List Address
beneath p [] = []
beneath p (a ∷ ls) = (p ++ a) ∷ beneath p ls

pub beneath-append :
    (p : Address) (ls bs : List Address) → beneath p (ls ++ bs) ≡ beneath p ls ++ beneath p bs
beneath-append p [] bs = refl
beneath-append p (a ∷ ls) bs = ap (λ l. (p ++ a) ∷ l) (beneath-append p ls bs)

pub beneath-beneath :
    (p q : Address) (ls : List Address) → beneath p (beneath q ls) ≡ beneath (p ++ q) ls
beneath-beneath p q [] = refl
beneath-beneath p q (a ∷ ls) = rw (append_assoc, beneath-beneath p q ls)

pub beneath-nil : (ls : List Address) → beneath [] ls ≡ ls
beneath-nil [] = refl
beneath-nil (a ∷ ls) = ap (λ l. a ∷ l) (beneath-nil ls)

-- The addresses of the binary values, from the value down.
unfoldable mutual
  pub places : Value → List Address
  places (bytes b) = [] ∷ []
  places (seq k i xs) = places_items 0 xs
  places (dict i fs) = places_fields fs
  places null = []
  places (bool b) = []
  places (int z) = []
  places (str s) = []
  places (opaque n) = []

  pub places_items : ℕ → Items → List Address
  places_items n nil = []
  places_items n (cons x xs) = beneath (index (pos n) ∷ []) (places x) ++ places_items (suc n) xs

  pub places_fields : Fields → List Address
  places_fields end = []
  places_fields (field k v fs) = beneath (k ∷ []) (places v) ++ places_fields fs

-- The bytes at those addresses, in the same order.
unfoldable mutual
  pub payloads : Value → List Bytes
  payloads (bytes b) = b ∷ []
  payloads (seq k i xs) = payloads_items xs
  payloads (dict i fs) = payloads_fields fs
  payloads null = []
  payloads (bool b) = []
  payloads (int z) = []
  payloads (str s) = []
  payloads (opaque n) = []

  pub payloads_items : Items → List Bytes
  payloads_items nil = []
  payloads_items (cons x xs) = payloads x ++ payloads_items xs

  pub payloads_fields : Fields → List Bytes
  payloads_fields end = []
  payloads_fields (field k v fs) = payloads v ++ payloads_fields fs

abbrev pub appended : Out → Address → List Address → List Bytes → Out
appended out p ls bs = record { paths = out.paths ++ beneath p ls; buffers = out.buffers ++ bs }

appended-append :
    (out : Out) (p q : Address) (ls cs : List Address) (bs ds : List Bytes)
    → appended (appended out (p ++ q) ls bs) p cs ds
      ≡ appended out p (beneath q ls ++ cs) (bs ++ ds)
appended-append out p q ls cs bs ds = simp (beneath-append, beneath-beneath, append_assoc)

appended-nil : (out : Out) (p : Address) → out ≡ appended out p [] []
appended-nil out p =
    λ i. record { paths = sym (append-nil out.paths) i; buffers = sym (append-nil out.buffers) i }

mutual
  unfolding note places payloads

  pub noted :
      (path : Address) (key : Key) (v : Value) (out : Out)
      → note path key v out ≡ appended out (path ++ key ∷ []) (places v) (payloads v)
  noted path key null out = appended-nil out (path ++ key ∷ [])
  noted path key (bool b) out = appended-nil out (path ++ key ∷ [])
  noted path key (int z) out = appended-nil out (path ++ key ∷ [])
  noted path key (str s) out = appended-nil out (path ++ key ∷ [])
  noted path key (opaque n) out = appended-nil out (path ++ key ∷ [])
  noted path key (bytes b) out = rw append-nil
  noted path key (seq k i xs) out = noted_items (path ++ key ∷ []) 0 xs out
  noted path key (dict i fs) out = noted_fields (path ++ key ∷ []) fs out

  pub noted_items :
      (path : Address) (n : ℕ) (xs : Items) (out : Out)
      → note_items path n xs out ≡ appended out path (places_items n xs) (payloads_items xs)
  noted_items path n nil out = appended-nil out path
  noted_items path n (cons x xs) out =
      rw (noted path (index (pos n)) x out)
        (noted_items path (suc n) xs _ ∙ appended-append out path (index (pos n) ∷ []) _ _ _ _)

  pub noted_fields :
      (path : Address) (fs : Fields) (out : Out)
      → note_fields path fs out ≡ appended out path (places_fields fs) (payloads_fields fs)
  noted_fields path end out = appended-nil out path
  noted_fields path (field k v fs) out =
      rw (noted path k v out) (noted_fields path fs _ ∙ appended-append out path (k ∷ []) _ _ _ _)
