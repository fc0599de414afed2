-- ===== src/Buffers/Strip.antt =====
-- What the walk makes of a state, by structural recursion, and that the clones of the walk are this.
use cositos.Base.{◌≡◌, refl, Bool, true, false, ◌||◌, if◌then◌else◌}
use cositos.Value.{
  Key, fresh, list_kind, Value, null, bool, int, str, opaque, bytes, seq, dict, Items, nil, cons,
  Fields, end, field,
}
use cositos.Value.Dict.{Distinct}

-- Is the value binary, or does it hold a binary value?
unfoldable mutual
  pub holds : Value → Bool
  holds (bytes b) = true
  holds (seq k i xs) = holds_items xs
  holds (dict i fs) = holds_fields fs
  holds null = false
  holds (bool b) = false
  holds (int z) = false
  holds (str s) = false
  holds (opaque n) = false

  pub holds_items : Items → Bool
  holds_items nil = false
  holds_items (cons x xs) = holds x || holds_items xs

  pub holds_fields : Fields → Bool
  holds_fields end = false
  holds_fields (field k v fs) = holds v || holds_fields fs

-- An element of a list, with its result; a binary one leaves a placeholder.
abbrev pub in_seq : Value → Value → Value
in_seq (bytes b) r = null
in_seq v r = r

-- An entry of a dict, with its result; a binary one goes.
abbrev pub in_dict : Key → Value → Value → Fields → Fields
in_dict k (bytes b) r fs = fs
in_dict k v r fs = field k r fs

-- The state without its binary values. A container that holds none is left as it is.
unfoldable mutual
  pub strip : Value → Value
  strip (seq k i xs) = if holds_items xs then seq list_kind fresh (strip_items xs) else seq k i xs
  strip (dict i fs) = if holds_fields fs then dict fresh (strip_fields fs) else dict i fs
  strip null = null
  strip (bool b) = bool b
  strip (int z) = int z
  strip (str s) = str s
  strip (opaque n) = opaque n
  strip (bytes b) = bytes b

  pub strip_items : Items → Items
  strip_items nil = nil
  strip_items (cons x xs) = cons (in_seq x (strip x)) (strip_items xs)

  pub strip_fields : Fields → Fields
  strip_fields end = end
  strip_fields (field k v fs) = in_dict k v (strip v) (strip_fields fs)

-- Every dict in the value has distinct keys, as every Python dict has.
abbrev mutual
  pub Tidy : Value → Type 0
  Tidy (seq k i xs) = TidyItems xs
  Tidy (dict i fs) = Distinct fs × TidyFields fs
  Tidy v = Unit

  pub TidyItems : Items → Type 0
  TidyItems nil = Unit
  TidyItems (cons x xs) = Tidy x × TidyItems xs

  pub TidyFields : Fields → Type 0
  TidyFields end = Unit
  TidyFields (field k v fs) = Tidy v × TidyFields fs

-- Does the value hold a binary value inside?
abbrev pub inner : Value → Bool
inner (bytes b) = false
inner v = holds v

-- A value that holds no binary value inside is left as it is.
pub strip_same : (v : Value) → inner v ≡ false → strip v ≡ v
unfolding holds strip
strip_same (seq k i xs) h = rw h
strip_same (dict i fs) h = rw h
strip_same null h = refl
strip_same _ h = refl
