-- ===== src/Buffers/Put.antt =====
-- `put_buffers` of src/cositos/buffers.py. It writes into the state in place; the model returns the
-- state that it leaves. No object stands at two places of such a state, since it has just come from
-- `remove_buffers`, from JSON, or from a deep copy of JSON.
pub mod Below
use cositos.Base.{ℕ, zero, suc, ◌+◌, String, Option, none, some, List, [], ◌∷◌, length, get_elem?}
use cositos.Value.{
  ℤ, pos, Key, name, index, Address, list_kind, tuple_kind, Bytes, Value, null, bool, int, str,
  opaque, bytes, seq, dict, Items,
}
use cositos.Value.Dict.{lookup, insert}
use cositos.Value.Seq.{size, get_item?, set_item, position}
use cositos.Errors.{
  Error, key_error, index_error, type_error, count_mismatch, Result, ok, err, ◌>>=◌,
}

-- The characters of a text, each as a text of its own.
abbrev characters : String → List Value
characters String.[] = []
characters (String.◌∷◌ c s) = str (String.◌∷◌ c String.[]) ∷ characters s

abbrev or_error : Error → Option Value → Result Value
or_error e none = err e
or_error e (some v) = ok v

abbrev at_position : Option ℕ → (ℕ → Option Value) → Result Value
at_position none get = err index_error
at_position (some n) get = or_error index_error (get n)

abbrev int_of : Option ℕ → Option Value
int_of none = none
int_of (some n) = some (int (pos n))

-- `obj[key]`
unfoldable pub get_item : Value → Key → Result Value
get_item (dict i fs) k = or_error key_error (lookup k fs)
get_item (seq s i xs) (index z) = at_position (position (size xs) z) (get_item? xs)
get_item (str s) (index z) =
    at_position (position (length (characters s)) z) (get_elem? (characters s))
get_item (bytes b) (index z) = at_position (position (length b) z) (λ n. int_of (get_elem? b n))
get_item v k = err type_error

abbrev write : Option ℕ → (ℕ → Value) → Result Value
write none f = err index_error
write (some n) f = ok (f n)

-- `obj[key] = value`, where the value is binary: only a list and a dict take it.
unfoldable pub assign : Value → Key → Value → Result Value
assign (dict i fs) k v = ok (dict i (insert k v fs))
assign (seq list_kind i xs) (index z) v =
    write (position (size xs) z) (λ n. seq list_kind i (set_item xs n v))
assign v k w = err type_error

abbrev replace_at : Items → Option ℕ → Value → Items
replace_at xs none v = xs
replace_at xs (some n) v = set_item xs n v

-- The container after an element of it has been changed in place.
unfoldable pub with_child : Value → Key → Value → Value
with_child (dict i fs) k c = dict i (insert k c fs)
with_child (seq s i xs) (index z) c = seq s i (replace_at xs (position (size xs) z) c)
with_child v k c = v

-- the body of the loop: `path[:-1]` is followed, and `path[-1]` is assigned to
unfoldable pub put : Value → Address → Value → Result Value
put obj [] buffer = err index_error
put obj (k ∷ []) buffer = assign obj k buffer
put obj (k ∷ j ∷ path) buffer = do
  child ← get_item obj k
  changed ← put child (j ∷ path) buffer
  ok (with_child obj k changed)

-- `zip(..., strict=True)` raises when one of the two lists ends before the other.
unfoldable pub put_buffers : Value → List Address → List Bytes → Result Value
put_buffers state [] [] = ok state
put_buffers state (path ∷ paths) (buffer ∷ buffers) = do
  state' ← put state path (bytes buffer)
  put_buffers state' paths buffers
put_buffers state [] (buffer ∷ buffers) = err count_mismatch
put_buffers state (path ∷ paths) [] = err count_mismatch
