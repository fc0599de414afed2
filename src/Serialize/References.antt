-- ===== src/Serialize/References.antt =====
-- `check_references` of src/cositos/serialize.py. A key of a document's state that is an integer is
-- taken to raise, and so is a state that is no dict.

pub mod Resolved
pub mod Sorted
pub mod Named
pub mod Written
use Prim.Native.Char.{Char, code}
use Prim.Native.String.{compare, ◌++◌ as text_append}
use Prim.Native.Nat.{Ordering}
use cositos.Base.{
  String, Bool, true, false, Option, none, some, List, [], ◌∷◌, ◌++◌, nat_eq, if◌then◌else◌,
}
use cositos.Value.{
  Key, name, index, Value, null, bool, int, str, opaque, bytes, seq, dict, Items, nil, cons, Fields,
  end, field,
}
use cositos.Value.Dict.{lookup}
use cositos.Errors.{Error, type_error, value_error, Result, ok, err, ◌>>=◌}
use cositos.Protocol.{get_or, empty_dict}
use cositos.Serialize.{get_from}

abbrev char_eq : Char → Char → Bool
char_eq c d = nat_eq (code c) (code d)

-- the text behind a prefix, if it starts with that
abbrev pub behind : String → String → Option String
behind String.[] s = some s
behind (String.◌∷◌ c p) String.[] = none
behind (String.◌∷◌ c p) (String.◌∷◌ d s) = if char_eq c d then behind p s else none

abbrev pub is_newline : Char → Bool
is_newline c = nat_eq (code c) 10

-- The text put in front of an optional one.
abbrev longer : Char → Option String → Option String
longer c none = none
longer c (some s) = some (String.◌∷◌ c s)

-- `.*$` of a regular expression, matched at the start of a text: `$` matches at the end and before
-- a newline that ends the text.
abbrev pub line : String → Option String
line String.[] = some String.[]
line (String.◌∷◌ c String.[]) =
    if is_newline c then some String.[] else some (String.◌∷◌ c String.[])
line (String.◌∷◌ c s) = if is_newline c then none else longer c (line s)

-- `(.+)$`
abbrev pub some_line : String → Option String
some_line String.[] = none
some_line (String.◌∷◌ c s) = if is_newline c then none else longer c (line s)

abbrev and_line : Option String → Option String
and_line none = none
and_line (some s) = some_line s

-- `_MODEL_REF.match(value)`, with its group
unfoldable pub model_ref : String → Option String
model_ref s = and_line (behind "IPY_MODEL_" s)

abbrev to_list : Option String → List String
to_list none = []
to_list (some s) = s ∷ []

-- `_referenced_ids`
unfoldable mutual
  pub referenced_ids : Value → List String
  referenced_ids (str s) = to_list (model_ref s)
  referenced_ids (dict i fs) = field_ids fs
  referenced_ids (seq k i xs) = item_ids xs
  referenced_ids null = []
  referenced_ids (bool b) = []
  referenced_ids (int z) = []
  referenced_ids (opaque z) = []
  referenced_ids (bytes b) = []

  pub item_ids : Items → List String
  item_ids nil = []
  item_ids (cons x xs) = referenced_ids x ++ item_ids xs

  pub field_ids : Fields → List String
  field_ids end = []
  field_ids (field k v fs) = referenced_ids v ++ field_ids fs

-- One more text in a sorted list that has each text once.
unfoldable pub insert_sorted : String → List String → List String
insert_sorted s [] = s ∷ []
insert_sorted s (t ∷ ts) = elim (compare s t) [
  | Ordering.lt ↦ s ∷ t ∷ ts
  | Ordering.eq ↦ t ∷ ts
  | Ordering.gt ↦ t ∷ insert_sorted s ts
]

-- `sorted({rid for rid in ... if rid not in present})`
unfoldable pub missing_ids : Fields → List String → List String
missing_ids present [] = []
missing_ids present (rid ∷ rids) = elim (lookup (name rid) present) [
  | none ↦ insert_sorted rid (missing_ids present rids)
  | some r ↦ missing_ids present rids
]

-- `sorted(dangling.items())`, one holder at a time. No holder stands twice.
unfoldable pub insert_holder :
    String × List String → List (String × List String) → List (String × List String)
insert_holder h [] = h ∷ []
insert_holder h (g ∷ hs) = elim (compare h.0 g.0) [
  | Ordering.gt ↦ g ∷ insert_holder h hs
  | _ ↦ h ∷ g ∷ hs
]

-- the holder, if it misses anything
abbrev pub note_missing :
    String → List String → List (String × List String) → List (String × List String)
note_missing holder [] hs = hs
note_missing holder (rid ∷ rids) hs = insert_holder (holder, rid ∷ rids) hs

abbrev pub holder_id : Key → Result String
holder_id (name s) = ok s
holder_id (index z) = err type_error

-- the loop over the records
unfoldable pub dangling : Fields → Fields → Result (List (String × List String))
dangling present end = ok []
dangling present (field k model_record rest) = do
  state ← get_from model_record (name "state") empty_dict
  holder ← holder_id k
  hs ← dangling present rest
  ok (note_missing holder (missing_ids present (referenced_ids state)) hs)

-- `separator.join(texts)`
abbrev joined : String → List String → String
joined separator [] = ""
joined separator (t ∷ []) = t
joined separator (t ∷ ts) = text_append t (text_append separator (joined separator ts))

abbrev details : List (String × List String) → List String
details [] = []
details ((holder, ids) ∷ hs) =
    text_append holder (text_append " -> " (joined ", " ids)) ∷ details hs

abbrev pub raise_dangling : List (String × List String) → Result (Unit {0})
raise_dangling [] = ok tt
raise_dangling (h ∷ hs) = err (
    value_error (
      text_append "dangling IPY_MODEL references (missing models): "
        (joined "; " (details (h ∷ hs)))))

abbrev pub check_state : Value → Result (Unit {0})
check_state (dict i state) = dangling state state >>= raise_dangling
check_state v = err type_error

unfoldable pub check_references : Fields → Result (Unit {0})
check_references doc = check_state (get_or doc (name "state") empty_dict)
