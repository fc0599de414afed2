-- ===== src/Embed.antt =====
-- src/cositos/embed.py: the escape of texts inside a script element, and the view identity that is
-- put into a document before it is rendered. Embed/Page has the page around them.
pub mod Escape
pub mod Harmless
pub mod Views
pub mod Exported
pub mod Page
pub mod Read
pub mod Elements
pub mod Snippet
pub mod Saved
mod Examples
use Prim.Native.Char.{Char, char, code}
use cositos.Base.{ℕ, String, Bool, true, false, List, [], ◌∷◌, ◌&&◌, ◌||◌, nat_eq, if◌then◌else◌}
use cositos.Value.{Key, name, fresh, Value, str, dict, Fields, end, field}
use cositos.Value.Dict.{insert, merge}
use cositos.Errors.{type_error, Result, ok, err, ◌>>=◌}
use cositos.Protocol.{view_identity, anywidget_module_version, get_or, empty_dict}

abbrev pub code_in : ℕ → List ℕ → Bool
code_in n [] = false
code_in n (m ∷ ms) = nat_eq n m || code_in n ms

-- The text starts with one character of each class in turn.
abbrev pub starts : List (List ℕ) → String → Bool
starts [] s = true
starts (cs ∷ p) String.[] = false
starts (cs ∷ p) (String.◌∷◌ c s) = code_in (code c) cs && starts p s

-- `script`, `/script` and `!--` under `re.IGNORECASE`, by the characters that each letter matches.
-- Python folds the long s to `s`, and the dotted capital and the dotless small i to `i`.
abbrev pub script_word : List (List ℕ)
script_word =
    (115 ∷ 83 ∷ 383 ∷ [])
    ∷ (99 ∷ 67 ∷ [])
    ∷ (114 ∷ 82 ∷ [])
    ∷ (105 ∷ 73 ∷ 304 ∷ 305 ∷ [])
    ∷ (112 ∷ 80 ∷ [])
    ∷ (116 ∷ 84 ∷ [])
    ∷ []

abbrev pub end_word : List (List ℕ)
end_word = (47 ∷ []) ∷ script_word

abbrev pub comment_word : List (List ℕ)
comment_word = (33 ∷ []) ∷ (45 ∷ []) ∷ (45 ∷ []) ∷ []

-- `(script|/script|!--)` at the start of a text
abbrev pub opens : String → Bool
opens s = starts script_word s || (starts end_word s || starts comment_word s)

abbrev pub is_less : Char → Bool
is_less c = nat_eq (code c) 60

-- `_SCRIPT_ESCAPE` at the start of a text
abbrev pub dangerous : Char → String → Bool
dangerous c s = is_less c && opens s

-- The text `\u003c`, of six characters, in front of another.
abbrev pub escaped_less : String → String
escaped_less s = String.◌∷◌ (char 92 tt) (
    String.◌∷◌ (char 117 tt) (
      String.◌∷◌ (char 48 tt)
        (String.◌∷◌ (char 48 tt) (String.◌∷◌ (char 51 tt) (String.◌∷◌ (char 99 tt) s)))))

-- `_escape_script`. The group that a match keeps holds no `<`, so that the scan can go on in front of
-- it.
unfoldable pub escape_script : String → String
escape_script String.[] = String.[]
escape_script (String.◌∷◌ c s) =
    let rest = escape_script s in if dangerous c s then escaped_less rest else String.◌∷◌ c rest

-- `view_identity(version)`, where a record gives the version
abbrev pub identity_of : Value → Fields
identity_of version = insert (name "_view_module_version") version (view_identity "")

-- `{**a, **b}`, where `b` may be no dict
abbrev pub merged : Fields → Value → Result Fields
merged fs (dict i gs) = ok (merge fs gs)
merged fs v = err type_error

-- the copy of one record
abbrev pub enriched_record : Value → Result Value
enriched_record (dict i fs) = do
  state ←
      merged (identity_of (get_or fs (name "model_module_version") (str anywidget_module_version)))
        (get_or fs (name "state") empty_dict)
  ok (dict fresh (insert (name "state") (dict fresh state) fs))
enriched_record v = err type_error

-- the loop over the records
unfoldable pub enriched : Fields → Result Fields
enriched end = ok end
enriched (field model_id r records) = do
  r' ← enriched_record r
  records' ← enriched records
  ok (field model_id r' records')

abbrev pub enriched_state : Value → Result Fields
enriched_state (dict i records) = enriched records
enriched_state v = err type_error

unfoldable pub with_view_identity : Fields → Result Fields
with_view_identity document = do
  records ← enriched_state (get_or document (name "state") empty_dict)
  ok (insert (name "state") (dict fresh records) document)
