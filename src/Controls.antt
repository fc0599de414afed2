-- ===== src/Controls.antt =====
-- src/cositos/contrib/controls.py: widgets of the controls catalog, as entries of a document. The
-- catalog's entry is a parameter of each function that builds one, and so are the id that
-- `uuid.uuid4().hex` would give and Python's `str`.
pub mod Choice
pub mod Boxes
pub mod Closed
pub mod Plain
pub mod Complete
pub mod Layout
mod Examples
use Prim.Native.String.{◌++◌ as text_append}
use text.Mathlib.Text.{◌==◌}
use cositos.Base.{
  ℕ, zero, suc, String, Bool, true, false, Option, none, some, List, [], ◌∷◌, ◌++◌, if◌then◌else◌,
}
use cositos.Value.{
  pos, name, fresh, list_kind, Value, null, int, str, seq, dict, Items, nil, cons, Fields, end,
  field,
}
use cositos.Value.Dict.{lookup, insert, remove, merge}
use cositos.Errors.{index_error, Result, ok, err, ◌>>=◌}
use cositos.Serialize.{ModelEntry}

-- The identity that a catalog entry or a companion carries.
pub record Identity : Type 0 where
  pub model_name : Value
  pub model_module : Value
  pub model_module_version : Value
  pub view_name : Value
  pub view_module : Value
  pub view_module_version : Value

-- a companion of the catalog, with its `key_in_default_state`
pub record Companion : Type 0 where
  pub key : String
  pub identity : Identity

-- an entry of the catalog
pub record Spec : Type 0 where
  pub identity : Identity
  pub default_state : Fields
  pub companions : List Companion

-- `_mint_id`
abbrev pub mint_id : String → String → String
mint_id root_id role = text_append root_id (text_append "-" role)

-- `_identity`, and the state of a companion
abbrev pub identity_fields : Identity → Fields
identity_fields i = field (name "_model_name") i.model_name (
    field (name "_model_module") i.model_module (
      field (name "_model_module_version") i.model_module_version (
        field (name "_view_name") i.view_name (
          field (name "_view_module") i.view_module
            (field (name "_view_module_version") i.view_module_version end)))))

abbrev pub reference : String → Value
reference model_id = str (text_append "IPY_MODEL_" model_id)

-- the loop over the companions: the state with their references, and their entries
unfoldable pub add_companions : String → List Companion → Fields → Fields × List ModelEntry
add_companions root_id [] state = (state, [])
add_companions root_id (c ∷ cs) state =
    let companion_id = mint_id root_id c.key in
    let (state', entries) =
      add_companions root_id cs (insert (name c.key) (reference companion_id) state) in
    (state', (companion_id, dict fresh (identity_fields c.identity)) ∷ entries)

-- `model_id or uuid.uuid4().hex`
abbrev pub root_of : Option String → String → String
root_of none hex = hex
root_of (some model_id) hex = if model_id == "" then hex else model_id

-- `_build`
unfoldable pub build : Spec → Fields → Option String → String → List ModelEntry
build spec overrides model_id hex =
    let root_id = root_of model_id hex in
    let (state, companion_entries) = add_companions root_id spec.companions spec.default_state in
    (root_id, dict fresh (merge (identity_fields spec.identity) (merge state overrides)))
    ∷ companion_entries

unfoldable pub int_slider : Spec → Value → Value → Value → Fields → String → List ModelEntry
int_slider spec value min max overrides hex =
    build spec
      (merge (field (name "value") value (field (name "min") min (field (name "max") max end)))
        overrides)
      none hex

-- `labels.index(label) if label in labels else None`
unfoldable pub index_of : String → List String → Option ℕ
index_of s [] = none
index_of s (t ∷ ts) =
    let rest = index_of s ts in
    if t == s then some 0 else elim rest [ none ↦ none | some n ↦ some (suc n) ]

abbrev pub index_value : Option ℕ → Value
index_value none = null
index_value (some n) = int (pos n)

abbrev pub texts : List String → Items
texts [] = nil
texts (s ∷ ss) = cons (str s) (texts ss)

abbrev pub labels_of : (Value → String) → List Value → List String
labels_of to_text [] = []
labels_of to_text (option ∷ options) = to_text option ∷ labels_of to_text options

-- `index` of `dropdown`: the override, if it is not None, and else the place of the value's label
abbrev pub dropdown_index : (Value → String) → List String → Value → Option Value → Value
dropdown_index to_text labels null none = null
dropdown_index to_text labels value none = index_value (index_of (to_text value) labels)
dropdown_index to_text labels null (some null) = null
dropdown_index to_text labels value (some null) = index_value (index_of (to_text value) labels)
dropdown_index to_text labels value (some index) = index

unfoldable pub dropdown :
    (Value → String) → Spec → List Value → Value → Fields → String → List ModelEntry
dropdown to_text spec options value overrides hex =
    let labels = labels_of to_text options in
    let index = dropdown_index to_text labels value (lookup (name "index") overrides) in
    build spec
      (merge
        (field (name "_options_labels") (seq list_kind fresh (texts labels))
          (field (name "index") index end))
        (remove (name "index") overrides))
      none hex

-- `[f"IPY_MODEL_{child[0][0]}" for child in children]`
unfoldable pub child_refs : List (List ModelEntry) → Result Items
child_refs [] = ok nil
child_refs ([] ∷ children) = err index_error
child_refs (((model_id, state) ∷ entries) ∷ children) = do
  refs ← child_refs children
  ok (cons (reference model_id) refs)

abbrev pub flattened : List (List ModelEntry) → List ModelEntry
flattened [] = []
flattened (child ∷ children) = child ++ flattened children

-- `_box`, which `vbox` and `hbox` call with their catalog entries
unfoldable pub box : Spec → List (List ModelEntry) → Fields → String → Result (List ModelEntry)
box spec children overrides hex = do
  refs ← child_refs children
  ok (
      build spec (merge (field (name "children") (seq list_kind fresh refs) end) overrides) none hex
      ++ flattened children)

-- `_CATALOG`, as the file of the package gives it
pub record Catalog : Type 0 where
  pub slider_spec : Spec
  pub dropdown_spec : Spec
  pub vbox_spec : Spec
  pub hbox_spec : Spec

abbrev pub vbox : Catalog → List (List ModelEntry) → Fields → String → Result (List ModelEntry)
vbox catalog children overrides hex = box catalog.vbox_spec children overrides hex

abbrev pub hbox : Catalog → List (List ModelEntry) → Fields → String → Result (List ModelEntry)
hbox catalog children overrides hex = box catalog.hbox_spec children overrides hex
