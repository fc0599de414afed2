-- ===== src/Serialize.antt =====
-- src/cositos/serialize.py: widget-state documents. Python's base64 codec is a parameter. Documents
-- and records are dicts in insertion order; `copy.deepcopy` gives the same tree, and what is written
-- into it afterwards does not reach the original, since a model's values are never written in place.
-- The messages of errors stand without the values that they quote. A float equals no version.
pub mod RoundTrip
pub mod Documents
pub mod References
mod Raw
pub mod Strokes
pub mod Complete
pub mod States
mod Examples
use text.Mathlib.Text.{◌==◌}
use cositos.Base.{String, Bool, true, false, Option, none, some, List, [], ◌∷◌, if◌then◌else◌, not}
use cositos.Value.{
  pos, Key, name, Address, list_kind, fresh, Bytes, Value, null, int, str, seq, dict, Items, nil,
  cons, Fields, end, field,
}
use cositos.Value.Keys.{int_eq}
use cositos.Value.Dict.{lookup, insert}
use cositos.Errors.{Error, type_error, count_mismatch, value_error, Result, ok, err, ◌>>=◌}
use cositos.Buffers.{Split, remove_buffers}
use cositos.Buffers.Put.{get_item, put_buffers}
use cositos.Protocol.{address_items, get_or, is_text, empty_list}
use cositos.Protocol.Wire.{value_address}

-- `base64.b64encode` and `base64.b64decode`; the latter takes a text or binary data, and may raise.
pub record Base64 : Type 0 where
  pub encode : Bytes → String
  pub decode : Value → Result Bytes

-- `state_version_major`, `state_version_minor`
abbrev pub state_version_major : Value
state_version_major = int (pos 2)

abbrev pub state_version_minor : Value
state_version_minor = int (pos 0)

-- One model: its id and its state.
abbrev pub ModelEntry : Type 0
ModelEntry = String × Value

-- `state.get(key, default)` of an object that may be no dict
abbrev pub get_from : Value → Key → Value → Result Value
get_from (dict i fs) k d = ok (get_or fs k d)
get_from v k d = err type_error

abbrev empty_id : String
empty_id = "model_id must be a non-empty string (it is the document key)"

module _ (codec : Base64) where
  -- the v2 record of one buffer
  abbrev pub buffer_entry : Address → Bytes → Value
  buffer_entry path b = dict fresh (
      field (name "path") (seq list_kind fresh (address_items path))
        (field (name "encoding") (str "base64") (field (name "data") (str (codec.encode b)) end)))

  -- `encode_buffers_base64`, less the state that it hands through
  unfoldable pub encode_buffers : List Address → List Bytes → Result Items
  encode_buffers [] [] = ok nil
  encode_buffers (path ∷ paths) (b ∷ bs) = do
    entries ← encode_buffers paths bs
    ok (cons (buffer_entry path b) entries)
  encode_buffers [] (b ∷ bs) = err count_mismatch
  encode_buffers (path ∷ paths) [] = err count_mismatch

  -- `_b64decode`
  unfoldable pub b64decode : Value → Result Bytes
  b64decode entry = do
    encoding ← get_from entry (name "encoding") null
    (if is_text encoding "base64"
        then (get_item entry (name "data") >>= codec.decode)
        else err (value_error "Unsupported buffer encoding"))

  -- `decode_buffers_base64`, less the state, with the paths as `put_buffers` goes through them
  unfoldable pub decode_buffers : Items → Result (List Address × List Bytes)
  decode_buffers nil = ok ([], [])
  decode_buffers (cons entry entries) = do
    path ← get_item entry (name "path")
    address ← value_address path
    b ← b64decode entry
    (paths, bs) ← decode_buffers entries
    ok (address ∷ paths, b ∷ bs)

  -- `record["buffers"] = entries`, if there are any
  abbrev pub with_buffers : Items → Fields → Fields
  with_buffers nil record_fields = record_fields
  with_buffers (cons x xs) record_fields =
      insert (name "buffers") (seq list_kind fresh (cons x xs)) record_fields

  -- `dump_model`, with the record that it returns beside the id
  unfoldable pub dump_model : Value → String → Result Value
  dump_model state version = do
    s ← remove_buffers state
    entries ← encode_buffers s.buffer_paths s.buffers
    model_name ← get_from state (name "_model_name") (str "AnyModel")
    model_module ← get_from state (name "_model_module") (str "anywidget")
    model_version ← get_from state (name "_model_module_version") (str version)
    ok (
        dict fresh (
          with_buffers entries (
            field (name "model_name") model_name (
              field (name "model_module") model_module (
                field (name "model_module_version") model_version
                  (field (name "state") s.state end))))))

  -- the loop of `decode_buffers_base64` over anything but a list is taken to raise
  abbrev pub decode_value : Value → Result (List Address × List Bytes)
  decode_value (seq s i xs) = decode_buffers xs
  decode_value v = err type_error

  -- `load_model`, with the state that it returns beside the id
  unfoldable pub load_model : Value → Result Value
  load_model model_record = do
    state ← get_item model_record (name "state")
    entries ← get_from model_record (name "buffers") empty_list
    (paths, bs) ← decode_value entries
    put_buffers state paths bs

  -- the two checks of an id, with the record that is there already
  abbrev pub check_id : String → Option Value → Result (Unit {0})
  check_id model_id (some other) = err (
      value_error
        (if model_id == "" then empty_id else "duplicate model_id: document keys must be unique"))
  check_id model_id none = if model_id == "" then err (value_error empty_id) else ok tt

  -- the loop of `dump_document` over the entries, with the records so far
  unfoldable pub dump_entries : List ModelEntry → String → Fields → Result Fields
  dump_entries [] version state = ok state
  dump_entries ((model_id, model) ∷ entries) version state = do
    model_record ← dump_model model version
    u ← check_id model_id (lookup (name model_id) state)
    dump_entries entries version (insert (name model_id) model_record state)

  abbrev pub document_of : Fields → Fields
  document_of state = field (name "version_major") state_version_major (
      field (name "version_minor") state_version_minor
        (field (name "state") (dict fresh state) end))

  unfoldable pub dump_document : List ModelEntry → String → Result Value
  dump_document entries version = do
    state ← dump_entries entries version end
    ok (dict fresh (document_of state))

  -- `[load_model(item) for item in state.items()]`
  unfoldable pub load_records : Fields → Result (List (Key × Value))
  load_records end = ok []
  load_records (field model_id model_record rest) = do
    state ← load_model model_record
    models ← load_records rest
    ok ((model_id, state) ∷ models)

  -- The state of a document, once it is there and the version is right.
  abbrev pub load_state : Value → Result (List (Key × Value))
  load_state (dict i state) = load_records state
  load_state v = err (value_error "invalid widget-state document: 'state' must be a mapping")

  abbrev pub is_version_major : Value → Bool
  is_version_major (int z) = int_eq z (pos 2)
  is_version_major v = false

  unfoldable pub load_document : Fields → Result (List (Key × Value))
  load_document doc = elim (lookup (name "state") doc) [
    | none ↦ err (value_error "invalid widget-state document: missing 'state' key")
    | some state ↦
        if is_version_major (get_or doc (name "version_major") null)
        then load_state state
        else err (value_error "unsupported widget-state format version_major")
  ]
