-- ===== src/Protocol.antt =====
-- src/cositos/protocol.py: the message builders and the parser of inbound messages.
pub mod Wire
pub mod Identity
use text.Mathlib.Text.{◌==◌}
use cositos.Base.{ℕ, String, Bool, true, false, Option, none, some, List, [], ◌∷◌, if◌then◌else◌}
use cositos.Value.{
  pos, Key, name, index, Address, fresh, list_kind, Bytes, Value, null, int, str, seq, dict, Items,
  nil, cons, Fields, end, field,
}
use cositos.Value.Dict.{lookup, merge}
use cositos.Errors.{Result, ok, err, ◌>>=◌}
use cositos.Buffers.{Split, remove_buffers}

-- `PROTOCOL_VERSION` and its two numbers, `WIDGET_VIEW_MIMETYPE`, `ANYWIDGET_MODULE_VERSION`
abbrev pub protocol_version_major : ℕ
protocol_version_major = 2

abbrev pub protocol_version_minor : ℕ
protocol_version_minor = 1

abbrev pub protocol_version : String
protocol_version = "2.1.0"

abbrev pub widget_view_mimetype : String
widget_view_mimetype = "application/vnd.jupyter.widget-view+json"

abbrev pub anywidget_module_version : String
anywidget_module_version = "~0.11.*"

unfoldable pub model_identity : String → Fields
model_identity version = field (name "_model_module") (str "anywidget") (
    field (name "_model_name") (str "AnyModel")
      (field (name "_model_module_version") (str version) end))

unfoldable pub view_identity : String → Fields
view_identity version = field (name "_view_module") (str "anywidget") (
    field (name "_view_name") (str "AnyView")
      (field (name "_view_module_version") (str version) (field (name "_view_count") null end)))

-- `_immutable_fields`
unfoldable pub immutable_fields : String → Fields
immutable_fields version = merge (model_identity version) (view_identity version)

-- `buffer_paths` as the list of lists that stands in a message.
abbrev pub key_value : Key → Value
key_value (name s) = str s
key_value (index z) = int z

abbrev pub address_items : Address → Items
address_items [] = nil
address_items (k ∷ a) = cons (key_value k) (address_items a)

abbrev pub address_list : List Address → Items
address_list [] = nil
address_list (a ∷ l) = cons (seq list_kind fresh (address_items a)) (address_list l)

abbrev pub paths_value : List Address → Value
paths_value l = seq list_kind fresh (address_list l)

-- What `build_comm_open` returns.
pub record CommOpen : Type 0 where
  pub payload : Value
  pub buffers : List Bytes
  pub metadata : Value

unfoldable pub build_comm_open : Fields → String → Result CommOpen
build_comm_open state version = do
  s ← remove_buffers (dict fresh (merge (immutable_fields version) state))
  ok (record {
    payload = dict fresh (
        field (name "state") s.state
          (field (name "buffer_paths") (paths_value s.buffer_paths) end));
    buffers = s.buffers;
    metadata = dict fresh (field (name "version") (str protocol_version) end);
  })

-- What `build_update` returns.
pub record Update : Type 0 where
  pub payload : Value
  pub buffers : List Bytes

-- the payload of an update with its parts
unfoldable pub update_payload : Value → List Address → Value
update_payload state paths = dict fresh (
    field (name "method") (str "update")
      (field (name "state") state (field (name "buffer_paths") (paths_value paths) end)))

unfoldable pub build_update : Value → Result Update
build_update state = do
  s ← remove_buffers state
  ok (record { payload = update_payload s.state s.buffer_paths; buffers = s.buffers })

unfoldable pub build_custom : Value → Value
build_custom content =
    dict fresh (field (name "method") (str "custom") (field (name "content") content end))

abbrev repr_entry : String → Fields
repr_entry text = if text == "" then end else field (name "text/plain") (str text) end

unfoldable pub mimebundle : String → String → Value
mimebundle model_id repr_text = dict fresh (
    field (name widget_view_mimetype)
      (dict fresh (
        field (name "version_major") (int (pos protocol_version_major)) (
          field (name "version_minor") (int (pos protocol_version_minor))
            (field (name "model_id") (str model_id) end))))
      (repr_entry repr_text))

-- The events that `parse_message` returns: `Update`, `RequestState`, `Custom` and `Ignored`.
pub data Message : Type 0 where
  update : Value → Value → Message
  request_state : Message
  custom : Value → Message
  ignored : Value → Message

-- `d.get(k, default)`
abbrev pub get_or : Fields → Key → Value → Value
get_or fs k d = elim (lookup k fs) [ none ↦ d | some v ↦ v ]

-- `v == text`
abbrev pub is_text : Value → String → Bool
is_text (str s) t = s == t
is_text v t = false

-- `{}` and `[]`
abbrev pub empty_dict : Value
empty_dict = dict fresh end

abbrev pub empty_list : Value
empty_list = seq list_kind fresh nil

abbrev dispatch : Fields → Value → Message
dispatch fs method =
    if is_text method "update"
    then update (get_or fs (name "state") empty_dict) (get_or fs (name "buffer_paths") empty_list)
    else if is_text method "request_state"
    then request_state
    else if is_text method "custom"
    then custom (get_or fs (name "content") null)
    else ignored method

unfoldable pub parse_message : Value → Message
parse_message (dict i fs) = dispatch fs (get_or fs (name "method") null)
parse_message v = ignored null
