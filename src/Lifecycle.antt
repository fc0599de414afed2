-- ===== src/Lifecycle.antt =====
-- src/cositos/lifecycle.py, the reducer: `reduce(phase, event, current_state, capabilities)`. It
-- builds messages, which may raise, so its model returns a `Result`.
pub mod Grammar
pub mod Guards
pub mod EndToEnd
mod Examples
use Prim.Native.String.{◌++◌ as text_append}
use cositos.Base.{
  String, Bool, true, false, not, ◌&&◌, ◌||◌, Option, none, some, List, [], ◌∷◌, ◌++◌,
  if◌then◌else◌,
}
use cositos.Value.{Key, key_eq, Address, fresh, Bytes, Value, seq, dict, Fields, end, field}
use cositos.Value.Dict.{merge}
use cositos.Errors.{Error, type_error, Result, ok, err, ◌>>=◌}
use cositos.Buffers.Put.{put_buffers}
use cositos.Protocol.{
  anywidget_module_version, immutable_fields, CommOpen, build_comm_open, Update, build_update,
  build_custom, Message, update, request_state, custom, ignored, parse_message, empty_dict,
}
use cositos.Protocol.Wire.{value_paths}

pub data Phase : Type 0 where
  unopened open_phase closed : Phase

pub record TransportCapabilities : Type 0 where
  pub supports_receive : Bool
  pub supports_request_state : Bool
  pub supports_custom : Bool
  pub supports_buffers : Bool

-- `msg_type` is one of the three texts of the comm protocol.
pub data MsgType : Type 0 where
  comm_open comm_msg comm_close : MsgType

-- `Send`, `Listen`, `ApplyState`, `InvokeCustom` and `Error`
pub data Effect : Type 0 where
  send : MsgType → Value → List Bytes → Option Value → Effect
  listen : Effect
  apply_state : Value → Effect
  invoke_custom : Value → List Bytes → Effect
  error : String → Effect

-- `Open`, `SendState`, `SendCustom`, `Inbound`, `Close` and `CommIdAssigned`; `unknown` is an object
-- of any other type, by the type's name.
pub data Event : Type 0 where
  open_comm : Event
  send_state : Option (List Key) → Event
  send_custom : Value → List Bytes → Event
  inbound : Value → List Bytes → Event
  close : Event
  comm_id_assigned : String → Event
  unknown : String → Event

-- `phase == Phase.OPEN`
abbrev pub is_open : Phase → Bool
is_open open_phase = true
is_open _ = false

-- `if buffers`
abbrev pub any_buffers : List Bytes → Bool
any_buffers [] = false
any_buffers (b ∷ bs) = true

abbrev pub listen_if : Bool → List Effect
listen_if b = if b then listen ∷ [] else []

-- `{**_immutable_fields(), **current_state}`
abbrev pub full_state : Fields → Fields
full_state current = merge (immutable_fields anywidget_module_version) current

-- `_reduce_open`
unfoldable pub reduce_open : Phase → Fields → TransportCapabilities → Result (Phase × List Effect)
reduce_open phase current caps = if is_open phase then ok (open_phase, []) else (do
  m ← build_comm_open (full_state current) anywidget_module_version
  ok (
    open_phase,
    send comm_open m.payload m.buffers (some m.metadata) ∷ listen_if caps.supports_receive,
  ))

-- `k in include`
abbrev pub includes : List Key → Key → Bool
includes [] k = false
includes (j ∷ l) k = key_eq j k || includes l k

-- `{k: v for k, v in current_state.items() if k in event.include}`
unfoldable pub restrict : List Key → Fields → Fields
restrict l end = end
restrict l (field k v fs) =
    let rest = restrict l fs in if includes l k then field k v rest else rest

abbrev pub selected : Option (List Key) → Fields → Fields
selected none current = full_state current
selected (some l) current = restrict l current

-- `_reduce_send_state`
unfoldable pub reduce_send_state : Phase → Option (List Key) → Fields → Result (Phase × List Effect)
reduce_send_state phase include current =
    if is_open phase
    then (do
      m ← build_update (dict fresh (selected include current))
      ok (phase, send comm_msg m.payload m.buffers none ∷ []))
    else ok (phase, error "send_state() requires an open comm; call open() first" ∷ [])

-- `_reduce_send_custom`
unfoldable pub reduce_send_custom :
    Phase → Value → List Bytes → TransportCapabilities → Phase × List Effect
reduce_send_custom phase content buffers caps =
    if not (is_open phase)
    then (phase, error "send_custom() requires an open comm; call open() first" ∷ [])
    else if not caps.supports_custom
    then (phase, error "custom messages are not supported by this transport" ∷ [])
    else if not caps.supports_buffers && any_buffers buffers
    then (phase, error "buffers are not supported by this transport" ∷ [])
    else (phase, send comm_msg (build_custom content) buffers none ∷ [])

-- `dict(message.state)`, of a dict; of anything else it is taken to raise.
abbrev pub dict_copy : Value → Result Value
dict_copy (dict i fs) = ok (dict fresh fs)
dict_copy v = err type_error

-- the branch of `protocol.Update`: the state that `ApplyState` carries
unfoldable pub merged_state : Value → Value → List Bytes → Result Value
merged_state state paths buffers = do
  copy ← dict_copy state
  l ← value_paths paths
  put_buffers copy l buffers

abbrev dispatch :
    Phase → Message → List Bytes → Fields → TransportCapabilities → Result (Phase × List Effect)
dispatch phase (update state paths) buffers current caps = do
  merged ← merged_state state paths buffers
  ok (phase, apply_state merged ∷ [])
dispatch phase request_state buffers current caps =
    if caps.supports_request_state then reduce_send_state phase none current else ok (phase, [])
dispatch phase (custom content) buffers current caps =
    ok (phase, invoke_custom content buffers ∷ [])
dispatch phase (ignored method) buffers current caps = ok (phase, [])

-- `_reduce_inbound`
unfoldable pub reduce_inbound :
    Phase → Value → List Bytes → Fields → TransportCapabilities → Result (Phase × List Effect)
reduce_inbound phase message buffers current caps =
    if is_open phase
    then dispatch phase (parse_message message) buffers current caps
    else ok (phase, [])

-- `_reduce_close`
unfoldable pub reduce_close : Phase → Phase × List Effect
reduce_close phase =
    if is_open phase then (closed, send comm_close empty_dict [] none ∷ []) else (phase, [])

unfoldable pub reduce :
    Phase → Event → Fields → TransportCapabilities → Result (Phase × List Effect)
reduce phase open_comm current caps = reduce_open phase current caps
reduce phase (send_state include) current caps = reduce_send_state phase include current
reduce phase (send_custom content buffers) current caps =
    ok (reduce_send_custom phase content buffers caps)
reduce phase (inbound message buffers) current caps =
    reduce_inbound phase message buffers current caps
reduce phase close current caps = ok (reduce_close phase)
reduce phase (comm_id_assigned id) current caps = ok (open_phase, [])
reduce phase (unknown type) current caps =
    ok (phase, error (text_append "unknown event type: " type) ∷ [])
