-- ===== src/Shell.antt =====
-- `WidgetShell` of src/cositos/lifecycle.py, which executes the reducer's effects.
--
-- The transport and the host are parameters: their operations are those of the `Transport` protocol
-- (src/cositos/transport.py) and the callbacks that the host hands over. A transport may raise; it
-- does not deliver an inbound message while one of its operations runs. The callbacks `set_state` and
-- `on_custom` may raise too; `get_state` returns.
pub mod Fuel
pub mod Messages
pub mod Conformance
pub mod Opening
pub mod Opened
pub mod Atomic
pub mod Exchange
pub mod Inbound
pub mod Hosted
mod Examples
use text.Mathlib.Text.{◌==◌}
use cositos.Base.{
  ℕ, zero, suc, String, Bool, true, false, Option, none, some, List, [], ◌∷◌, if◌then◌else◌,
}
use cositos.Value.{Key, Bytes, Value, Fields, end}
use cositos.Errors.{Error, runtime_error, no_fuel, Result, ok, err}
use cositos.Protocol
use cositos.Protocol.{Message, update, request_state, custom, ignored, parse_message}
use cositos.Lifecycle.{
  Phase, unopened, open_phase, closed, is_open, TransportCapabilities, MsgType, comm_open, comm_msg,
  comm_close, Effect, send, listen, apply_state, invoke_custom, error, open_comm, send_state,
  send_custom, inbound, close, comm_id_assigned, reduce,
}

-- An object of type `T` that may be written to by a call that may raise.
abbrev pub Call : Type 0 → Type 0
Call T = T → Result (Unit {0}) × T

-- `Transport`, with what `getattr` reads of it: a flag may be missing, and a missing `comm_id` is
-- the empty text.
pub record Transport (T : Type 0) : Type 0 where
  pub send : MsgType → Value → List Bytes → Option Value → Call T
  pub on_message : Call T
  pub comm_id : T → String
  pub supports_receive : T → Option Bool
  pub supports_request_state : T → Option Bool
  pub supports_custom : T → Option Bool
  pub supports_buffers : T → Option Bool

-- `get_state`, and `set_state` and `on_custom`, which are optional and may raise.
pub record Host (H : Type 0) : Type 0 where
  pub get_state : H → Fields
  pub set_state : Option (Value → Call H)
  pub on_custom : Option (Value → List Bytes → Call H)

-- The attributes of a `WidgetShell`.
pub record Shell (T H : Type 0) : Type 0 where
  pub transport : T
  pub host : H
  pub capabilities : TransportCapabilities
  pub phase : Phase
  pub model_id : String
  pub listening : Bool

abbrev pub or_default : Bool → Option Bool → Bool
or_default d none = d
or_default d (some b) = b

-- What is done after a call that has returned; a raise goes through.
abbrev pub and_then : {S : Type 0} → Result (Unit {0}) × S → Call S → Result (Unit {0}) × S
and_then (ok u, s) f = f s
and_then (err e, s) f = (err e, s)

module _ {T H : Type 0} (tr : Transport T) (ho : Host H) where
  -- `__init__`
  unfoldable pub new_shell : T → H → String → Option TransportCapabilities → Shell T H
  new_shell t h model_id caps = record {
    transport = t;
    host = h;
    capabilities = elim caps [
      | some c ↦ c
      | none ↦ record {
        supports_receive = or_default false (tr.supports_receive t);
        supports_request_state = or_default true (tr.supports_request_state t);
        supports_custom = or_default true (tr.supports_custom t);
        supports_buffers = or_default true (tr.supports_buffers t);
      }
    ];
    phase = unopened;
    model_id = model_id;
    listening = false;
  }

  -- a call of the transport, as a call of the shell
  abbrev pub on_transport : Call T → Call (Shell T H)
  on_transport f s = let (r, t) = f s.transport in (r, record s { transport = t })

  -- `for effect in effects: self._exec_one(effect)`
  unfoldable pub exec_list : (Effect → Call (Shell T H)) → List Effect → Call (Shell T H)
  exec_list one [] s = (ok tt, s)
  exec_list one (e ∷ es) s = and_then (one e s) (exec_list one es)

  -- `_execute`, of a call of the reducer that may have raised
  unfoldable pub execute_with :
      (Effect → Call (Shell T H)) → Result (Phase × List Effect) → Call (Shell T H)
  execute_with one (ok (p, es)) s = exec_list one es (record s { phase = p })
  execute_with one (err e) s = (err e, s)

  -- the feedback of the comm id after a `comm_open`
  abbrev pub adopt_id :
      (Result (Phase × List Effect) → Call (Shell T H)) → MsgType → Call (Shell T H)
  adopt_id redo comm_open s =
      let cid = tr.comm_id s.transport in
      if cid == ""
      then (ok tt, s)
      else redo (reduce s.phase (comm_id_assigned cid) end s.capabilities)
          (record s { model_id = cid })
  adopt_id redo comm_msg s = (ok tt, s)
  adopt_id redo comm_close s = (ok tt, s)

  abbrev pub start_listening : Call (Shell T H)
  start_listening s =
      if s.listening
      then (ok tt, s)
      else and_then (on_transport tr.on_message s) (λ s'. (ok tt, record s' { listening = true }))

  -- a call of the host, as a call of the shell
  abbrev pub on_host : Call H → Call (Shell T H)
  on_host f s = let (r, h) = f s.host in (r, record s { host = h })

  abbrev pub apply_to_host : Value → Call (Shell T H)
  apply_to_host v s = elim ho.set_state [ none ↦ (ok tt, s) | some f ↦ on_host (f v) s ]

  abbrev pub custom_to_host : Value → List Bytes → Call (Shell T H)
  custom_to_host v bs s = elim ho.on_custom [ none ↦ (ok tt, s) | some f ↦ on_host (f v bs) s ]

  -- `_exec_one`, where `redo` is the `_execute` that it calls
  unfoldable pub exec_effect :
      (Result (Phase × List Effect) → Call (Shell T H)) → Effect → Call (Shell T H)
  exec_effect redo (send m payload buffers metadata) s =
      and_then (on_transport (tr.send m payload buffers metadata) s) (adopt_id redo m)
  exec_effect redo listen s = start_listening s
  exec_effect redo (apply_state v) s = apply_to_host v s
  exec_effect redo (invoke_custom v bs) s = custom_to_host v bs s
  exec_effect redo (error message) s = (err (runtime_error message), s)

  -- `_exec_one` and `_execute` call each other: fuel for the nested calls.
  unfoldable pub exec_one : ℕ → Effect → Call (Shell T H)
  exec_one zero e s = exec_effect (λ r s'. (err no_fuel, s')) e s
  exec_one (suc n) e s = exec_effect (execute_with (exec_one n)) e s

  -- One nested call is all there ever is.
  unfoldable pub execute : Result (Phase × List Effect) → Call (Shell T H)
  execute = execute_with (exec_one 1)

  unfoldable pub open_shell : Call (Shell T H)
  open_shell s =
      if is_open s.phase
      then (ok tt, s)
      else execute (reduce s.phase open_comm (ho.get_state s.host) s.capabilities) s

  unfoldable pub send_state_shell : Option (List Key) → Call (Shell T H)
  send_state_shell include s =
      execute (reduce s.phase (send_state include) (ho.get_state s.host) s.capabilities) s

  unfoldable pub send_custom_shell : Value → List Bytes → Call (Shell T H)
  send_custom_shell content buffers s =
      execute (reduce s.phase (send_custom content buffers) (ho.get_state s.host) s.capabilities) s

  unfoldable pub close_shell : Call (Shell T H)
  close_shell s = execute (reduce s.phase close end s.capabilities) s

  -- `_handle_inbound`
  unfoldable pub handle_inbound : Value → List Bytes → Call (Shell T H)
  handle_inbound payload buffers s = elim (parse_message payload) [
    | ignored method ↦ (ok tt, s)
    | _ ↦ execute (reduce s.phase (inbound payload buffers) (ho.get_state s.host) s.capabilities) s
  ]

  unfoldable pub mimebundle : String → Shell T H → Value
  mimebundle repr_text s = Protocol.mimebundle s.model_id repr_text

  -- the bundle after the comm has been opened, unless that raised
  abbrev pub bundle_after : Result (Unit {0}) × Shell T H → Result Value × Shell T H
  bundle_after (ok u, s) = (ok (mimebundle "" s), s)
  bundle_after (err e, s) = (err e, s)

  -- `_repr_mimebundle_`, with the bundle that it returns
  unfoldable pub repr_mimebundle : Shell T H → Result Value × Shell T H
  repr_mimebundle s = bundle_after (if is_open s.phase then (ok tt, s) else open_shell s)
