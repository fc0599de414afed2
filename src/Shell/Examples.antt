-- ===== src/Shell/Examples.antt =====
-- Tests of the shell, and its theorems on concrete transports.
use mathlib.Core.Option.{some-injective}
use cositos.Base.{◌≡◌, refl, sym, ap, if◌then◌else◌, arith, true, none, some, List, [], ◌∷◌, ◌++◌}
use cositos.Value.{
  pos, name, fresh, dict, Bytes, key_eq, ident_mem, Value, int, str, bytes, end, field,
}
use cositos.Value.Dict.{insert, remove, merge}
use cositos.Errors.{runtime_error, Result, ok, err}
use cositos.Buffers.{max_depth, remove_buffers, run, cost}
use cositos.Protocol.{
  CommOpen, parse_message, build_comm_open, build_update, anywidget_module_version,
  immutable_fields, model_identity, view_identity,
}
use cositos.Lifecycle.{
  unopened, open_phase, is_open, MsgType, comm_open, comm_msg, comm_close, reduce, reduce_open,
  reduce_send_state, reduce_close, reduce_send_custom, restrict, selected, full_state,
}
use cositos.Shell.{
  Transport, Host, Shell, new_shell, exec_one, exec_effect, exec_list, execute_with, execute,
  open_shell, on_transport, handle_inbound, send_state_shell, send_custom_shell, close_shell,
  repr_mimebundle,
}
use cositos.Shell.Messages.{replay, IsReliable}
use cositos.Shell.Conformance.{
  Request, close_request, repr_request, state_request, custom_request, handle, handle_all,
  handle_all-InStep,
}
use cositos.Value.View.{Same}
use cositos.Buffers.Faults.{height}
use cositos.Value.Dict.{lookup}
use cositos.Value.{ident_mem}
use cositos.Shell.Atomic.{NeverRaises, CallbacksReturn, attempt, attempt-unchanged}
use cositos.Shell.Exchange.{send_state_shell-handle_inbound}
use cositos.Shell.Inbound.{react, handle_inbound-react}
use cositos.Shell.Opening.{open_shell-send_err}

-- A transport that notes what is sent, and has an id.
abbrev log : Transport (List MsgType)
log = record {
  send = λ m x bs y t. (ok tt, t ++ m ∷ []);
  on_message = λ t. (ok tt, t);
  comm_id = λ t. "c1";
  supports_receive = λ t. some true;
  supports_request_state = λ t. none;
  supports_custom = λ t. none;
  supports_buffers = λ t. none;
}

-- The host's state is a dict that an update replaces.
abbrev host : Host Value
host = record {
  get_state = λ v. field (name "value") (int (pos 3)) (field (name "img") (bytes (9 ∷ [])) end);
  set_state = some (λ v h. (ok tt, v));
  on_custom = none;
}

log-IsReliable : IsReliable log (λ t. t)
log-IsReliable = record {
  send_ok = λ m x bs y t. refl;
  sent-send = λ m x bs y t. refl;
  sent-on_message = λ t. refl;
}

-- An update before anything is open, a display, an update, a close, and another display.
abbrev requests : List Request
requests =
    state_request none
    ∷ repr_request
    ∷ state_request (some (name "value" ∷ []))
    ∷ close_request
    ∷ custom_request (int (pos 1)) []
    ∷ repr_request
    ∷ []

abbrev shell : Shell (List MsgType) Value
shell = new_shell log host [] (str "host") "" none

requests_sent :
    (handle_all log host requests shell).transport
    ≡ comm_open ∷ comm_msg ∷ comm_close ∷ comm_open ∷ []
unfolding handle_all handle new_shell repr_mimebundle open_shell send_state_shell close_shell
    execute execute_with exec_list exec_one exec_effect reduce reduce_open reduce_send_state
    reduce_close reduce_send_custom send_custom_shell build_comm_open remove_buffers run max_depth
    ident_mem cost merge insert immutable_fields view_identity model_identity key_eq build_update
    restrict
requests_sent = refl

handle_all-InStep_example :
    let s = handle_all log host requests shell in replay (some unopened) s.transport ≡ some s.phase
handle_all-InStep_example =
    handle_all-InStep log host (λ t. t) log-IsReliable requests [] (str "host") "" none refl

-- A transport whose kernel is gone.
abbrev gone : Transport (List MsgType)
gone = record log { send = λ m x bs y t. (err (runtime_error "no kernel"), t) }

abbrev message : CommOpen
message = record { payload = str "none"; buffers = []; metadata = str "none" }

abbrev message_of : Result CommOpen → CommOpen
message_of (ok m) = m
message_of (err e) = message

abbrev built_message : CommOpen
built_message =
    message_of (build_comm_open (full_state (host.get_state (str "host"))) anywidget_module_version)

built :
    build_comm_open (full_state (host.get_state (str "host"))) anywidget_module_version
    ≡ ok built_message
unfolding build_comm_open remove_buffers run cost max_depth ident_mem insert remove merge
    immutable_fields model_identity view_identity key_eq
built = refl

abbrev gone_shell : Shell (List MsgType) Value
gone_shell = new_shell gone host [] (str "host") "" none

open_shell-send_err_example :
    ((open_shell gone host gone_shell).0 ≡ err (runtime_error "no kernel"))
    × ((open_shell gone host gone_shell).1.phase ≡ open_phase)
    × (open_shell gone host (open_shell gone host gone_shell).1
        ≡ (ok tt, (open_shell gone host gone_shell).1))
unfolding new_shell
open_shell-send_err_example =
    open_shell-send_err gone host gone_shell built_message (runtime_error "no kernel") refl built
      refl

host-CallbacksReturn : CallbacksReturn host
host-CallbacksReturn = record {
  set_state_ok = λ f v h e. ap (λ g. (g v h).0) (sym (some-injective _ _ e));
  on_custom_ok = λ f v bs h e. cc e;
}

log-NeverRaises : NeverRaises log
log-NeverRaises = record { send_ok = λ m x bs y t. refl; on_message_ok = λ t. refl }

attempt-unchanged_example : (attempt log host (state_request none) shell).1 ≡ shell
unfolding send_state_shell new_shell execute execute_with exec_list exec_one exec_effect reduce
    reduce_send_state
attempt-unchanged_example =
    attempt-unchanged log host log-NeverRaises host-CallbacksReturn (state_request none) shell
      (runtime_error "send_state() requires an open comm; call open() first") refl

abbrev open_now : Shell (List MsgType) Value
open_now = record (new_shell log host [] (str "host") "" none) { phase = open_phase }

send_state_shell-handle_inbound_example :
    (m : Value) × (bs : List Bytes) × (w : Value) × (send_state_shell log host none open_now
      ≡ on_transport log host (log.send comm_msg m bs none) open_now)
    × (handle_inbound log host m bs open_now ≡ (ok tt, record open_now { host = w }))
    × Same (dict fresh (selected none (host.get_state open_now.host))) w
unfolding new_shell height max_depth ident_mem lookup key_eq merge insert immutable_fields
    model_identity view_identity
send_state_shell-handle_inbound_example =
    send_state_shell-handle_inbound log host log host none open_now open_now (λ v h. (ok tt, v))
      refl refl refl refl
      (record { tidy = ground arith; shallow = omega arith; acyclic = ground arith })

abbrev update_message : Value
update_message = dict fresh (
    field (name "method") (str "update")
      (field (name "state") (dict fresh (field (name "value") (int (pos 4)) end)) end))

handle_inbound-react_example : handle_inbound log host update_message [] open_now ≡ (
    if is_open open_now.phase
    then react log host (parse_message update_message) [] open_now
    else (ok tt, open_now))
handle_inbound-react_example = handle_inbound-react log host update_message [] open_now

open_returns : (open_shell log host shell).0 ≡ ok tt
unfolding new_shell open_shell execute execute_with exec_list exec_one exec_effect reduce
    reduce_open build_comm_open remove_buffers run max_depth ident_mem cost merge insert
    immutable_fields view_identity model_identity key_eq
open_returns = refl
