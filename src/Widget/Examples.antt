-- ===== src/Widget/Examples.antt =====
-- The façade's theorem at a concrete widget.
use cositos.Base.{◌≡◌, refl, true, none, some, List, [], ◌∷◌, ◌++◌}
use cositos.Value.{pos, name, key_eq, ident_mem, Value, int, str, end, field}
use cositos.Value.Dict.{insert, remove, merge}
use cositos.Errors.{ok}
use cositos.Buffers.{max_depth, remove_buffers, run, cost}
use cositos.Protocol.{build_comm_open, immutable_fields, model_identity, view_identity}
use cositos.Lifecycle.{MsgType, reduce, reduce_open}
use cositos.Shell.{
  Transport, Host, new_shell, open_shell, execute, execute_with, exec_list, exec_one, exec_effect,
}
use cositos.Shell.Conformance.{open_request, handle}
use cositos.Widget.{Widget, new_widget, open_widget}
use cositos.Widget.Identity.{handle_widget, handle_widget-synced}

abbrev log : Transport (List MsgType)
log = record {
  send = λ m x bs y t. (ok tt, t ++ m ∷ []);
  on_message = λ t. (ok tt, t);
  comm_id = λ t. "assigned";
  supports_receive = λ t. some true;
  supports_request_state = λ t. none;
  supports_custom = λ t. none;
  supports_buffers = λ t. none;
}

abbrev host : Host Value
host = record {
  get_state = λ v. field (name "value") (int (pos 3)) end;
  set_state = none;
  on_custom = none;
}

abbrev widget : Widget (List MsgType) Value
widget = new_widget log host [] (str "host") "first"

handle_widget-synced_example :
    ((handle_widget log host open_request widget).1.shell
      ≡ handle log host open_request widget.shell)
    × ((handle_widget log host open_request widget).0 ≡ ok tt
        → (handle_widget log host open_request widget).1.model_id
          ≡ (handle_widget log host open_request widget).1.shell.model_id)
unfolding new_widget new_shell
handle_widget-synced_example = handle_widget-synced log host open_request widget refl

id_assigned : (handle_widget log host open_request widget).1.model_id ≡ "assigned"
unfolding open_widget open_shell new_widget new_shell execute execute_with exec_list exec_one
    exec_effect reduce reduce_open build_comm_open remove_buffers run max_depth ident_mem cost merge
    insert immutable_fields view_identity model_identity key_eq remove
id_assigned = refl
