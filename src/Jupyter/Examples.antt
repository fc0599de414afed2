-- ===== src/Jupyter/Examples.antt =====
-- A comm package that counts its comms and notes whether the newest has a handler.
use cositos.Base.{ℕ, suc, ◌≡◌, refl, Bool, true, false, none, some, []}
use cositos.Value.{pos, name, key_eq, ident_mem, Value, int, str, end, field}
use cositos.Value.Dict.{insert, remove, merge}
use cositos.Errors.{Result, ok, err}
use cositos.Buffers.{max_depth, remove_buffers, run, cost}
use cositos.Protocol.{
  CommOpen, build_comm_open, anywidget_module_version, immutable_fields, model_identity,
  view_identity,
}
use cositos.Lifecycle.{open_phase, full_state}
use cositos.Shell.{Host, Shell, new_shell, open_shell}
use cositos.Jupyter.{CommPackage, CommTransport, comm_transport, new_transport}
use cositos.Jupyter.Listening.{Handles, hears, open_shell-hears}

-- Of the newest comm: how many comms there were before it, and whether it has a handler.
abbrev Kernel : Type 0
Kernel = ℕ × Bool

abbrev comms : CommPackage ℕ Kernel
comms = record {
  create_comm = λ x y bs k. (k.0, (suc k.0, false));
  comm_id = λ c. "c";
  send = λ c x bs k. k;
  close = λ c k. k;
  on_msg = λ c k. (k.0, true);
}

abbrev has_handler : ℕ → Kernel → Bool
has_handler c k = k.1

comms-Handles : Handles comms has_handler
comms-Handles = record { created = λ x y bs k. refl; registered = λ c k. refl }

abbrev host : Host Value
host = record {
  get_state = λ v. field (name "value") (int (pos 3)) end;
  set_state = none;
  on_custom = none;
}

abbrev shell : Shell (CommTransport ℕ Kernel) Value
shell = new_shell (comm_transport comms) host (new_transport (0, false)) (str "host") "" none

abbrev message_of : Result CommOpen → CommOpen
message_of (ok m) = m
message_of (err e) = record { payload = str ""; buffers = []; metadata = str "" }

abbrev message : CommOpen
message =
    message_of (build_comm_open (full_state (host.get_state (str "host"))) anywidget_module_version)

built :
    build_comm_open (full_state (host.get_state (str "host"))) anywidget_module_version ≡ ok message
unfolding build_comm_open remove_buffers run cost max_depth ident_mem insert remove merge
    immutable_fields model_identity view_identity key_eq
built = refl

open_shell-hears_example :
    ((open_shell (comm_transport comms) host shell).0 ≡ ok tt)
    × ((open_shell (comm_transport comms) host shell).1.phase ≡ open_phase)
    × (hears comms has_handler comms-Handles host
          (open_shell (comm_transport comms) host shell).1.transport
        ≡ some true)
unfolding new_shell
open_shell-hears_example =
    open_shell-hears comms has_handler comms-Handles host shell message refl refl refl built
