-- ===== src/Lifecycle/Examples.antt =====
-- Tests of the reducer, and its theorems at concrete events.
use cositos.Base.{◌≡◌, refl, true, false, arith, none, some, List, [], ◌∷◌, first, length}
use cositos.Value.{
  pos, name, Key, key_eq, fresh, ident_mem, Bytes, Value, int, str, bytes, dict, Address, Fields,
  end, field,
}
use cositos.Value.Dict.{lookup, insert, remove, merge, Distinct}
use cositos.Value.View.{Same, view, view_opt}
use cositos.Errors.{Result, ok, err}
use cositos.Buffers.{max_depth, remove_buffers, run, cost}
use cositos.Buffers.Faults.{height}
use cositos.Buffers.Accepts.{IsAccepted}
use cositos.Protocol.{
  immutable_fields, model_identity, view_identity, CommOpen, build_comm_open, build_update,
  update_payload, anywidget_module_version,
}
use cositos.Protocol.Identity.{opened_state, build_comm_open-opened}
use cositos.Lifecycle.{
  Phase, unopened, open_phase, closed, TransportCapabilities, Effect, send, apply_state, error,
  Event, comm_msg, open_comm, send_state, send_custom, inbound, close, comm_id_assigned, selected,
  restrict, reduce, reduce_open, reduce_send_state, reduce_send_custom, reduce_close,
}
use cositos.Lifecycle.Guards.{next_phase, refused, any_error, reduce_guarded}
use cositos.Lifecycle.Grammar.{follows, run_events, run_events-follows}
use cositos.Lifecycle.EndToEnd.{send_state-inbound}

abbrev host : Fields
host =
    field (name "value") (int (pos 3))
      (field (name "_view_name") (str "Own") (field (name "img") (bytes (9 ∷ [])) end))

abbrev caps : TransportCapabilities
caps = record {
  supports_receive = true;
  supports_request_state = true;
  supports_custom = false;
  supports_buffers = true;
}

host-Distinct : Distinct host
unfolding lookup key_eq
host-Distinct = ground arith

abbrev seen : Fields
seen = merge (immutable_fields anywidget_module_version) host

seen-IsAccepted : IsAccepted (dict fresh seen)
unfolding height max_depth ident_mem lookup key_eq merge insert immutable_fields model_identity
    view_identity
seen-IsAccepted = record { tidy = ground arith; shallow = omega arith; acyclic = ground arith }

build_comm_open-opened_example :
    (m : CommOpen) × (w : Value) × (build_comm_open host anywidget_module_version ≡ ok m)
    × (opened_state m ≡ ok w)
    × ((k : Key) (p : Address)
        → view (k ∷ p) w
          ≡ view_opt
              (view p)
              (first (lookup k host) (lookup k (immutable_fields anywidget_module_version))))
build_comm_open-opened_example =
    build_comm_open-opened host anywidget_module_version host-Distinct seen-IsAccepted

send_state-inbound_example :
    (m : Value) × (bs : List Bytes) × (w : Value) × (reduce open_phase (send_state none) host caps
      ≡ ok (open_phase, send comm_msg m bs none ∷ []))
    × (reduce open_phase (inbound m bs) end caps ≡ ok (open_phase, apply_state w ∷ []))
    × Same (dict fresh (selected none host)) w
send_state-inbound_example = send_state-inbound none host end caps caps refl seen-IsAccepted

abbrev custom_refused : List Effect
custom_refused = error "custom messages are not supported by this transport" ∷ []

reduce_guarded_example :
    (open_phase ≡ next_phase open_phase (send_custom (int (pos 1)) []))
    × (any_error custom_refused ≡ refused open_phase (send_custom (int (pos 1)) []) caps)
    × (any_error custom_refused ≡ true → length custom_refused ≡ 1)
unfolding reduce reduce_send_custom
reduce_guarded_example =
    reduce_guarded open_phase (send_custom (int (pos 1)) []) host caps open_phase custom_refused
      refl

-- Open, a comm id, an update, a close, and an update too late.
abbrev script : List (Event × Fields)
script =
    (open_comm, host)
    ∷ (comm_id_assigned "c1", end)
    ∷ (send_state (some (name "value" ∷ [])), host)
    ∷ (close, end)
    ∷ (send_state none, host)
    ∷ []

abbrev effects_of : Result (Phase × List Effect) → List Effect
effects_of (ok (p, es)) = es
effects_of (err e) = []

script_runs :
    run_events caps unopened script ≡ ok (closed, effects_of (run_events caps unopened script))
unfolding run_events reduce reduce_open reduce_send_state reduce_close build_comm_open build_update
    remove_buffers run cost max_depth ident_mem insert remove merge immutable_fields model_identity
    view_identity key_eq update_payload restrict
script_runs = refl

run_events-follows_example :
    follows (some unopened) (effects_of (run_events caps unopened script)) ≡ some closed
run_events-follows_example =
    run_events-follows caps unopened script closed (effects_of (run_events caps unopened script))
      (refl, (refl, (refl, (refl, (refl, tt))))) script_runs
