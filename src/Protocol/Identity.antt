-- ===== src/Protocol/Identity.antt =====
-- What the other end of a new comm sees: the host's state, and identity fields that it does not set.
use cositos.Base.{◌≡◌, sym, ap, ◌∙◌, none, some, ◌∷◌, first, String}
use cositos.Value.{Key, name, key_eq, Address, fresh, Value, dict, str, Fields, end, field}
use cositos.Value.Dict.{lookup, merge, Distinct, lookup-merge}
use cositos.Value.View.{view, view_opt, Same}
use cositos.Errors.{Result, ok, err, key_error, type_error, ◌>>=◌}
use cositos.Buffers.{Split}
use cositos.Buffers.Removed.{split_of}
use cositos.Buffers.Accepts.{IsAccepted, remove_buffers-IsAccepted}
use cositos.Buffers.Inverse.{put_buffers-remove_buffers}
use cositos.Buffers.Put.{put_buffers}
use cositos.Protocol.{immutable_fields, paths_value, CommOpen, build_comm_open, protocol_version}
use cositos.Protocol.Wire.{value_paths, value_paths-paths_value}

abbrev entry : String → Value → Result Value
entry k (dict i fs) = elim (lookup (name k) fs) [ none ↦ err key_error | some v ↦ ok v ]
entry k v = err type_error

-- How the other end reads a `comm_open`: the state in it, with the buffers put at their paths.
abbrev pub opened_state : CommOpen → Result Value
opened_state m = do
  state ← entry "state" m.payload
  paths ← entry "buffer_paths" m.payload
  l ← value_paths paths
  put_buffers state l m.buffers

view-dict :
    (p : Address) (k : Key) (fs : Fields) (w : Value)
    → Same (dict fresh fs) w
    → view (k ∷ p) w ≡ view_opt (view p) (lookup k fs)
unfolding view
view-dict p k fs w same = sym (same (k ∷ p))

-- The message of an accepted state.
abbrev message : Split → CommOpen
message s = record {
  payload =
      dict fresh (
        field (name "state") s.state
          (field (name "buffer_paths") (paths_value s.buffer_paths) end));
  buffers = s.buffers;
  metadata = dict fresh (field (name "version") (str protocol_version) end);
}

opened_state-message :
    (s : Split) → opened_state (message s) ≡ put_buffers s.state s.buffer_paths s.buffers
unfolding lookup key_eq
opened_state-message s = rw value_paths-paths_value

-- If the state with the identity fields behind it is accepted, `build_comm_open` raises nothing, and
-- the state that the other end reads has at each address below a key of the host's state what that
-- state has there, and below any other key what the identity fields have. So a state that sets none of
-- the identity fields is opened as an `AnyModel` of anywidget, but one that sets some of them is opened
-- with its own, although the specification of the protocol asks for anywidget's in every `comm_open`.
pub build_comm_open-opened :
    (state : Fields) (version : String)
    → Distinct state
    → IsAccepted (dict fresh (merge (immutable_fields version) state))
    → (m : CommOpen) × (w : Value) × (build_comm_open state version ≡ ok m)
      × (opened_state m ≡ ok w)
      × ((k : Key) (p : Address)
          → view (k ∷ p) w
            ≡ view_opt (view p) (first (lookup k state) (lookup k (immutable_fields version))))
unfolding build_comm_open
build_comm_open-opened state version d accepted =
    let full = merge (immutable_fields version) state in
    let (w, back, same) = put_buffers-remove_buffers (dict fresh full) accepted in
    (
      message (split_of (dict fresh full)),
      w,
      rw (remove_buffers-IsAccepted (dict fresh full) accepted),
      rw opened_state-message (rw (remove_buffers-IsAccepted (dict fresh full) accepted) at back),
      λ k p.
          view-dict p k full w same
          ∙ ap (view_opt (view p)) (lookup-merge k (immutable_fields version) state d),
    )
