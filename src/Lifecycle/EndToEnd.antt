-- ===== src/Lifecycle/EndToEnd.antt =====
-- A message of one widget, received by another.
use cositos.Base.{◌≡◌, true, Option, none, List, [], ◌∷◌, Bool-cases, inl, inr}
use cositos.Value.{Key, fresh, Bytes, Value, Fields, dict}
use cositos.Value.View.{Same}
use cositos.Errors.{ok}
use cositos.Buffers.Strip.{strip, holds_fields}
use cositos.Buffers.Removed.{split_of}
use cositos.Buffers.Accepts.{IsAccepted, remove_buffers-IsAccepted}
use cositos.Buffers.Inverse.{put_buffers-remove_buffers}
use cositos.Protocol.{build_update, update_payload, paths_value}
use cositos.Protocol.Wire.{value_paths-paths_value, parse_message-update_payload}
use cositos.Lifecycle.{
  open_phase, TransportCapabilities, comm_msg, send, apply_state, send_state, inbound, selected,
  merged_state, dict_copy, reduce, reduce_send_state, reduce_inbound,
}

-- What `remove_buffers` leaves of a dict that a call has made is such a dict again.
dict_copy-strip : (fs : Fields) → dict_copy (strip (dict fresh fs)) ≡ ok (strip (dict fresh fs))
unfolding strip
dict_copy-strip fs = elim (Bool-cases (holds_fields fs)) [ inl h ↦ rw h | inr h ↦ rw h ]

module _ (fs : Fields) (accepted : IsAccepted (dict fresh fs)) where
  abbrev payload : Value
  payload = update_payload (split_of (dict fresh fs)).state (split_of (dict fresh fs)).buffer_paths

  build_update-eq :
      build_update (dict fresh fs)
      ≡ ok (record { payload = payload; buffers = (split_of (dict fresh fs)).buffers })
  unfolding build_update
  build_update-eq = rw (remove_buffers-IsAccepted (dict fresh fs) accepted)

  dict_copy-split_of :
      dict_copy (split_of (dict fresh fs)).state ≡ ok (split_of (dict fresh fs)).state
  unfolding split_of
  dict_copy-split_of = dict_copy-strip fs

  -- The message carries the state whole: the receiver's merge makes a state that says the same.
  merged_state-build_update :
      (w : Value) × (merged_state
          (split_of (dict fresh fs)).state
          (paths_value (split_of (dict fresh fs)).buffer_paths)
          (split_of (dict fresh fs)).buffers
        ≡ ok w)
      × Same (dict fresh fs) w
  unfolding merged_state
  merged_state-build_update =
      let (w, back, same) = put_buffers-remove_buffers (dict fresh fs) accepted in
      (
        w,
        rw (dict_copy-split_of, value_paths-paths_value)
            (rw (remove_buffers-IsAccepted (dict fresh fs) accepted) at back),
        same,
      )

-- Over a transport that can carry buffers, `send_state` of an open widget, whose state or selection is
-- accepted, raises nothing and sends one update. An open widget that receives it, whatever its own state and its transport, raises nothing,
-- stays open, and applies one state, which says the same as the one that was sent: the full state
-- with those identity fields that it does not set itself, or the included keys alone, binary values and all.
pub send_state-inbound :
    (include : Option (List Key)) (current other : Fields) (caps caps' : TransportCapabilities)
    → caps.supports_buffers ≡ true
    → IsAccepted (dict fresh (selected include current))
    → (m : Value) × (bs : List Bytes) × (w : Value) × (reduce open_phase
          (send_state include)
          current
          caps
        ≡ ok (open_phase, send comm_msg m bs none ∷ []))
      × (reduce open_phase (inbound m bs) other caps' ≡ ok (open_phase, apply_state w ∷ []))
      × Same (dict fresh (selected include current)) w
unfolding reduce reduce_send_state reduce_inbound
send_state-inbound include current other caps caps' carries accepted =
    let fs = selected include current in
    let (w, merged, same) = merged_state-build_update fs accepted in
    (
      payload fs accepted,
      (split_of (dict fresh fs)).buffers,
      w,
      rw (build_update-eq fs accepted),
      rw (parse_message-update_payload, merged),
      same,
    )
