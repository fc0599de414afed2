-- ===== src/Lifecycle/Guards.antt =====
-- Phases and refusals of the reducer.
use cositos.Base.{
  ◌≡◌, Bool, true, false, not, ◌&&◌, ◌||◌, List, [], ◌∷◌, arith, length, if◌then◌else◌,
}
use cositos.Value.{Fields}
use cositos.Errors.{ok}
use cositos.Lifecycle.{
  Phase, open_phase, closed, TransportCapabilities, Effect, error, Event, open_comm, send_state,
  send_custom, inbound, close, comm_id_assigned, unknown, is_open, any_buffers, reduce, reduce_open,
  reduce_send_state, reduce_send_custom, reduce_inbound, reduce_close,
}

-- The phase that an event leads to, whatever the state and the capabilities.
abbrev pub next_phase : Phase → Event → Phase
next_phase phase open_comm = open_phase
next_phase phase (comm_id_assigned id) = open_phase
next_phase phase close = if is_open phase then closed else phase
next_phase phase _ = phase

-- The calls that the reducer refuses: a message that needs an open comm; a custom message that the
-- transport cannot carry, or whose buffers it cannot; and an event of no known type.
abbrev pub refused : Phase → Event → TransportCapabilities → Bool
refused phase (send_state include) caps = not (is_open phase)
refused phase (send_custom content buffers) caps =
    not (is_open phase)
    || not caps.supports_custom
    || (not caps.supports_buffers && any_buffers buffers)
refused phase (unknown type) caps = true
refused phase _ caps = false

abbrev pub is_error : Effect → Bool
is_error (error message) = true
is_error _ = false

abbrev pub any_error : List Effect → Bool
any_error [] = false
any_error (e ∷ es) = is_error e || any_error es

-- Each call of the reducer that returns takes the phase to the next one, and has an error effect
-- just if the call is refused; then that effect is the only one. A lack of buffer support refuses
-- custom messages alone: `open` and `send_state` of a state with binary values are not refused, although
-- the specification of the shell asks for that.
pub reduce_guarded :
    (phase : Phase) (event : Event) (current : Fields) (caps : TransportCapabilities) (p : Phase)
    (es : List Effect)
    → reduce phase event current caps ≡ ok (p, es)
    → (p ≡ next_phase phase event)
      × (any_error es ≡ refused phase event caps)
      × (any_error es ≡ true → length es ≡ 1)
unfolding reduce reduce_open reduce_send_state reduce_send_custom reduce_inbound reduce_close
reduce_guarded phase open_comm current caps p es h = ground arith
reduce_guarded phase (send_state include) current caps p es h = ground arith
reduce_guarded phase (send_custom content buffers) current caps p es h = ground arith
reduce_guarded phase (inbound message buffers) current caps p es h = ground arith
reduce_guarded phase close current caps p es h = ground arith
reduce_guarded phase (comm_id_assigned id) current caps p es h = ground arith
reduce_guarded phase (unknown type) current caps p es h = ground arith
