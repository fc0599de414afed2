-- ===== src/Jupyter/Listening.antt =====
-- Whether the comm of an open widget has a handler for inbound messages.
use text.Mathlib.Text.{◌==◌}
use cositos.Base.{◌≡◌, refl, Bool, true, false, not, Option, none, some, List, Bool-cases, inl, inr}
use cositos.Value.{Bytes, Value}
use cositos.Errors.{Result, ok}
use cositos.Protocol.{CommOpen, build_comm_open, anywidget_module_version}
use cositos.Lifecycle.{open_phase, is_open, reduce, reduce_open, full_state}
use cositos.Shell.{
  Host, Shell, exec_one, exec_effect, exec_list, execute_with, execute, open_shell, and_then,
  start_listening,
}
use cositos.Jupyter.{
  CommPackage, CommTransport, comm_transport, bind, open_comm, send, on_message, comm_id, or_none,
}

-- What the package documents of handlers: a new comm has none, and `on_msg` gives it one.
pub record Handles {C K : Type 0} (comms : CommPackage C K) (has_handler : C → K → Bool)
    : Type 0 where
  pub created :
      (content metadata : Value) (buffers : Option (List Bytes)) (k : K)
      → let (c, k') = comms.create_comm content metadata buffers k in has_handler c k' ≡ false
  pub registered : (c : C) (k : K) → has_handler c (comms.on_msg c k) ≡ true

module _ {C K H : Type 0} (comms : CommPackage C K) (has_handler : C → K → Bool)
    (handles : Handles comms has_handler) (ho : Host H) where
  -- Does the transport's comm have a handler? `none` if it has no comm.
  abbrev pub hears : CommTransport C K → Option Bool
  hears t = elim t.comm [ none ↦ none | some c ↦ some (has_handler c t.kernel) ]

  abbrev pub reopened :
      Shell (CommTransport C K) H → Result (Unit {0}) × Shell (CommTransport C K) H
  reopened s = open_shell (comm_transport comms) ho s

  abbrev made : Shell (CommTransport C K) H → CommOpen → C × K
  made s m = comms.create_comm m.payload m.metadata (or_none m.buffers) s.transport.kernel

  -- what is left to do after `comm_open` of a shell whose new comm has no handler
  started :
      (s : Shell (CommTransport C K) H) (c : C)
      → s.phase ≡ open_phase
      → s.transport.comm ≡ some c
      → has_handler c s.transport.kernel ≡ false
      → let o = and_then (start_listening (comm_transport comms) ho s) (λ x. (ok tt, x)) in
        (o.0 ≡ ok tt) × (o.1.phase ≡ open_phase) × (hears o.1.transport ≡ some (not s.listening))
  unfolding on_message bind
  started s c phase comm deaf = elim (Bool-cases s.listening) [
    | inl already ↦ rw (already, phase, comm, deaf) (refl, refl, refl)
    | inr not_yet ↦
        rw (not_yet, phase, comm, handles.registered c s.transport.kernel) (refl, refl, refl)
  ]

  -- Opening a shell that is not open, whose capabilities say that the transport can receive, whose
  -- transport has no handler pending, and of whose state a `comm_open` can be built, returns and leaves
  -- it open; its new comm has the handler for inbound messages exactly if the shell was not listening
  -- before.
  pub open_shell-hears :
      (s : Shell (CommTransport C K) H) (m : CommOpen)
      → is_open s.phase ≡ false
      → s.capabilities.supports_receive ≡ true
      → s.transport.pending ≡ false
      → build_comm_open (full_state (ho.get_state s.host)) anywidget_module_version ≡ ok m
      → ((reopened s).0 ≡ ok tt)
        × ((reopened s).1.phase ≡ open_phase)
        × (hears (reopened s).1.transport ≡ some (not s.listening))
  unfolding open_shell execute execute_with exec_list exec_one exec_effect reduce reduce_open send
      open_comm on_message bind comm_id
  open_shell-hears s m shut receives idle built =
      rw (shut, built, receives, open_comm, idle)
        (elim (Bool-cases (comms.comm_id (made s m).0 == "")) [
          | inl no_id ↦ rw no_id (started _ (made s m).0 refl refl (handles.created _ _ _ _))
          | inr an_id ↦ rw an_id (started _ (made s m).0 refl refl (handles.created _ _ _ _))
        ])
