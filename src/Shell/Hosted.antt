-- ===== src/Shell/Hosted.antt =====
-- What the transport is asked to do leaves the host alone.
use text.Mathlib.Text.{◌==◌}
use cositos.Base.{◌≡◌, refl, ◌∙◌, Bool, true, false, Bool-cases, inl, inr, Option, some, List, ◌∷◌}
use cositos.Value.{Bytes, Value}
use cositos.Errors.{Result, ok, err, ◌>>=◌}
use cositos.Protocol.{CommOpen}
use cositos.Lifecycle.{
  open_phase, is_open, MsgType, comm_open, comm_msg, comm_close, send, Effect, listen_if, reduce,
  reduce_open,
}
use cositos.Shell.{
  on_transport, Call, Transport, Host, Shell, and_then, adopt_id, start_listening, exec_one,
  exec_effect, exec_list, execute_with, execute, open_shell,
}

module _ {T H : Type 0} (tr : Transport T) (ho : Host H) where
  abbrev KeepsHost : Shell T H → Result (Unit {0}) × Shell T H → Type 0
  KeepsHost s o = o.1.host ≡ s.host

  and_then-host :
      (s : Shell T H) (o : Result (Unit {0}) × Shell T H) (f : Call (Shell T H))
      → KeepsHost s o
      → ((s' : Shell T H) → KeepsHost s' (f s'))
      → KeepsHost s (and_then o f)
  and_then-host s (ok u, s') f e keeps = keeps s' ∙ e
  and_then-host s (err x, s') f e keeps = e

  adopt_id-host :
      (m : MsgType) (s : Shell T H)
      → KeepsHost s (adopt_id tr ho (execute_with tr ho (exec_one tr ho 0)) m s)
  unfolding execute_with exec_list reduce
  adopt_id-host comm_open s = elim (Bool-cases (tr.comm_id s.transport == "")) [
    | inl anonymous ↦ rw anonymous refl
    | inr named ↦ rw named refl
  ]
  adopt_id-host comm_msg s = refl
  adopt_id-host comm_close s = refl

  listen-host : (s : Shell T H) → KeepsHost s (start_listening tr ho s)
  listen-host s = elim (Bool-cases s.listening) [
    | inl old ↦ rw old refl
    | inr new ↦ rw new (and_then-host s _ _ refl (λ s'. refl))
  ]

  listen_if-host :
      (b : Bool) (s : Shell T H) → KeepsHost s (exec_list tr ho (exec_one tr ho 1) (listen_if b) s)
  unfolding exec_list exec_one exec_effect
  listen_if-host true s = and_then-host s _ _ (listen-host s) (λ s'. refl)
  listen_if-host false s = refl

  send-host :
      (m : MsgType) (payload : Value) (buffers : List Bytes) (metadata : Option Value)
      (s : Shell T H)
      → KeepsHost s (exec_one tr ho 1 (send m payload buffers metadata) s)
  unfolding exec_one exec_effect
  send-host m payload buffers metadata s =
      and_then-host s (on_transport tr ho (tr.send m payload buffers metadata) s)
        (adopt_id tr ho (execute_with tr ho (exec_one tr ho 0)) m) refl (adopt_id-host m)

  abbrev opening : CommOpen → Effect
  opening m = send comm_open m.payload m.buffers (some m.metadata)

  built_host :
      (r : Result CommOpen) (s : Shell T H)
      → KeepsHost s (
          execute tr ho
            (r >>= λ m. ok (open_phase, opening m ∷ listen_if s.capabilities.supports_receive))
            s)
  unfolding execute execute_with exec_list
  built_host (ok m) s =
      and_then-host s (exec_one tr ho 1 (opening m) (record s { phase = open_phase }))
        (exec_list tr ho (exec_one tr ho 1) (listen_if s.capabilities.supports_receive))
        (send-host comm_open m.payload m.buffers (some m.metadata)
          (record s { phase = open_phase }))
        (listen_if-host s.capabilities.supports_receive)
  built_host (err x) s = refl

  -- `open` leaves the host as it is.
  pub open_shell-host : (s : Shell T H) → KeepsHost s (open_shell tr ho s)
  unfolding open_shell reduce reduce_open
  open_shell-host s = elim (Bool-cases (is_open s.phase)) [
    | inl already ↦ rw already refl
    | inr not_yet ↦ rw not_yet (built_host _ s)
  ]
