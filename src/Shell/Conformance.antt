-- ===== src/Shell/Conformance.antt =====
-- Every call of a shell keeps its phase in step with what the other end has seen.
use cositos.Base.{
  ◌≡◌, refl, true, Option, some, List, [], ◌∷◌, if◌then◌else◌, Bool-cases, inl, inr, String,
}
use cositos.Value.{Bytes, Value, Fields, Key, end}
use cositos.Errors.{Result, ok, err}
use cositos.Protocol.{Message, ignored, update, custom, request_state, parse_message}
use cositos.Lifecycle.{
  Phase, unopened, is_open, TransportCapabilities, MsgType, Effect, Event, open_comm, send_state,
  send_custom, inbound, close, reduce,
}
use cositos.Lifecycle.Grammar.{assigned_open, follows_one}
use cositos.Shell.{
  Transport, Host, Shell, new_shell, execute_with, execute, open_shell, send_state_shell,
  send_custom_shell, close_shell, handle_inbound, repr_mimebundle, bundle_after,
}
use cositos.Shell.Messages.{replay, IsReliable, InStep, exec_list-InStep, reduce-WellPlaced}

-- What a program or the transport does with a shell.
pub data Request : Type 0 where
  open_request close_request repr_request : Request
  state_request : Option (List Key) → Request
  custom_request : Value → List Bytes → Request
  inbound_request : Value → List Bytes → Request

module _ {T H : Type 0} (tr : Transport T) (ho : Host H) where
  -- The shell after a request, also after one that raises.
  unfoldable pub handle : Request → Shell T H → Shell T H
  handle open_request s = (open_shell tr ho s).1
  handle close_request s = (close_shell tr ho s).1
  handle repr_request s = (repr_mimebundle tr ho s).1
  handle (state_request include) s = (send_state_shell tr ho include s).1
  handle (custom_request content buffers) s = (send_custom_shell tr ho content buffers s).1
  handle (inbound_request payload buffers) s = (handle_inbound tr ho payload buffers s).1

  unfoldable pub handle_all : List Request → Shell T H → Shell T H
  handle_all [] s = s
  handle_all (r ∷ rs) s = handle_all rs (handle r s)

module _ {T H : Type 0} (tr : Transport T) (ho : Host H) (sent : T → List MsgType)
    (reliable : IsReliable tr sent) where
  abbrev Kept : Shell T H → Type 0
  Kept = InStep tr ho sent reliable

  executed :
      (event : Event) (current : Fields) (s : Shell T H) (r : Result (Phase × List Effect))
      → assigned_open s.phase event ≡ true
      → Kept s
      → reduce s.phase event current s.capabilities ≡ r
      → Kept (execute tr ho r s).1
  unfolding execute execute_with
  executed event current s (err e) a kept known = kept
  executed event current s (ok (p, es)) a kept known =
      exec_list-InStep tr ho sent reliable es s.phase p (record s { phase = p }) refl kept
        (reduce-WellPlaced s.phase event current s.capabilities p es known)
        (follows_one s.phase event current s.capabilities p es a known)

  opened : (s : Shell T H) → Kept s → Kept (open_shell tr ho s).1
  unfolding open_shell
  opened s kept = elim (Bool-cases (is_open s.phase)) [
    | inl open_already ↦ rw open_already kept
    | inr fresh_open ↦ rw fresh_open (executed open_comm _ s _ refl kept refl)
  ]

  bundled : (o : Result (Unit {0}) × Shell T H) → Kept o.1 → Kept (bundle_after tr ho o).1
  bundled (ok u, s) kept = kept
  bundled (err e, s) kept = kept

  opened_if_needed :
      (s : Shell T H) → Kept s → Kept (if is_open s.phase then (ok tt, s) else open_shell tr ho s).1
  opened_if_needed s kept = elim (Bool-cases (is_open s.phase)) [
    | inl open_already ↦ rw open_already kept
    | inr not_yet ↦ rw not_yet (opened s kept)
  ]

  received :
      (m : Message) (payload : Value) (buffers : List Bytes) (s : Shell T H)
      → parse_message payload ≡ m
      → Kept s
      → Kept (handle_inbound tr ho payload buffers s).1
  unfolding handle_inbound
  received (ignored x) payload buffers s e kept = rw (e, handle_inbound) kept
  received (update x y) payload buffers s e kept =
      rw (e, handle_inbound) (executed (inbound payload buffers) _ s _ refl kept refl)
  received request_state payload buffers s e kept =
      rw (e, handle_inbound) (executed (inbound payload buffers) _ s _ refl kept refl)
  received (custom x) payload buffers s e kept =
      rw (e, handle_inbound) (executed (inbound payload buffers) _ s _ refl kept refl)

  handled : (r : Request) (s : Shell T H) → Kept s → Kept (handle tr ho r s)
  unfolding handle repr_mimebundle send_state_shell send_custom_shell close_shell
  handled open_request s kept = opened s kept
  handled close_request s kept = executed close end s _ refl kept refl
  handled repr_request s kept = bundled _ (opened_if_needed s kept)
  handled (state_request include) s kept = executed (send_state include) _ s _ refl kept refl
  handled (custom_request content buffers) s kept =
      executed (send_custom content buffers) _ s _ refl kept refl
  handled (inbound_request payload buffers) s kept = received _ payload buffers s refl kept

  all_handled : (rs : List Request) (s : Shell T H) → Kept s → Kept (handle_all tr ho rs s)
  unfolding handle_all
  all_handled [] s kept = kept
  all_handled (r ∷ rs) s kept = all_handled rs (handle tr ho r s) (handled r s kept)

  -- A new shell on a transport that never raises on `send` and has sent nothing: after any requests,
  -- those that raise among them, the messages that the transport has sent follow the comm protocol,
  -- and the shell's phase is the one that the other end has seen.
  pub handle_all-InStep :
      (rs : List Request) (t : T) (h : H) (model_id : String) (caps : Option TransportCapabilities)
      → sent t ≡ []
      → let s = handle_all tr ho rs (new_shell tr ho t h model_id caps) in
        replay (some unopened) (sent s.transport) ≡ some s.phase
  unfolding new_shell replay
  handle_all-InStep rs t h model_id caps quiet =
      all_handled rs (new_shell tr ho t h model_id caps) (rw quiet)
