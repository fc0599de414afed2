-- ===== src/Widget/Identity.antt =====
-- The façade's copy of the model id.
use cositos.Base.{◌≡◌, refl, sym, ◌∙◌, Bool, true, false, List, [], ◌∷◌, arith}
use cositos.Value.{Bytes, Value, Fields, end}
use cositos.Errors.{Result, ok, err}
use cositos.Protocol.{Message, ignored, update, custom, request_state, parse_message}
use cositos.Lifecycle.{
  Phase, TransportCapabilities, comm_open, comm_msg, comm_close, Effect, send, listen, apply_state,
  invoke_custom, error, Event, send_state, send_custom, inbound, close, reduce, reduce_send_state,
  reduce_send_custom, reduce_inbound, reduce_close,
}
use cositos.Shell.{
  Call, Transport, Host, Shell, exec_one, exec_effect, exec_list, execute_with, execute, open_shell,
  send_state_shell, send_custom_shell, close_shell, handle_inbound, repr_mimebundle, and_then,
}
use cositos.Shell.Conformance.{
  Request, open_request, close_request, repr_request, state_request, custom_request,
  inbound_request, handle,
}
use cositos.Widget
use cositos.Widget.{
  Widget, on_shell, sync_id, open_widget, send_state_widget, send_custom_widget, close_widget,
  bundle_and_sync,
}

-- An effect that is no `comm_open`.
abbrev opens_nothing : List Effect → Bool
opens_nothing [] = true
opens_nothing (send comm_open x bs y ∷ es) = false
opens_nothing (e ∷ es) = opens_nothing es

-- The events that open nothing.
abbrev no_opening : Event → Bool
no_opening (send_state include) = true
no_opening (send_custom content buffers) = true
no_opening (inbound message buffers) = true
no_opening close = true
no_opening _ = false

reduce-opens_nothing :
    (phase : Phase) (event : Event) (current : Fields) (caps : TransportCapabilities) (p : Phase)
    (es : List Effect)
    → no_opening event ≡ true
    → reduce phase event current caps ≡ ok (p, es)
    → opens_nothing es ≡ true
unfolding reduce reduce_send_state reduce_send_custom reduce_inbound reduce_close
reduce-opens_nothing phase (send_state include) current caps p es n h = ground arith
reduce-opens_nothing phase (send_custom content buffers) current caps p es n h = ground arith
reduce-opens_nothing phase (inbound message buffers) current caps p es n h = ground arith
reduce-opens_nothing phase close current caps p es n h = ground arith
reduce-opens_nothing phase _ current caps p es n h = cc n

each_opens_nothing :
    (e : Effect) (es : List Effect)
    → opens_nothing (e ∷ es) ≡ true
    → (opens_nothing (e ∷ []) ≡ true) × (opens_nothing es ≡ true)
each_opens_nothing (send comm_open x bs y) es n = cc n
each_opens_nothing (send comm_msg x bs y) es n = (refl, n)
each_opens_nothing (send comm_close x bs y) es n = (refl, n)
each_opens_nothing listen es n = (refl, n)
each_opens_nothing (apply_state v) es n = (refl, n)
each_opens_nothing (invoke_custom v bs) es n = (refl, n)
each_opens_nothing (error m) es n = (refl, n)

-- a call whose result is not looked at
abbrev pub done : {A S : Type 0} → Result A × S → Result (Unit {0}) × S
done (ok x, s) = (ok tt, s)
done (err e, s) = (err e, s)

module _ {T H : Type 0} (tr : Transport T) (ho : Host H) where
  abbrev Keeps : Shell T H → Result (Unit {0}) × Shell T H → Type 0
  Keeps s o = o.1.model_id ≡ s.model_id

  and_then-Keeps :
      (s : Shell T H) (o : Result (Unit {0}) × Shell T H) (f : Call (Shell T H))
      → Keeps s o
      → ((s' : Shell T H) → Keeps s' (f s'))
      → Keeps s (and_then o f)
  and_then-Keeps s (ok u, s') f k rest = rest s' ∙ k
  and_then-Keeps s (err e, s') f k rest = k

  exec_one-Keeps :
      (e : Effect) (s : Shell T H) → opens_nothing (e ∷ []) ≡ true → Keeps s (exec_one tr ho 1 e s)
  unfolding exec_one exec_effect
  exec_one-Keeps (send comm_open x bs y) s n = cc n
  exec_one-Keeps (send comm_msg x bs y) s n = ground arith
  exec_one-Keeps (send comm_close x bs y) s n = ground arith
  exec_one-Keeps listen s n = ground arith
  exec_one-Keeps (apply_state v) s n = ground arith
  exec_one-Keeps (invoke_custom v bs) s n = ground arith
  exec_one-Keeps (error m) s n = refl

  exec_list-Keeps :
      (es : List Effect) (s : Shell T H)
      → opens_nothing es ≡ true
      → Keeps s (exec_list tr ho (exec_one tr ho 1) es s)
  unfolding exec_list
  exec_list-Keeps [] s n = refl
  exec_list-Keeps (e ∷ es) s n =
      let (now, later) = each_opens_nothing e es n in
      and_then-Keeps s (exec_one tr ho 1 e s) _ (exec_one-Keeps e s now)
        (λ s'. exec_list-Keeps es s' later)

  executed-Keeps :
      (event : Event) (current : Fields) (s : Shell T H) (r : Result (Phase × List Effect))
      → no_opening event ≡ true
      → reduce s.phase event current s.capabilities ≡ r
      → Keeps s (execute tr ho r s)
  unfolding execute execute_with
  executed-Keeps event current s (err e) n known = refl
  executed-Keeps event current s (ok (p, es)) n known =
      exec_list-Keeps es (record s { phase = p })
        (reduce-opens_nothing s.phase event current s.capabilities p es n known)

  inbound-Keeps :
      (m : Message) (payload : Value) (buffers : List Bytes) (s : Shell T H)
      → parse_message payload ≡ m
      → Keeps s (handle_inbound tr ho payload buffers s)
  unfolding handle_inbound
  inbound-Keeps (ignored x) payload buffers s e = rw (e, handle_inbound) refl
  inbound-Keeps (update x y) payload buffers s e =
      rw (e, handle_inbound) (executed-Keeps (inbound payload buffers) _ s _ refl refl)
  inbound-Keeps request_state payload buffers s e =
      rw (e, handle_inbound) (executed-Keeps (inbound payload buffers) _ s _ refl refl)
  inbound-Keeps (custom x) payload buffers s e =
      rw (e, handle_inbound) (executed-Keeps (inbound payload buffers) _ s _ refl refl)

  -- A request to the widget; an inbound message reaches its shell.
  abbrev pub handle_widget : Request → Call (Widget T H)
  handle_widget open_request w = open_widget tr ho w
  handle_widget close_request w = close_widget tr ho w
  handle_widget repr_request w = done (Widget.repr_mimebundle tr ho w)
  handle_widget (state_request include) w = send_state_widget tr ho include w
  handle_widget (custom_request content buffers) w = send_custom_widget tr ho content buffers w
  handle_widget (inbound_request payload buffers) w =
      on_shell tr ho (handle_inbound tr ho payload buffers) w

  -- What each request is to be: the shell's, and the ids agree if it returns.
  abbrev Follows : Shell T H → Result (Unit {0}) × Widget T H → Type 0
  Follows s o = (o.1.shell ≡ s) × (o.0 ≡ ok tt → o.1.model_id ≡ o.1.shell.model_id)

  opened-Follows :
      (w : Widget T H) (o : Result (Unit {0}) × Shell T H)
      → Follows o.1 (and_then (o.0, record w { shell = o.1 }) (sync_id tr ho))
  opened-Follows w (ok u, s) = (refl, λ h. refl)
  opened-Follows w (err x, s) = (refl, λ h. cc h)

  shown-Follows :
      (w : Widget T H) (o : Result Value × Shell T H)
      → Follows o.1 (done (bundle_and_sync tr ho w o))
  shown-Follows w (ok v, s) = (refl, λ h. refl)
  shown-Follows w (err x, s) = (refl, λ h. cc h)

  -- Every request to a widget whose model id is its shell's does to the shell what the shell's own
  -- method does, whether it raises or not, and if it returns the two ids are the same again.
  pub handle_widget-synced :
      (r : Request) (w : Widget T H)
      → w.model_id ≡ w.shell.model_id
      → ((handle_widget r w).1.shell ≡ handle tr ho r w.shell)
        × ((handle_widget r w).0 ≡ ok tt
            → (handle_widget r w).1.model_id ≡ (handle_widget r w).1.shell.model_id)
  unfolding handle open_widget send_state_widget send_custom_widget close_widget
      Widget.repr_mimebundle send_state_shell send_custom_shell close_shell
  handle_widget-synced open_request w e = opened-Follows w (open_shell tr ho w.shell)
  handle_widget-synced close_request w e =
      (refl, λ h. e ∙ sym (executed-Keeps close end w.shell _ refl refl))
  handle_widget-synced repr_request w e = shown-Follows w (repr_mimebundle tr ho w.shell)
  handle_widget-synced (state_request include) w e =
      (refl, λ h. e ∙ sym (executed-Keeps (send_state include) _ w.shell _ refl refl))
  handle_widget-synced (custom_request content buffers) w e =
      (refl, λ h. e ∙ sym (executed-Keeps (send_custom content buffers) _ w.shell _ refl refl))
  handle_widget-synced (inbound_request payload buffers) w e =
      (refl, λ h. e ∙ sym (inbound-Keeps _ payload buffers w.shell refl))
