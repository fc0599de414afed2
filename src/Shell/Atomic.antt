-- ===== src/Shell/Atomic.antt =====
-- What a call of the shell that raises leaves behind.
use text.Mathlib.Text.{◌==◌}
use cositos.Base.{
  ◌≡◌, refl, ap, Bool, true, false, ◌||◌, Bool-cases, inl, inr, Option, none, some, List, [], ◌∷◌,
  if◌then◌else◌, arith,
}
use cositos.Value.{Bytes, Value, Fields, end}
use cositos.Errors.{Error, Result, ok, err}
use cositos.Protocol.{Message, ignored, update, custom, request_state, parse_message}
use cositos.Lifecycle.{
  Phase, is_open, TransportCapabilities, MsgType, comm_open, comm_msg, comm_close, Effect, send,
  listen, apply_state, invoke_custom, error, Event, open_comm, send_state, send_custom, inbound,
  close, comm_id_assigned, unknown, reduce, reduce_open, reduce_send_state, reduce_send_custom,
  reduce_inbound, reduce_close,
}
use cositos.Lifecycle.Guards.{is_error, any_error}
use cositos.Shell.{
  Call, Transport, Host, Shell, and_then, exec_effect, exec_list, exec_one, execute_with, execute,
  open_shell, send_state_shell, send_custom_shell, close_shell, handle_inbound, repr_mimebundle,
  on_host, bundle_after,
}
use cositos.Shell.Conformance.{
  Request, open_request, close_request, repr_request, state_request, custom_request,
  inbound_request,
}

-- A transport of which no operation raises.
pub record NeverRaises {T : Type 0} (tr : Transport T) : Type 0 where
  pub send_ok :
      (m : MsgType) (x : Value) (bs : List Bytes) (y : Option Value) (t : T)
      → (tr.send m x bs y t).0 ≡ ok tt
  pub on_message_ok : (t : T) → (tr.on_message t).0 ≡ ok tt

-- A host whose callbacks, where it has them, return.
pub record CallbacksReturn {H : Type 0} (ho : Host H) : Type 0 where
  pub set_state_ok :
      (f : Value → Call H) (v : Value) (h : H) → ho.set_state ≡ some f → (f v h).0 ≡ ok tt
  pub on_custom_ok :
      (f : Value → List Bytes → Call H) (v : Value) (bs : List Bytes) (h : H)
      → ho.on_custom ≡ some f
      → (f v bs h).0 ≡ ok tt

-- An error effect comes alone, and beside the phase that it was in.
reduce-any_error :
    (phase : Phase) (event : Event) (current : Fields) (caps : TransportCapabilities) (p : Phase)
    (e : Effect) (es : List Effect)
    → reduce phase event current caps ≡ ok (p, e ∷ es)
    → any_error (e ∷ es) ≡ true
    → (is_error e ≡ true) × (es ≡ []) × (p ≡ phase)
unfolding reduce reduce_open reduce_send_state reduce_send_custom reduce_inbound reduce_close
reduce-any_error phase open_comm current caps p e es h a = ground arith
reduce-any_error phase (send_state include) current caps p e es h a = ground arith
reduce-any_error phase (send_custom content buffers) current caps p e es h a = ground arith
reduce-any_error phase (inbound message buffers) current caps p e es h a = ground arith
reduce-any_error phase close current caps p e es h a = ground arith
reduce-any_error phase (comm_id_assigned id) current caps p e es h a = ground arith
reduce-any_error phase (unknown type) current caps p e es h a = ground arith

or_false : (a b : Bool) → (a || b) ≡ false → (a ≡ false) × (b ≡ false)
or_false a b h = ground arith

abbrev pub without_bundle : {S : Type 0} → Result Value × S → Result (Unit {0}) × S
without_bundle (ok v, s) = (ok tt, s)
without_bundle (err e, s) = (err e, s)

module _ {T H : Type 0} (tr : Transport T) (ho : Host H) where
  -- What a request returns, and the shell after it. A bundle that it returns is not kept.
  abbrev pub attempt : Request → Call (Shell T H)
  attempt open_request s = open_shell tr ho s
  attempt close_request s = close_shell tr ho s
  attempt repr_request s = without_bundle (repr_mimebundle tr ho s)
  attempt (state_request include) s = send_state_shell tr ho include s
  attempt (custom_request content buffers) s = send_custom_shell tr ho content buffers s
  attempt (inbound_request payload buffers) s = handle_inbound tr ho payload buffers s

  module _ (never : NeverRaises tr) (callbacks : CallbacksReturn ho) where
    applied :
        (v : Value) (s : Shell T H) (g : Option (Value → Call H))
        → ((f : Value → Call H) → g ≡ some f → (f v s.host).0 ≡ ok tt)
        → (elim g as (λ x. Result (Unit {0}) × Shell T H) [
          | none ↦ (ok tt, s)
          | some f ↦ on_host tr ho (f v) s
        ]).0
          ≡ ok tt
    applied v s none k = refl
    applied v s (some f) k = k f refl

    customized :
        (v : Value) (bs : List Bytes) (s : Shell T H) (g : Option (Value → List Bytes → Call H))
        → ((f : Value → List Bytes → Call H) → g ≡ some f → (f v bs s.host).0 ≡ ok tt)
        → (elim g as (λ x. Result (Unit {0}) × Shell T H) [
          | none ↦ (ok tt, s)
          | some f ↦ on_host tr ho (f v bs) s
        ]).0
          ≡ ok tt
    customized v bs s none k = refl
    customized v bs s (some f) k = k f refl

    exec_one-ok :
        (e : Effect) (s : Shell T H) → is_error e ≡ false → (exec_one tr ho 1 e s).0 ≡ ok tt
    unfolding exec_one exec_effect execute_with exec_list reduce
    exec_one-ok (send comm_open x bs y) s n =
        rw (never.send_ok comm_open x bs y s.transport)
          (elim (Bool-cases (tr.comm_id (tr.send comm_open x bs y s.transport).1 == "")) [
            | inl anonymous ↦ rw anonymous refl
            | inr named ↦ rw named refl
          ])
    exec_one-ok (send comm_msg x bs y) s n = rw (never.send_ok comm_msg x bs y s.transport) refl
    exec_one-ok (send comm_close x bs y) s n = rw (never.send_ok comm_close x bs y s.transport) refl
    exec_one-ok listen s n = elim (Bool-cases s.listening) [
      | inl old ↦ rw old refl
      | inr new ↦ rw (new, never.on_message_ok s.transport) refl
    ]
    exec_one-ok (apply_state v) s n =
        applied v s ho.set_state (λ f e. callbacks.set_state_ok f v s.host e)
    exec_one-ok (invoke_custom v bs) s n =
        customized v bs s ho.on_custom (λ f e. callbacks.on_custom_ok f v bs s.host e)
    exec_one-ok (error m) s n = cc n

    and_then-ok :
        (o : Result (Unit {0}) × Shell T H) (f : Call (Shell T H))
        → o.0 ≡ ok tt
        → ((s : Shell T H) → (f s).0 ≡ ok tt)
        → (and_then o f).0 ≡ ok tt
    and_then-ok (ok u, s) f h k = k s
    and_then-ok (err e, s) f h k = cc h

    exec_list-ok :
        (es : List Effect) (s : Shell T H)
        → any_error es ≡ false
        → (exec_list tr ho (exec_one tr ho 1) es s).0 ≡ ok tt
    unfolding exec_list
    exec_list-ok [] s n = refl
    exec_list-ok (e ∷ es) s n =
        and_then-ok (exec_one tr ho 1 e s) _
          (exec_one-ok e s (or_false (is_error e) (any_error es) n).0)
          (λ s'. exec_list-ok es s' (or_false (is_error e) (any_error es) n).1)

  -- A call that raises leaves the shell as it was.
  abbrev Unchanged : Shell T H → Result (Unit {0}) × Shell T H → Type 0
  Unchanged s o = (x : Error) → o.0 ≡ err x → o.1 ≡ s

  error_alone :
      (e : Effect) (es : List Effect) (p : Phase) (s : Shell T H)
      → (is_error e ≡ true) × (es ≡ []) × (p ≡ s.phase)
      → Unchanged s (exec_list tr ho (exec_one tr ho 1) (e ∷ es) (record s { phase = p }))
  unfolding exec_list exec_one exec_effect
  error_alone (error m) es p s h x raised = ap (λ q. record s { phase = q }) h.2
  error_alone (send m y bs z) es p s h x raised = cc h.0
  error_alone listen es p s h x raised = cc h.0
  error_alone (apply_state v) es p s h x raised = cc h.0
  error_alone (invoke_custom v bs) es p s h x raised = cc h.0

  module _ (never : NeverRaises tr) (callbacks : CallbacksReturn ho) where
    executed :
        (event : Event) (current : Fields) (s : Shell T H) (r : Result (Phase × List Effect))
        → reduce s.phase event current s.capabilities ≡ r
        → Unchanged s (execute tr ho r s)
    unfolding execute execute_with exec_list
    executed event current s (err e) known x raised = refl
    executed event current s (ok (p, [])) known x raised = cc raised
    executed event current s (ok (p, e ∷ es)) known x raised =
        elim (Bool-cases (any_error (e ∷ es))) [
          | inl refused ↦
              error_alone e es p s
                (reduce-any_error s.phase event current s.capabilities p e es known refused) x
                raised
          | inr fine ↦
              cc (exec_list-ok never callbacks (e ∷ es) (record s { phase = p }) fine, raised)
        ]

    opened : (s : Shell T H) → Unchanged s (open_shell tr ho s)
    unfolding open_shell
    opened s x = elim (Bool-cases (is_open s.phase)) [
      | inl old ↦ rw old (λ raised. refl)
      | inr new ↦ rw new (executed open_comm _ s _ refl x)
    ]

    shown :
        (s : Shell T H) (o : Result (Unit {0}) × Shell T H)
        → Unchanged s o
        → Unchanged s (without_bundle (bundle_after tr ho o))
    shown s (ok u, s') h x raised = cc raised
    shown s (err e, s') h x raised = h e refl

    opened_if_needed :
        (s : Shell T H) → Unchanged s (if is_open s.phase then (ok tt, s) else open_shell tr ho s)
    opened_if_needed s x = elim (Bool-cases (is_open s.phase)) [
      | inl old ↦ rw old (λ raised. refl)
      | inr new ↦ rw new (opened s x)
    ]

    received :
        (m : Message) (payload : Value) (buffers : List Bytes) (s : Shell T H)
        → parse_message payload ≡ m
        → Unchanged s (handle_inbound tr ho payload buffers s)
    unfolding handle_inbound
    received (ignored y) payload buffers s e x = rw (e, handle_inbound) (λ raised. refl)
    received (update y z) payload buffers s e x =
        rw (e, handle_inbound) (executed (inbound payload buffers) _ s _ refl x)
    received request_state payload buffers s e x =
        rw (e, handle_inbound) (executed (inbound payload buffers) _ s _ refl x)
    received (custom y) payload buffers s e x =
        rw (e, handle_inbound) (executed (inbound payload buffers) _ s _ refl x)

    -- Over a transport of which no operation raises, and for a host whose `set_state` and `on_custom`
    -- return, a request to the shell that raises has changed nothing: not the shell, nor its
    -- transport, nor the host.
    pub attempt-unchanged :
        (r : Request) (s : Shell T H) (x : Error) → (attempt r s).0 ≡ err x → (attempt r s).1 ≡ s
    unfolding send_state_shell send_custom_shell close_shell repr_mimebundle
    attempt-unchanged open_request s x = opened s x
    attempt-unchanged close_request s x = executed close end s _ refl x
    attempt-unchanged repr_request s x = shown s _ (opened_if_needed s) x
    attempt-unchanged (state_request include) s x = executed (send_state include) _ s _ refl x
    attempt-unchanged (custom_request content buffers) s x =
        executed (send_custom content buffers) _ s _ refl x
    attempt-unchanged (inbound_request payload buffers) s x = received _ payload buffers s refl x
