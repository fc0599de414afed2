-- ===== src/Shell/Messages.antt =====
-- The messages that a shell's transport has sent follow the comm protocol, whatever the calls.
use text.Mathlib.Text.{◌==◌}
use mathlib.Core.Option.{some-injective}
use cositos.Base.{
  ◌≡◌, refl, sym, ap, ◌∙◌, Option, none, some, List, [], ◌∷◌, ◌++◌, arith, Bool-cases, inl, inr,
}
use cositos.Value.{Bytes, Value, Fields}
use cositos.Errors.{Result, ok, err}
use cositos.Lifecycle.{
  Phase, unopened, open_phase, TransportCapabilities, MsgType, comm_open, comm_msg, comm_close,
  Effect, send, listen, apply_state, invoke_custom, error, Event, open_comm, send_state,
  send_custom, inbound, close, comm_id_assigned, unknown, reduce, reduce_open, reduce_send_state,
  reduce_send_custom, reduce_inbound, reduce_close,
}
use cositos.Lifecycle.Grammar.{receives, receives_opt, follows}
use cositos.Shell.{
  Call, Transport, Host, Shell, exec_one, exec_effect, execute_with, exec_list, and_then,
}

-- The phase that the other end has seen after some messages.
unfoldable pub replay : Option Phase → List MsgType → Option Phase
replay p [] = p
replay p (m ∷ l) = replay (receives_opt p m) l

replay-append :
    (p : Option Phase) (l : List MsgType) (m : MsgType)
    → replay p (l ++ m ∷ []) ≡ receives_opt (replay p l) m
unfolding replay
replay-append p [] m = refl
replay-append p (k ∷ l) m = replay-append (receives_opt p k) l m

-- A transport that never raises on `send`, by a log of the messages that it has sent.
pub record IsReliable {T : Type 0} (tr : Transport T) (sent : T → List MsgType) : Type 0 where
  pub send_ok :
      (m : MsgType) (x : Value) (bs : List Bytes) (y : Option Value) (t : T)
      → (tr.send m x bs y t).0 ≡ ok tt
  pub sent-send :
      (m : MsgType) (x : Value) (bs : List Bytes) (y : Option Value) (t : T)
      → sent (tr.send m x bs y t).1 ≡ sent t ++ m ∷ []
  pub sent-on_message : (t : T) → sent (tr.on_message t).1 ≡ sent t

-- What the reducer's effects look like beside the phase that they lead to: a `comm_open` leads to
-- the open phase, and a listen or an error comes last.
abbrev pub WellPlaced : Phase → List Effect → Type 0
WellPlaced p [] = Unit
WellPlaced p (send comm_open x bs y ∷ es) = (p ≡ open_phase) × WellPlaced p es
WellPlaced p (listen ∷ es) = es ≡ []
WellPlaced p (error message ∷ es) = es ≡ []
WellPlaced p (apply_state v ∷ es) = es ≡ []
WellPlaced p (invoke_custom v bs ∷ es) = es ≡ []
WellPlaced p (send m x bs y ∷ es) = WellPlaced p es

first_WellPlaced :
    (m : MsgType) (x : Value) (bs : List Bytes) (y : Option Value) (es : List Effect) (p : Phase)
    → WellPlaced p (send m x bs y ∷ es)
    → WellPlaced p (send m x bs y ∷ [])
first_WellPlaced comm_open x bs y es p w = (w.0, tt)
first_WellPlaced comm_msg x bs y es p w = tt
first_WellPlaced comm_close x bs y es p w = tt

rest_WellPlaced :
    (m : MsgType) (x : Value) (bs : List Bytes) (y : Option Value) (es : List Effect) (p : Phase)
    → WellPlaced p (send m x bs y ∷ es)
    → WellPlaced p es
rest_WellPlaced comm_open x bs y es p w = w.1
rest_WellPlaced comm_msg x bs y es p w = w
rest_WellPlaced comm_close x bs y es p w = w

nil_WellPlaced : (es : List Effect) (p : Phase) → es ≡ [] → WellPlaced p es
nil_WellPlaced es p e = rw e tt

pub reduce-WellPlaced :
    (phase : Phase) (event : Event) (current : Fields) (caps : TransportCapabilities) (p : Phase)
    (es : List Effect)
    → reduce phase event current caps ≡ ok (p, es)
    → WellPlaced p es
unfolding reduce reduce_open reduce_send_state reduce_send_custom reduce_inbound reduce_close
reduce-WellPlaced phase open_comm current caps p es h = ground arith
reduce-WellPlaced phase (send_state include) current caps p es h = ground arith
reduce-WellPlaced phase (send_custom content buffers) current caps p es h = ground arith
reduce-WellPlaced phase (inbound message buffers) current caps p es h = ground arith
reduce-WellPlaced phase close current caps p es h = ground arith
reduce-WellPlaced phase (comm_id_assigned id) current caps p es h = ground arith
reduce-WellPlaced phase (unknown type) current caps p es h = ground arith

module _ {T H : Type 0} (tr : Transport T) (ho : Host H) (sent : T → List MsgType)
    (reliable : IsReliable tr sent) where
  -- What the other end has seen of the messages so far.
  abbrev pub Seen : Phase → Shell T H → Type 0
  Seen q s = replay (some unopened) (sent s.transport) ≡ some q

  -- The phase is what the other end has seen.
  abbrev pub InStep : Shell T H → Type 0
  InStep s = Seen s.phase s

  -- Sending a message: it returns, keeps the phase it is sent in, and the other end sees it.
  abbrev Sends : Phase → Option Phase → Result (Unit {0}) × Shell T H → Type 0
  Sends p q o = (o.0 ≡ ok tt) × (o.1.phase ≡ p) × (replay (some unopened) (sent o.1.transport) ≡ q)

  send-Seen :
      (q : Phase) (m : MsgType) (x : Value) (bs : List Bytes) (y : Option Value) (s : Shell T H)
      → Seen q s
      → replay (some unopened) (sent (tr.send m x bs y s.transport).1) ≡ receives q m
  send-Seen q m x bs y s seen = rw (reliable.sent-send m x bs y s.transport, replay-append, seen)

  exec_send :
      (q p : Phase) (m : MsgType) (x : Value) (bs : List Bytes) (y : Option Value) (s : Shell T H)
      → s.phase ≡ p
      → Seen q s
      → WellPlaced p (send m x bs y ∷ [])
      → Sends p (receives q m) (exec_one tr ho 1 (send m x bs y) s)
  unfolding exec_one exec_effect execute_with exec_list reduce
  exec_send q p comm_open x bs y s e seen w =
      rw (reliable.send_ok comm_open x bs y s.transport)
        (elim (Bool-cases (tr.comm_id (tr.send comm_open x bs y s.transport).1 == "")) [
          | inl anonymous ↦ rw anonymous (refl, e, send-Seen q comm_open x bs y s seen)
          | inr named ↦ rw named (refl, sym w.0, send-Seen q comm_open x bs y s seen)
        ])
  exec_send q p comm_msg x bs y s e seen w =
      rw (reliable.send_ok comm_msg x bs y s.transport)
        (refl, e, send-Seen q comm_msg x bs y s seen)
  exec_send q p comm_close x bs y s e seen w =
      rw (reliable.send_ok comm_close x bs y s.transport)
        (refl, e, send-Seen q comm_close x bs y s seen)

  -- The rest of the effects, after one that has returned.
  after_send :
      (q : Option Phase) (p : Phase) (f : Call (Shell T H)) (o : Result (Unit {0}) × Shell T H)
      → Sends p q o
      → ((r : Phase) (s : Shell T H) → q ≡ some r → s.phase ≡ p → Seen r s → InStep (f s).1)
      → (r : Phase) → q ≡ some r
      → InStep (and_then o f).1
  after_send q p f (ok u, s) h rest r known = rest r s known h.1 (h.2 ∙ known)
  after_send q p f (err e, s) h rest r known = cc h.0

  -- What is left can be followed only if the message before it was in order.
  in_order :
      (q : Option Phase) (es : List Effect) (p : Phase)
      → follows q es ≡ some p
      → (r : Phase) × (q ≡ some r)
  unfolding follows
  in_order (some r) es p h = (r, refl)
  in_order none [] p h = cc
  in_order none (send m x bs y ∷ es) p h = in_order none es p h
  in_order none (listen ∷ es) p h = in_order none es p h
  in_order none (apply_state v ∷ es) p h = in_order none es p h
  in_order none (invoke_custom v bs ∷ es) p h = in_order none es p h
  in_order none (error m ∷ es) p h = in_order none es p h

  -- An effect that sends nothing keeps the phase, and the other end sees nothing of it.
  Calm : Shell T H → Result (Unit {0}) × Shell T H → Type 0
  Calm s o = (o.1.phase ≡ s.phase) × (sent o.1.transport ≡ sent s.transport)

  listen-Calm : (s : Shell T H) → Calm s (exec_one tr ho 1 listen s)
  unfolding exec_one exec_effect Calm
  listen-Calm s = elim (Bool-cases s.listening) [
    | inl old ↦ rw old (refl, refl)
    | inr new ↦ rw new (ground (arith, reliable.sent-on_message s.transport))
  ]

  apply_state-Calm : (v : Value) (s : Shell T H) → Calm s (exec_one tr ho 1 (apply_state v) s)
  unfolding exec_one exec_effect Calm
  apply_state-Calm v s = ground arith

  invoke_custom-Calm :
      (v : Value) (bs : List Bytes) (s : Shell T H)
      → Calm s (exec_one tr ho 1 (invoke_custom v bs) s)
  unfolding exec_one exec_effect Calm
  invoke_custom-Calm v bs s = ground arith

  and_then-Calm :
      (q p : Phase) (f : Call (Shell T H)) (s : Shell T H) (o : Result (Unit {0}) × Shell T H)
      → Calm s o
      → s.phase ≡ p
      → Seen q s
      → ((s' : Shell T H) → s'.phase ≡ p → Seen q s' → InStep (f s').1)
      → q ≡ p
      → InStep (and_then o f).1
  unfolding Calm
  and_then-Calm q p f s (ok u, s') c e seen rest d = rest s' (c.0 ∙ e) (rw c.1 seen)
  and_then-Calm q p f s (err x, s') c e seen rest same =
      rw c.1 (seen ∙ ap some (same ∙ sym (c.0 ∙ e)))

  last_effect : (q p : Phase) (es : List Effect) → es ≡ [] → follows (some q) es ≡ some p → q ≡ p
  unfolding follows
  last_effect q p es w f = some-injective q p (rw w at f)

  pub exec_list-InStep :
      (es : List Effect) (q p : Phase) (s : Shell T H)
      → s.phase ≡ p
      → Seen q s
      → WellPlaced p es
      → follows (some q) es ≡ some p
      → InStep (exec_list tr ho (exec_one tr ho 1) es s).1
  unfolding exec_list follows
  exec_list-InStep [] q p s e seen w f = seen ∙ f ∙ ap some (sym e)
  exec_list-InStep (send m x bs y ∷ es) q p s e seen w f =
      let (r, known) = in_order (receives q m) es p f in
      after_send (receives q m) p _ (exec_one tr ho 1 (send m x bs y) s)
        (exec_send q p m x bs y s e seen (first_WellPlaced m x bs y es p w))
        (λ r' s' k e' seen'.
          exec_list-InStep es r' p s' e' seen' (rest_WellPlaced m x bs y es p w) (rw k at f))
        r known
  exec_list-InStep (listen ∷ es) q p s e seen w f =
      and_then-Calm q p _ s (exec_one tr ho 1 listen s) (listen-Calm s) e seen
        (λ s' e' seen'. exec_list-InStep es q p s' e' seen' (nil_WellPlaced es p w) f)
        (last_effect q p es w f)
  exec_list-InStep (apply_state v ∷ es) q p s e seen w f =
      let calm = apply_state-Calm v s in
      and_then-Calm q p _ s (exec_one tr ho 1 (apply_state v) s) calm e seen
        (λ s' e' seen'. exec_list-InStep es q p s' e' seen' (nil_WellPlaced es p w) f)
        (last_effect q p es w f)
  exec_list-InStep (invoke_custom v bs ∷ es) q p s e seen w f =
      let calm = invoke_custom-Calm v bs s in
      and_then-Calm q p _ s (exec_one tr ho 1 (invoke_custom v bs) s) calm e seen
        (λ s' e' seen'. exec_list-InStep es q p s' e' seen' (nil_WellPlaced es p w) f)
        (last_effect q p es w f)
  exec_list-InStep (error message ∷ es) q p s e seen w f =
      unfold exec_one exec_effect in seen ∙ ap some (last_effect q p es w f ∙ sym e)
