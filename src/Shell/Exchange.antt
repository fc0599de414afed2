-- ===== src/Shell/Exchange.antt =====
-- Two shells at the two ends of a comm.
use cositos.Base.{
  ◌≡◌, refl, sym, ap, ◌∙◌, true, Bool-cases, inl, inr, Option, none, some, List, [], ◌∷◌,
}
use cositos.Value.{Key, fresh, Bytes, Value, dict}
use cositos.Value.View.{Same}
use cositos.Errors.{Result, ok, err}
use cositos.Protocol.{Message, ignored, update, custom, request_state, parse_message}
use cositos.Lifecycle.{
  open_phase, is_open, comm_msg, send, apply_state, send_state, inbound, selected, reduce,
  reduce_inbound,
}
use cositos.Lifecycle.EndToEnd.{send_state-inbound}
use cositos.Buffers.Accepts.{IsAccepted}
use cositos.Shell.{
  Call, Transport, Host, Shell, and_then, on_transport, exec_effect, exec_list, exec_one,
  execute_with, execute, send_state_shell, handle_inbound,
}

module _ {T H : Type 0} (tr : Transport T) (ho : Host H) where
  ignored_reduced :
      (x : Value) (payload : Value) (buffers : List Bytes) (s : Shell T H)
      → parse_message payload ≡ ignored x
      → reduce s.phase (inbound payload buffers) (ho.get_state s.host) s.capabilities
        ≡ ok (s.phase, [])
  unfolding reduce reduce_inbound
  ignored_reduced x payload buffers s e = elim (Bool-cases (is_open s.phase)) [
    | inl open_now ↦ rw (open_now, e) refl
    | inr shut ↦ rw shut refl
  ]

  -- The shell's early return for an ignored message is what the reducer makes of it.
  ignored_executed :
      (m : Message) (payload : Value) (buffers : List Bytes) (s : Shell T H)
      → parse_message payload ≡ m
      → handle_inbound tr ho payload buffers s
        ≡ execute tr ho
            (reduce s.phase (inbound payload buffers) (ho.get_state s.host) s.capabilities)
            s
  unfolding handle_inbound
  ignored_executed (ignored x) payload buffers s e =
      rw (e, handle_inbound)
        (rw (ignored_reduced x payload buffers s e) (unfold execute execute_with exec_list in refl))
  ignored_executed (update x y) payload buffers s e = rw (e, handle_inbound) refl
  ignored_executed request_state payload buffers s e = rw (e, handle_inbound) refl
  ignored_executed (custom x) payload buffers s e = rw (e, handle_inbound) refl

  pub inbound_executed :
      (payload : Value) (buffers : List Bytes) (s : Shell T H)
      → handle_inbound tr ho payload buffers s
        ≡ execute tr ho
            (reduce s.phase (inbound payload buffers) (ho.get_state s.host) s.capabilities)
            s
  inbound_executed payload buffers s = ignored_executed _ payload buffers s refl

  pub and_then-return : (o : Result (Unit {0}) × Shell T H) → and_then o (λ s. (ok tt, s)) ≡ o
  and_then-return (ok u, s) = refl
  and_then-return (err e, s) = refl

  -- What a single message that is no `comm_open` does to an open shell.
  pub sends_message :
      (m : Value) (bs : List Bytes) (s : Shell T H)
      → s.phase ≡ open_phase
      → execute tr ho (ok (open_phase, send comm_msg m bs none ∷ [])) s
        ≡ on_transport tr ho (tr.send comm_msg m bs none) s
  unfolding execute execute_with exec_list exec_one exec_effect
  sends_message m bs s e =
      and_then-return (
        and_then (on_transport tr ho (tr.send comm_msg m bs none) (record s { phase = open_phase }))
          (λ s'. (ok tt, s')))
      ∙ and_then-return
          (on_transport tr ho (tr.send comm_msg m bs none) (record s { phase = open_phase }))
      ∙ ap (λ p. on_transport tr ho (tr.send comm_msg m bs none) (record s { phase = p })) (sym e)

  applies_state :
      (w : Value) (f : Value → Call H) (s : Shell T H)
      → s.phase ≡ open_phase
      → ho.set_state ≡ some f
      → execute tr ho (ok (open_phase, apply_state w ∷ [])) s
        ≡ ((f w s.host).0, record s { host = (f w s.host).1 })
  unfolding execute execute_with exec_list exec_one exec_effect
  applies_state w f s e h = rw h (
      and_then-return ((f w s.host).0, record s { host = (f w s.host).1; phase = open_phase })
      ∙ ap (λ p. ((f w s.host).0, record s { host = (f w s.host).1; phase = p })) (sym e))

module _ {T H T' H' : Type 0} (tr : Transport T) (ho : Host H) (tr' : Transport T')
    (ho' : Host H') where
  -- `send_state` of an open shell whose transport can carry buffers, and whose state or selection is
  -- accepted, hands one message to its transport and does nothing else. Whenever an open shell of
  -- another kernel is handed that message, it calls its host's `set_state` once and does nothing else,
  -- so that it raises just if that callback does; the state that the callback gets says the same as
  -- the one that was sent.
  pub send_state_shell-handle_inbound :
      (include : Option (List Key)) (s : Shell T H) (s' : Shell T' H') (f : Value → Call H')
      → s.phase ≡ open_phase
      → s'.phase ≡ open_phase
      → s.capabilities.supports_buffers ≡ true
      → ho'.set_state ≡ some f
      → IsAccepted (dict fresh (selected include (ho.get_state s.host)))
      → (m : Value) × (bs : List Bytes) × (w : Value) × (send_state_shell tr ho include s
          ≡ on_transport tr ho (tr.send comm_msg m bs none) s)
        × (handle_inbound tr' ho' m bs s' ≡ ((f w s'.host).0, record s' { host = (f w s'.host).1 }))
        × Same (dict fresh (selected include (ho.get_state s.host))) w
  unfolding send_state_shell
  send_state_shell-handle_inbound include s s' f open_now open_there carries takes accepted =
      let (m, bs, w, sends, applies, same) =
        send_state-inbound include (ho.get_state s.host) (ho'.get_state s'.host) s.capabilities
          s'.capabilities carries accepted in
      (
        m,
        bs,
        w,
        ap
              (λ p.
                execute tr ho (reduce p (send_state include) (ho.get_state s.host) s.capabilities)
                  s)
              open_now
            ∙ ap (λ r. execute tr ho r s) sends
            ∙ sends_message tr ho m bs s open_now,
        inbound_executed tr' ho' m bs s'
            ∙ ap
                (λ p.
                  execute tr' ho' (reduce p (inbound m bs) (ho'.get_state s'.host) s'.capabilities)
                    s')
                open_there
            ∙ ap (λ r. execute tr' ho' r s') applies
            ∙ applies_state tr' ho' w f s' open_there takes,
        same,
      )
