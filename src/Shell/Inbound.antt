-- ===== src/Shell/Inbound.antt =====
-- What a shell does with an inbound message, without the reducer's effects in between.
use cositos.Base.{
  ◌≡◌, refl, ◌∙◌, Bool, true, false, Bool-cases, inl, inr, none, List, [], ◌∷◌, if◌then◌else◌,
}
use cositos.Value.{Bytes, Value}
use cositos.Errors.{Result, ok, err, ◌>>=◌}
use cositos.Protocol.{Message, ignored, update, custom, request_state, parse_message}
use cositos.Lifecycle.{
  is_open, apply_state, invoke_custom, inbound, merged_state, reduce, reduce_inbound,
  reduce_send_state,
}
use cositos.Shell.{
  Call, Transport, Host, Shell, exec_effect, exec_list, exec_one, execute_with, execute,
  send_state_shell, handle_inbound, apply_to_host, custom_to_host,
}
use cositos.Shell.Exchange.{inbound_executed, and_then-return}

module _ {T H : Type 0} (tr : Transport T) (ho : Host H) where
  abbrev merged_to_host : Result Value → Call (Shell T H)
  merged_to_host (ok w) s = apply_to_host tr ho w s
  merged_to_host (err e) s = (err e, s)

  -- An update's state goes to the host, a request is answered with the full state if the transport
  -- can carry that, a custom message goes to the host, and anything else is dropped.
  abbrev pub react : Message → List Bytes → Call (Shell T H)
  react (update state paths) buffers s = merged_to_host (merged_state state paths buffers) s
  react request_state buffers s =
      if s.capabilities.supports_request_state then send_state_shell tr ho none s else (ok tt, s)
  react (custom content) buffers s = custom_to_host tr ho content buffers s
  react (ignored method) buffers s = (ok tt, s)

  merged_executed :
      (r : Result Value) (s : Shell T H)
      → execute tr ho (r >>= λ w. ok (s.phase, apply_state w ∷ [])) s ≡ merged_to_host r s
  unfolding execute execute_with exec_list exec_one exec_effect
  merged_executed (ok w) s = and_then-return tr ho (apply_to_host tr ho w s)
  merged_executed (err e) s = refl

  custom_executed :
      (content : Value) (buffers : List Bytes) (s : Shell T H)
      → execute tr ho (ok (s.phase, invoke_custom content buffers ∷ [])) s
        ≡ custom_to_host tr ho content buffers s
  unfolding execute execute_with exec_list exec_one exec_effect
  custom_executed content buffers s = and_then-return tr ho (custom_to_host tr ho content buffers s)

  nothing_executed : (s : Shell T H) → execute tr ho (ok (s.phase, [])) s ≡ (ok tt, s)
  unfolding execute execute_with exec_list
  nothing_executed s = refl

  answered :
      (supported : Bool) (s : Shell T H)
      → execute tr ho
          (if supported
            then reduce_send_state s.phase none (ho.get_state s.host)
            else ok (s.phase, []))
          s
        ≡ (if supported then send_state_shell tr ho none s else (ok tt, s))
  unfolding send_state_shell reduce
  answered true s = refl
  answered false s = nothing_executed s

  open_react :
      (m : Message) (payload : Value) (buffers : List Bytes) (s : Shell T H)
      → is_open s.phase ≡ true
      → parse_message payload ≡ m
      → execute tr ho
          (reduce s.phase (inbound payload buffers) (ho.get_state s.host) s.capabilities)
          s
        ≡ react m buffers s
  unfolding reduce reduce_inbound
  open_react (update state paths) payload buffers s o e =
      rw (o, e) (merged_executed (merged_state state paths buffers) s)
  open_react request_state payload buffers s o e =
      rw (o, e) (answered s.capabilities.supports_request_state s)
  open_react (custom content) payload buffers s o e = rw (o, e) (custom_executed content buffers s)
  open_react (ignored method) payload buffers s o e = rw (o, e) (nothing_executed s)

  shut_react :
      (payload : Value) (buffers : List Bytes) (s : Shell T H)
      → is_open s.phase ≡ false
      → execute tr ho
          (reduce s.phase (inbound payload buffers) (ho.get_state s.host) s.capabilities)
          s
        ≡ (ok tt, s)
  unfolding reduce reduce_inbound
  shut_react payload buffers s o = rw o (nothing_executed s)

  -- An open shell does with an inbound message what `react` says of its parse, and one that is not
  -- open does nothing, whatever the message is; errors and calls of the host included.
  pub handle_inbound-react :
      (payload : Value) (buffers : List Bytes) (s : Shell T H)
      → handle_inbound tr ho payload buffers s
        ≡ (if is_open s.phase then react (parse_message payload) buffers s else (ok tt, s))
  handle_inbound-react payload buffers s =
      inbound_executed tr ho payload buffers s ∙ (elim (Bool-cases (is_open s.phase)) [
        | inl o ↦ open_react _ payload buffers s o refl ∙ rw o refl
        | inr o ↦ shut_react payload buffers s o ∙ rw o refl
      ])
