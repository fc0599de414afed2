-- ===== src/Dashboard/Sending.antt =====
-- What the summary widget sends, and what the other end shows of it.
use cositos.Base.{◌≡◌, refl, ap, ◌∙◌, String, Option, none, some, List, [], ◌∷◌}
use cositos.Value.{name, key_eq, ident_mem, fresh, Bytes, Value, str, dict, Fields}
use cositos.Value.Dict.{lookup, insert, merge}
use cositos.Errors.{ok}
use cositos.Buffers.{max_depth, remove_buffers, run, cost}
use cositos.Protocol.{immutable_fields, model_identity, view_identity, build_update, update_payload}
use cositos.Lifecycle
use cositos.Lifecycle.{
  Phase, TransportCapabilities, open_phase, MsgType, comm_msg, full_state, send_state, reduce,
  reduce_send_state,
}
use cositos.Shell.{Transport, Shell, execute, send_state_shell}
use cositos.Shell.Exchange.{sends_message}
use cositos.Dashboard.{summary_fields}
use cositos.Dashboard.Wiring.{state_host}

-- A transport that sends without raising; `shown` is the state that the other end has got last.
pub record IsDisplay {T : Type 0} (tr : Transport T) (shown : T → Option Value) : Type 0 where
  pub send_ok :
      (m : MsgType) (x : Value) (bs : List Bytes) (y : Option Value) (t : T)
      → (tr.send m x bs y t).0 ≡ ok tt
  pub shown-update :
      (state : Value) (t : T)
      → shown (tr.send comm_msg (update_payload state []) [] none t).1 ≡ some state

abbrev pub text_of : Option Value → Option Value
text_of (some (dict i fs)) = lookup (name "text") fs
text_of o = none

sent_summary :
    (text : String) (caps : TransportCapabilities)
    → reduce open_phase (send_state none) (summary_fields text) caps
      ≡ ok (
        open_phase,
        Lifecycle.send comm_msg
              (update_payload (dict fresh (full_state (summary_fields text))) [])
              []
              none
            ∷ [],
      )
unfolding reduce reduce_send_state build_update remove_buffers run cost max_depth ident_mem merge
    insert immutable_fields model_identity view_identity key_eq
sent_summary text caps = refl

module _ {T : Type 0} (tr : Transport T) (shown : T → Option Value)
    (display : IsDisplay tr shown) where
  abbrev pub message : String → Value
  message text = update_payload (dict fresh (full_state (summary_fields text))) []

  abbrev pub after : String → Shell T Fields → Shell T Fields
  after text s = record s {
    transport = (tr.send comm_msg (message text) [] none s.transport).1;
    host = summary_fields text;
  }

  -- `send_state` of an open summary sends one message.
  pub sent :
      (text : String) (s : Shell T Fields)
      → s.phase ≡ open_phase
      → send_state_shell tr state_host none (record s { host = summary_fields text })
        ≡ (ok tt, after text s)
  unfolding send_state_shell
  sent text s o =
      ap
        (λ p.
          execute tr state_host (reduce p (send_state none) (summary_fields text) s.capabilities)
            (record s { host = summary_fields text }))
        o
      ∙ ap (λ r. execute tr state_host r (record s { host = summary_fields text }))
          (sent_summary text s.capabilities)
      ∙ sends_message tr state_host (message text) [] (record s { host = summary_fields text }) o
      ∙ ap (λ r. (r, after text s)) (display.send_ok comm_msg (message text) [] none s.transport)

  pub shown_text :
      (text : String) (s : Shell T Fields)
      → text_of (shown (after text s).transport) ≡ some (str text)
  unfolding merge insert immutable_fields model_identity view_identity key_eq lookup
  shown_text text s =
      ap text_of (display.shown-update (dict fresh (full_state (summary_fields text))) s.transport)
