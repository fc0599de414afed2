-- ===== src/Widget.antt =====
-- src/cositos/model.py: the façade `Widget`, which keeps a shell and a copy of the shell's model id.
-- The transport and the host are the shell's parameters.
pub mod Identity
mod Examples
use cositos.Base.{String, Bool, true, false, Option, none, List, if◌then◌else◌}
use cositos.Value.{Key, Bytes, Value}
use cositos.Errors.{Result, ok, err}
use cositos.Lifecycle.{unopened, is_open}
use cositos.Shell
use cositos.Shell.{
  Call, Transport, Host, Shell, new_shell, open_shell, send_state_shell, send_custom_shell,
  close_shell, and_then,
}

-- The attributes of a `Widget`.
pub record Widget (T H : Type 0) : Type 0 where
  pub shell : Shell T H
  pub model_id : String

module _ {T H : Type 0} (tr : Transport T) (ho : Host H) where
  -- `__init__`
  unfoldable pub new_widget : T → H → String → Widget T H
  new_widget t h model_id = record {
    shell = new_shell tr ho t h model_id none;
    model_id = model_id;
  }

  -- a call of the shell
  abbrev pub on_shell : Call (Shell T H) → Call (Widget T H)
  on_shell f w = let (r, s) = f w.shell in (r, record w { shell = s })

  -- `self.model_id = self._shell.model_id`
  abbrev pub sync_id : Call (Widget T H)
  sync_id w = (ok tt, record w { model_id = w.shell.model_id })

  unfoldable pub open_widget : Call (Widget T H)
  open_widget w = and_then (on_shell (open_shell tr ho) w) sync_id

  unfoldable pub send_state_widget : Option (List Key) → Call (Widget T H)
  send_state_widget include w = on_shell (send_state_shell tr ho include) w

  unfoldable pub send_custom_widget : Value → List Bytes → Call (Widget T H)
  send_custom_widget content buffers w = on_shell (send_custom_shell tr ho content buffers) w

  unfoldable pub close_widget : Call (Widget T H)
  close_widget w = on_shell (close_shell tr ho) w

  unfoldable pub mimebundle : String → Widget T H → Value
  mimebundle repr_text w = Shell.mimebundle tr ho repr_text w.shell

  -- the end of `_repr_mimebundle_`
  abbrev pub bundle_and_sync : Widget T H → Result Value × Shell T H → Result Value × Widget T H
  bundle_and_sync w (ok bundle, s) = (ok bundle, record { shell = s; model_id = s.model_id })
  bundle_and_sync w (err e, s) = (err e, record w { shell = s })

  -- `_repr_mimebundle_`, with the bundle that it returns
  unfoldable pub repr_mimebundle : Widget T H → Result Value × Widget T H
  repr_mimebundle w = bundle_and_sync w (Shell.repr_mimebundle tr ho w.shell)

-- The property `_opened`, and its setter.
unfoldable pub opened : {T H : Type 0} → Widget T H → Bool
opened w = is_open w.shell.phase

unfoldable pub set_opened : {T H : Type 0} → Bool → Widget T H → Widget T H
set_opened value w = if value then w else record w { shell = record w.shell { phase = unopened } }
