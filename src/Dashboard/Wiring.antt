-- ===== src/Dashboard/Wiring.antt =====
-- The widgets of examples/dashboard/build.py over their transports, and what they do when a control
-- moves. `self.model` and the widgets are one object, `Wired`. The host of a widget's shell is the
-- state that its `get_state` gave last; an inbound state of the slider or the dropdown goes to
-- `set_slider_state` or `set_dropdown_state`.
use cositos.Base.{String, Option, none, some, List, [], ◌∷◌, length, nat_eq, if◌then◌else◌}
use cositos.Value.{name, Value, dict, Fields, end}
use cositos.Value.Dict.{lookup}
use cositos.Errors.{type_error, value_error, Result, ok, err}
use cositos.Shell.{Call, Transport, Host, and_then}
use cositos.Widget.{Widget, new_widget, open_widget, send_state_widget}
use cositos.Serialize.{ModelEntry}
use cositos.Value.Equal.{equal}
use cositos.Dashboard.{
  Setting, Dashboard, companion_entries, summary_id, download_id, get_slider_state,
  get_dropdown_state, get_summary_state, get_download_state,
}

-- A dashboard and its widgets: `none` is one that is not wired.
pub record Wired (T : Type 0) : Type 0 where
  pub dashboard : Dashboard
  pub slider_widget : Option (Widget T Fields)
  pub dropdown_widget : Option (Widget T Fields)
  pub summary_widget : Option (Widget T Fields)
  pub download_widget : Option (Widget T Fields)
  pub companion_widgets : List (Widget T Fields)

abbrev pub state_host : Host Fields
state_host = record { get_state = λ fs. fs; set_state = none; on_custom = none }

-- `dict(s)`
abbrev pub fields_of : Value → Result Fields
fields_of (dict i fs) = ok fs
fields_of v = err type_error

module _ {T : Type 0} (g : Setting) (tr : Transport T) where
  -- a call of a widget, with the state that `get_state` gives, if it gives one
  abbrev pub with_state : Result Fields → Call (Widget T Fields) → Call (Widget T Fields)
  with_state (err e) f w = (err e, w)
  with_state (ok fs) f w = f (record w { shell = record w.shell { host = fs } })

  -- a call of a widget, if it is there
  abbrev pub on_widget : Call (Widget T Fields) → Call (Option (Widget T Fields))
  on_widget f none = (ok tt, none)
  on_widget f (some w) = let (r, w') = f w in (r, some w')

  abbrev pub push : Result Fields → Call (Option (Widget T Fields))
  push state = on_widget (with_state state (send_state_widget tr state_host none))

  abbrev pub push_summary : Call (Wired T)
  push_summary x =
      let (r, w) = push (get_summary_state g x.dashboard) x.summary_widget in
      (r, record x { summary_widget = w })

  abbrev pub push_download : Call (Wired T)
  push_download x =
      let (r, w) = push (get_download_state g x.dashboard) x.download_widget in
      (r, record x { download_widget = w })

  -- `_render`
  unfoldable pub render : Call (Wired T)
  render x = and_then (push_summary x) push_download

  -- `_set_slider_state`
  unfoldable pub set_slider_state : Fields → Call (Wired T)
  set_slider_state state x = elim (lookup (name "value") state) [
    | none ↦ (ok tt, x)
    | some v ↦
        if equal v x.dashboard.value
        then (ok tt, x)
        else render (record x { dashboard = record x.dashboard { value = v } })
  ]

  -- `_set_dropdown_state`
  unfoldable pub set_dropdown_state : Fields → Call (Wired T)
  set_dropdown_state state x = elim (lookup (name "index") state) [
    | none ↦ (ok tt, x)
    | some v ↦
        if equal v x.dashboard.index
        then (ok tt, x)
        else render (record x { dashboard = record x.dashboard { index = v } })
  ]

  abbrev pub opened_with : Result Fields → Call (Option (Widget T Fields))
  opened_with state = on_widget (with_state state (open_widget tr state_host))

  abbrev pub open_slider : Call (Wired T)
  open_slider x =
      let (r, w) = opened_with (ok (get_slider_state x.dashboard)) x.slider_widget in
      (r, record x { slider_widget = w })

  abbrev pub open_dropdown : Call (Wired T)
  open_dropdown x =
      let (r, w) = opened_with (ok (get_dropdown_state x.dashboard)) x.dropdown_widget in
      (r, record x { dropdown_widget = w })

  abbrev pub open_summary : Call (Wired T)
  open_summary x =
      let (r, w) = opened_with (get_summary_state g x.dashboard) x.summary_widget in
      (r, record x { summary_widget = w })

  abbrev pub fresh_widget : T → String → Widget T Fields
  fresh_widget t model_id = new_widget tr state_host t end model_id

  abbrev pub wire_download : Option T → Call (Wired T)
  wire_download none x = (ok tt, x)
  wire_download (some t) x =
      let widget = fresh_widget t (download_id x.dashboard) in
      let (r, w) = opened_with (get_download_state g x.dashboard) (some widget) in
      (r, record x { download_widget = w })

  -- the companions' widgets, one for each entry and transport
  abbrev pub companion_list : List ModelEntry → List T → List (Widget T Fields)
  companion_list [] ts = []
  companion_list (entry ∷ entries) [] = []
  companion_list ((model_id, state) ∷ entries) (t ∷ ts) =
      fresh_widget t model_id ∷ companion_list entries ts

  -- one widget that has been asked to open, and the rest: `o` if they are opened, else `ws`
  abbrev pub cons_opened :
      Result (Unit {0}) × Widget T Fields
      → Result (Unit {0}) × List (Widget T Fields)
      → List (Widget T Fields)
      → Result (Unit {0}) × List (Widget T Fields)
  cons_opened (ok u, w) (r, ws') ws = (r, w ∷ ws')
  cons_opened (err e, w) o ws = (err e, w ∷ ws)

  -- `for widget in self._companion_widgets: widget.open()`
  abbrev pub open_all : List ModelEntry → Call (List (Widget T Fields))
  open_all [] ws = (ok tt, ws)
  open_all (entry ∷ entries) [] = (ok tt, [])
  open_all ((model_id, state) ∷ entries) (w ∷ ws) =
      cons_opened (with_state (fields_of state) (open_widget tr state_host) w) (open_all entries ws)
        ws

  abbrev pub wire_companions : Option (List T) → Call (Wired T)
  wire_companions none x = (ok tt, x)
  wire_companions (some ts) x =
      let entries = companion_entries x.dashboard in
      if nat_eq (length ts) (length entries)
      then (let (r, ws) = open_all entries (companion_list entries ts) in
          (r, record x { companion_widgets = ws }))
      else (err (value_error "wire() needs another number of companion_transports"), x)

  -- the three widgets that `wire` makes first
  abbrev pub with_widgets : T → T → T → Wired T → Wired T
  with_widgets slider_transport dropdown_transport summary_transport x = record x {
    slider_widget = some (fresh_widget slider_transport x.dashboard.slider_id);
    dropdown_widget = some (fresh_widget dropdown_transport x.dashboard.dropdown_id);
    summary_widget = some (fresh_widget summary_transport (summary_id x.dashboard));
  }

  -- `wire`
  unfoldable pub wire : T → T → T → Option (List T) → Option T → Call (Wired T)
  wire slider_transport dropdown_transport summary_transport companion_transports download_transport
        x =
      let x' = with_widgets slider_transport dropdown_transport summary_transport x in
      and_then
        (and_then (and_then (and_then (open_slider x') open_dropdown) open_summary)
          (wire_download download_transport))
        (wire_companions companion_transports)
