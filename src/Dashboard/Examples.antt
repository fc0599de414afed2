-- ===== src/Dashboard/Examples.antt =====
-- The theorems on the dashboard, over a transport that keeps what it was last told.
use cositos.Base.{◌≡◌, refl, String, true, none, some, List, [], ◌∷◌, ◌++◌, Option, All, arith}
use cositos.Value.{
  pos, name, key_eq, ident_mem, fresh, Value, null, int, dict, Key, Fields, end, field,
}
use cositos.Value.Dict.{lookup, insert, remove, merge}
use cositos.Errors.{ok}
use cositos.Buffers.{remove_buffers, run, cost, max_depth}
use cositos.Protocol.{
  update_payload, build_comm_open, build_update, immutable_fields, model_identity, view_identity,
}
use cositos.Lifecycle.{MsgType, comm_open, comm_msg, reduce, reduce_open, reduce_send_state}
use cositos.Shell.{
  Transport, new_shell, open_shell, send_state_shell, execute, execute_with, exec_list, exec_one,
  exec_effect,
}
use cositos.Widget.{new_widget, open_widget, send_state_widget}
use cositos.Serialize.Strokes.{codec, codec-IsLossless}
use cositos.Serialize.Documents.{AllSavable}
use cositos.Buffers.Faults.{height}
use cositos.Dashboard.Document.{Restored, restore_document-Restored}
use cositos.Dashboard.Snapshot.{shown_entries, build_entries-changes}
use cositos.Serialize.{
  ModelEntry, load_document, dump_document, dump_entries, dump_model, encode_buffers,
}
use cositos.Controls.{int_slider, dropdown, build, add_companions, box, child_refs}
use cositos.Value.Equal.{equal}
use cositos.Errors.{Result, err}
use cositos.Value.{str, null}
use cositos.Dashboard.{
  restore_document, Dashboard, new_dashboard, summary_text, get_summary_state, get_download_state,
  get_slider_state, get_dropdown_state, dashboard_document, saved_entries, summary_fields,
  build_entries,
}
use cositos.Dashboard.Sending.{IsDisplay}
use cositos.Dashboard.Opened.{EachOpen, wire-EachOpen}
use cositos.Dashboard.Wiring.{Wired, wire, render, set_slider_state, set_dropdown_state}
use cositos.Dashboard.Summary.{
  Change, slider_moved, dropdown_moved, HasIndex, IsUpToDate, changes, changes-IsUpToDate,
}
use cositos.Dashboard.Samples.{setting, dashboard, identity-IsAccepted, some_entries}

-- The state in a message: the first entry of a `comm_open`, and the second of an update.
abbrev first_of : Fields → Option Value
first_of end = none
first_of (field k v fs) = some v

abbrev state_in : MsgType → Value → Option Value
state_in comm_open (dict i fs) = first_of fs
state_in comm_msg (dict i (field k v fs)) = first_of fs
state_in m v = none

abbrev screen : Transport (Option Value)
screen = record {
  send = λ m x bs y t. (ok tt, state_in m x);
  on_message = λ t. (ok tt, t);
  comm_id = λ t. "";
  supports_receive = λ t. some true;
  supports_request_state = λ t. none;
  supports_custom = λ t. none;
  supports_buffers = λ t. none;
}

dashboard_text : summary_text setting dashboard ≡ ok "value=some number, selection=low"
unfolding summary_text new_dashboard int_slider dropdown build add_companions merge insert remove
    lookup key_eq
dashboard_text = refl

screen-IsDisplay : IsDisplay screen (λ t. t)
unfolding update_payload
screen-IsDisplay = record { send_ok = λ m x bs y t. refl; shown-update = λ state t. refl }

abbrev unwired : Wired (Option Value)
unwired = record {
  dashboard = dashboard;
  slider_widget = none;
  dropdown_widget = none;
  summary_widget = none;
  download_widget = none;
  companion_widgets = [];
}

-- The dashboard with its widgets open, and a download button.
abbrev wired : Wired (Option Value)
wired = (wire setting screen none none none none (some none) unwired).1

abbrev cs : List Change
cs =
    slider_moved (field (name "value") (int (pos 30)) end)
    ∷ dropdown_moved (field (name "index") (int (pos 1)) end)
    ∷ dropdown_moved (field (name "index") null end)
    ∷ []

cs-HasIndex : All HasIndex cs
unfolding lookup key_eq
cs-HasIndex = (tt, (tt, (tt, tt)))

wired-IsUpToDate : IsUpToDate setting screen (λ t. t) wired
unfolding wire new_dashboard summary_text int_slider dropdown build add_companions merge insert
    remove lookup key_eq get_summary_state new_widget new_shell open_widget open_shell execute
    execute_with exec_list exec_one exec_effect reduce reduce_open build_comm_open remove_buffers
    run cost max_depth ident_mem immutable_fields model_identity view_identity get_slider_state
    get_dropdown_state get_download_state dashboard_document dump_document dump_entries dump_model
    encode_buffers
wired-IsUpToDate = (refl, ("value=some number, selection=low", refl, refl))

changes-IsUpToDate_example : IsUpToDate setting screen (λ t. t) (changes setting screen cs wired)
changes-IsUpToDate_example =
    changes-IsUpToDate setting screen (λ t. t) screen-IsDisplay cs wired cs-HasIndex
      wired-IsUpToDate

abbrev text_now : String
text_now = "value=some number, selection=low"

saved-AllSavable : AllSavable (saved_entries dashboard (summary_fields text_now))
unfolding new_dashboard int_slider dropdown build add_companions merge insert remove lookup key_eq
    get_slider_state get_dropdown_state height max_depth ident_mem
saved-AllSavable = (
  record { tidy = ground arith; shallow = omega arith; acyclic = ground arith },
  (
    record { tidy = ground arith; shallow = omega arith; acyclic = ground arith },
    (
      record { tidy = ground arith; shallow = omega arith; acyclic = ground arith },
      (identity-IsAccepted, (identity-IsAccepted, tt)),
    ),
  ),
)

abbrev some_value : Result Value → Value
some_value (ok v) = v
some_value (err e) = null

-- What JSON gives back of the only document that is asked for.
abbrev document_now : Value
document_now = some_value (dashboard_document setting dashboard)

same_document : (r : Result Value) (doc : Value) → r ≡ ok doc → ok (some_value r) ≡ ok doc
same_document (ok v) doc e = e
same_document (err x) doc e = cc e

restore_document-Restored_example :
    (download : Fields) × (json_text : String) × (doc : Fields) × (ms : List (Key × Value))
    × (get_download_state setting dashboard ≡ ok download)
    × (lookup (name "json") download ≡ some (str json_text))
    × (restore_document (λ s. ok document_now) json_text ≡ ok (dict fresh doc))
    × (load_document codec doc ≡ ok ms)
    × Restored dashboard text_now ms
unfolding new_dashboard int_slider dropdown build add_companions merge insert remove lookup key_eq
restore_document-Restored_example =
    restore_document-Restored setting codec-IsLossless dashboard text_now (λ s. ok document_now)
      dashboard_text (refl, refl, (refl, refl, (refl, refl, (refl, refl, (refl, refl, tt)))))
      saved-AllSavable (λ doc made. same_document (dashboard_document setting dashboard) doc made)

abbrev later : Dashboard
later = (changes setting screen cs wired).dashboard

built : build_entries setting later "box" ≡ ok (some_entries (build_entries setting later "box"))
unfolding wire new_dashboard summary_text int_slider dropdown build add_companions merge insert
    remove lookup key_eq get_summary_state new_widget new_shell open_widget open_shell execute
    execute_with exec_list exec_one exec_effect reduce reduce_open build_comm_open remove_buffers
    run cost max_depth ident_mem immutable_fields model_identity view_identity get_slider_state
    get_dropdown_state get_download_state dashboard_document dump_document dump_entries dump_model
    encode_buffers build_entries box child_refs set_slider_state set_dropdown_state render
    send_state_widget send_state_shell reduce_send_state equal build_update
built = refl

build_entries-changes_example :
    (own : List ModelEntry) × (summary download : Fields) × (get_summary_state setting later
      ≡ ok summary)
    × (get_download_state setting later ≡ ok download)
    × (some_entries (build_entries setting later "box")
        ≡ own ++ shown_entries wired.dashboard summary download)
build_entries-changes_example =
    build_entries-changes setting screen cs wired "box"
      (some_entries (build_entries setting later "box")) built

unwired_returns :
    (wire setting screen none none none (some (none ∷ none ∷ [])) (some none) unwired).0 ≡ ok tt
unfolding wire new_dashboard summary_text int_slider dropdown build add_companions merge insert
    remove lookup key_eq get_summary_state new_widget new_shell open_widget open_shell execute
    execute_with exec_list exec_one exec_effect reduce reduce_open build_comm_open remove_buffers
    run cost max_depth ident_mem immutable_fields model_identity view_identity get_slider_state
    get_dropdown_state get_download_state dashboard_document dump_document dump_entries dump_model
    encode_buffers
unwired_returns = refl

wire-EachOpen_example :
    EachOpen setting screen dashboard
      (some none)
      (some (none ∷ none ∷ []))
      (wire setting screen none none none (some (none ∷ none ∷ [])) (some none) unwired).1
wire-EachOpen_example =
    wire-EachOpen setting screen none none none (some (none ∷ none ∷ [])) (some none) unwired
      unwired_returns
