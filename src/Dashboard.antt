-- ===== src/Dashboard.antt =====
-- examples/dashboard/build.py: the model of the dashboard, what each of its widgets shows of it, and
-- the documents. Dashboard/Wiring: its widgets. What the code takes from elsewhere stands in
-- `Setting`; the ids that `uuid.uuid4` gives are arguments.
pub mod Wiring
pub mod Opened
pub mod Sending
pub mod Summary
pub mod Document
pub mod Snapshot
pub mod Made
pub mod Resolved
pub mod Exported
mod Samples
mod Examples
mod PageExamples
use Prim.Native.String.{◌++◌ as text_append}
use text.Mathlib.Text.{◌==◌}
use cositos.Base.{
  ℕ, zero, suc, String, Bool, true, false, ◌&&◌, nat_eq, Option, none, some, List, [], ◌∷◌, ◌++◌,
  get_elem?, if◌then◌else◌,
}
use cositos.Value.{
  ℤ, pos, negsuc, Key, name, SeqKind, list_kind, tuple_kind, fresh, Bytes, Value, null, bool, int,
  str, opaque, bytes, seq, dict, Items, nil, cons, Fields, end, field,
}
use cositos.Value.Keys.{int_eq}
use cositos.Value.Equal.{number_of}
use cositos.Value.Dict.{lookup, merge}
use cositos.Errors.{index_error, type_error, value_error, Result, ok, err, ◌>>=◌}
use cositos.Protocol.{anywidget_module_version}
use cositos.Serialize.{Base64, ModelEntry, dump_document}
use cositos.Embed.Page.{Rendering, embed_html}
use cositos.Controls.{Spec, int_slider, dropdown, box}

-- Python's `str` and `json.dumps`, base64, the catalog's entries, and the download button's script.
pub record Setting : Type 0 where
  pub to_text : Value → String
  pub rendering : Rendering
  pub codec : Base64
  pub slider_spec : Spec
  pub dropdown_spec : Spec
  pub vbox_spec : Spec
  pub download_button_esm : String

-- The attributes of a `Dashboard`, its widgets aside; `value` and `index` are those of `self.model`.
pub record Dashboard : Type 0 where
  pub options : List String
  pub value : Value
  pub index : Value
  pub slider_entries : List ModelEntry
  pub dropdown_entries : List ModelEntry
  pub slider_id : String
  pub slider_state : Fields
  pub dropdown_id : String
  pub dropdown_state : Fields

abbrev pub summary_id : Dashboard → String
summary_id d = text_append d.slider_id "-summary"

abbrev pub download_id : Dashboard → String
download_id d = text_append d.slider_id "-download"

-- `entries[0]` and its state, as a dict
abbrev root_entry : List ModelEntry → Result (String × Fields)
root_entry [] = err index_error
root_entry ((model_id, dict i fs) ∷ entries) = ok (model_id, fs)
root_entry ((model_id, v) ∷ entries) = err type_error

abbrev pub companions_of : List ModelEntry → List ModelEntry
companions_of [] = []
companions_of (entry ∷ entries) = entries

abbrev pub companion_entries : Dashboard → List ModelEntry
companion_entries d = companions_of d.slider_entries ++ companions_of d.dropdown_entries

abbrev pub text_values : List String → List Value
text_values [] = []
text_values (s ∷ ss) = str s ∷ text_values ss

-- `self.options[idx] if idx is not None and 0 <= idx < len(self.options) else "(none)"`; an index that
-- is no number cannot be compared with 0.
abbrev pub label_at : List String → Option ℤ → Result String
label_at options none = err type_error
label_at options (some (pos n)) = elim (get_elem? options n) [ none ↦ ok "(none)" | some s ↦ ok s ]
label_at options (some (negsuc n)) = ok "(none)"

abbrev pub selection : List String → Value → Result String
selection options null = ok "(none)"
selection options idx = label_at options (number_of idx)

abbrev pub summary_esm : String
summary_esm =
    "\nexport default {\n  render({ model, el }) {\n    const paint = () => { el.textContent = model.get(\"text\"); };\n    paint();\n    model.on(\"change:text\", paint);\n  },\n};\n"

unfoldable pub get_slider_state : Dashboard → Fields
get_slider_state d = merge d.slider_state (field (name "value") d.value end)

unfoldable pub get_dropdown_state : Dashboard → Fields
get_dropdown_state d = merge d.dropdown_state (field (name "index") d.index end)

abbrev pub summary_fields : String → Fields
summary_fields text = field (name "_esm") (str summary_esm) (field (name "text") (str text) end)

-- what the dashboard saves: the entries of `_dashboard_document_json`, with the summary's state
abbrev pub saved_entries : Dashboard → Fields → List ModelEntry
saved_entries d summary =
    (d.slider_id, dict fresh (get_slider_state d))
    ∷ (d.dropdown_id, dict fresh (get_dropdown_state d))
    ∷ (summary_id d, dict fresh summary)
    ∷ companion_entries d

module _ (g : Setting) where
  -- `Dashboard(options, value, index)`, where `hex` and `hex'` are the ids of slider and dropdown
  unfoldable pub new_dashboard : List String → Value → Value → String → String → Result Dashboard
  new_dashboard [] value index hex hex' =
      err (value_error "Dashboard requires at least one dropdown option")
  new_dashboard (o ∷ os) value index hex hex' =
      let slider_entries = int_slider g.slider_spec value (int (pos 0)) (int (pos 100)) end hex in
      let dropdown_entries =
        dropdown g.to_text g.dropdown_spec (text_values (o ∷ os)) null
          (field (name "index") index end) hex' in
      (do
        (slider_id, slider_state) ← root_entry slider_entries
        (dropdown_id, dropdown_state) ← root_entry dropdown_entries
        ok (record {
          options = o ∷ os;
          value = value;
          index = index;
          slider_entries = slider_entries;
          dropdown_entries = dropdown_entries;
          slider_id = slider_id;
          slider_state = slider_state;
          dropdown_id = dropdown_id;
          dropdown_state = dropdown_state;
        }))

  -- `_summary_text`
  unfoldable pub summary_text : Dashboard → Result String
  summary_text d = do
    label ← selection d.options d.index
    ok (text_append "value=" (text_append (g.to_text d.value) (text_append ", selection=" label)))

  unfoldable pub get_summary_state : Dashboard → Result Fields
  get_summary_state d = do text ← summary_text d; ok (summary_fields text)

  -- `_dashboard_document_json`, less `json.dumps`
  unfoldable pub dashboard_document : Dashboard → Result Value
  dashboard_document d = do
    summary ← get_summary_state d
    dump_document g.codec (saved_entries d summary) anywidget_module_version

  unfoldable pub get_download_state : Dashboard → Result Fields
  get_download_state d = do
    document ← dashboard_document d
    ok (
        field (name "_esm") (str g.download_button_esm) (
          field (name "json") (str (g.rendering.dumps document)) (
            field (name "filename") (str "dashboard-state.json")
              (field (name "label") (str "Download dashboard state") end))))

  -- `build_entries`, where `hex` is the id of the box
  unfoldable pub build_entries : Dashboard → String → Result (List ModelEntry)
  build_entries d hex = do
    summary ← get_summary_state d
    download ← get_download_state d
    box g.vbox_spec
        (d.slider_entries
          ∷ d.dropdown_entries
          ∷ ((summary_id d, dict fresh summary) ∷ [])
          ∷ ((download_id d, dict fresh download) ∷ [])
          ∷ [])
        end hex

  unfoldable pub build_document : Dashboard → String → Result Value
  build_document d hex = do
    entries ← build_entries d hex
    dump_document g.codec entries anywidget_module_version

  abbrev document_fields : Value → Result Fields
  document_fields (dict i fs) = ok fs
  document_fields v = err type_error

  abbrev root_key : List ModelEntry → Result Key
  root_key [] = err index_error
  root_key ((model_id, state) ∷ entries) = ok (name model_id)

  -- `build_html`
  abbrev build_html : Dashboard → String → Result String
  build_html d hex = do
    entries ← build_entries d hex
    doc ← dump_document g.codec entries anywidget_module_version
    root_id ← root_key entries
    document ← document_fields doc
    embed_html g.rendering document (some (root_id ∷ []))
        "cositos — dashboard (real controls + MVU)" true "1"

  -- `dashboard or Dashboard(...)`
  abbrev default_dashboard : Option Dashboard → String → String → Result Dashboard
  default_dashboard (some d) hex hex' = ok d
  default_dashboard none hex hex' =
      new_dashboard ("low" ∷ "medium" ∷ "high" ∷ []) (int (pos 25)) (int (pos 0)) hex hex'

  -- the main program, with the text that it writes to the file
  unfoldable pub dashboard_page : String → String → String → Result String
  dashboard_page hex hex' box_id = do d ← default_dashboard none hex hex'; build_html d box_id

-- `restore_document`, where `loads` is `json.loads`
unfoldable pub restore_document : (String → Result Value) → String → Result Value
restore_document loads json_text = loads json_text
