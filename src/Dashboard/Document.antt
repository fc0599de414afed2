-- ===== src/Dashboard/Document.antt =====
-- What a downloaded document of the dashboard gives back.
use cositos.Base.{◌≡◌, refl, sym, ◌∙◌, String, some, List, [], ◌∷◌}
use cositos.Value.{Key, Address, name, key_eq, fresh, Value, str, dict, Fields, end, field}
use cositos.Value.Dict.{lookup, merge, lookup-insert}
use cositos.Value.View.{view}
use cositos.Errors.{Result, ok}
use cositos.Protocol.{anywidget_module_version}
use cositos.Serialize.{load_document}
use cositos.Serialize.RoundTrip.{IsLossless}
use cositos.Serialize.Documents.{IsValid, AllSavable, Loaded, load_document-dump_document}
use cositos.Dashboard.{
  Setting, Dashboard, summary_text, summary_fields, get_summary_state, get_slider_state,
  get_dropdown_state, saved_entries, dashboard_document, summary_id, companion_entries,
  get_download_state, restore_document,
}

-- At a key of a state stands what says the same as `v`.
abbrev pub Holds : String → Value → Value → Type 0
Holds k v state = (p : Address) → view (name k ∷ p) state ≡ view p v

-- The first three models are the slider, the dropdown and the summary, with what the dashboard has
-- now, and then the companions follow.
abbrev pub Restored : Dashboard → String → List (Key × Value) → Type 0
Restored d text ((k, slider) ∷ (k', dropdown) ∷ (k'', summary) ∷ companions) =
    (k ≡ name d.slider_id)
    × Holds "value" d.value slider
    × (k' ≡ name d.dropdown_id)
    × Holds "index" d.index dropdown
    × (k'' ≡ name (summary_id d))
    × Holds "text" (str text) summary
    × Loaded (companion_entries d) companions
Restored d text ms = ⊥

held :
    (k : String) (v state : Value) (fs : Fields)
    → lookup (name k) fs ≡ some v
    → ((p : Address) → view p (dict fresh fs) ≡ view p state)
    → Holds k v state
unfolding view
held k v state fs there same p = sym (same (name k ∷ p)) ∙ rw there refl

slider_held : (d : Dashboard) → lookup (name "value") (get_slider_state d) ≡ some d.value
unfolding get_slider_state merge key_eq
slider_held d = rw (lookup-insert (name "value") (name "value") d.value d.slider_state) refl

dropdown_held : (d : Dashboard) → lookup (name "index") (get_dropdown_state d) ≡ some d.index
unfolding get_dropdown_state merge key_eq
dropdown_held d = rw (lookup-insert (name "index") (name "index") d.index d.dropdown_state) refl

summary_shown : (text : String) → lookup (name "text") (summary_fields text) ≡ some (str text)
unfolding lookup key_eq
summary_shown text = refl

restored :
    (d : Dashboard) (text : String) (ms : List (Key × Value))
    → Loaded (saved_entries d (summary_fields text)) ms
    → Restored d text ms
restored d text [] l = elim l [ ]
restored d text (x ∷ []) l = elim l.2 [ ]
restored d text (x ∷ y ∷ []) l = elim l.2.2 [ ]
restored d text ((k, slider) ∷ (k', dropdown) ∷ (k'', summary) ∷ ms)
      (a, same, (a', same', (a'', same'', rest))) =
    (
      a,
      held "value" d.value slider _ (slider_held d) same,
      a',
      held "index" d.index dropdown _ (dropdown_held d) same',
      a'',
      held "text" (str text) summary _ (summary_shown text) same'',
      rest,
    )

module _ (g : Setting) (lossless : IsLossless g.codec) where
  -- If the dashboard's text exists, and the models that it saves have different ids and can be
  -- saved, the download's document is made and loads, and gives back what the slider, the dropdown
  -- and the summary show now, and the companions.
  pub dashboard_document-Restored :
      (d : Dashboard) (text : String)
      → summary_text g d ≡ ok text
      → IsValid (saved_entries d (summary_fields text))
      → AllSavable (saved_entries d (summary_fields text))
      → (doc : Fields) × (ms : List (Key × Value)) × (dashboard_document g d ≡ ok (dict fresh doc))
        × (load_document g.codec doc ≡ ok ms)
        × Restored d text ms
  unfolding dashboard_document get_summary_state
  dashboard_document-Restored d text e valid savable =
      let (doc, ms, dumps, loads, loaded) =
        load_document-dump_document g.codec lossless anywidget_module_version
          (saved_entries d (summary_fields text)) valid savable in
      (doc, ms, rw (e, dumps) refl, loads, restored d text ms loaded)

  -- If the dashboard's text exists, and the models that it saves have distinct ids that are not empty
  -- and accepted states: the download button offers a text, and if JSON gives back what it was told
  -- of that document, `restore_document` of the text is a document that loads, and gives back what
  -- the slider, the dropdown and the summary show now, and the companions.
  pub restore_document-Restored :
      (d : Dashboard) (text : String) (loads : String → Result Value)
      → summary_text g d ≡ ok text
      → IsValid (saved_entries d (summary_fields text))
      → AllSavable (saved_entries d (summary_fields text))
      → ((doc : Value) → dashboard_document g d ≡ ok doc → loads (g.rendering.dumps doc) ≡ ok doc)
      → (download : Fields) × (json_text : String) × (doc : Fields) × (ms : List (Key × Value))
        × (get_download_state g d ≡ ok download)
        × (lookup (name "json") download ≡ some (str json_text))
        × (restore_document loads json_text ≡ ok (dict fresh doc))
        × (load_document g.codec doc ≡ ok ms)
        × Restored d text ms
  unfolding get_download_state restore_document lookup key_eq
  restore_document-Restored d text loads e valid savable json =
      let (doc, ms, made, loaded, right) = dashboard_document-Restored d text e valid savable in
      (
        field (name "_esm") (str g.download_button_esm) (
            field (name "json") (str (g.rendering.dumps (dict fresh doc))) (
              field (name "filename") (str "dashboard-state.json")
                (field (name "label") (str "Download dashboard state") end))),
        g.rendering.dumps (dict fresh doc),
        doc,
        ms,
        rw made refl,
        refl,
        json (dict fresh doc) made,
        loaded,
        right,
      )
