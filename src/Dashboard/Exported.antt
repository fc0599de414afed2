-- ===== src/Dashboard/Exported.antt =====
-- The references in the document of the page that the dashboard exports.
use mathlib.Core.Path.{subst}
use cositos.Base.{arith, String, ◌≡◌, refl, inl, inr, none, List, [], ◌∷◌}
use cositos.Value.{fresh, Value, name, str, dict, Fields, end, field}
use cositos.Errors.{Result, ok, err, ◌>>=◌}
use cositos.Protocol.{anywidget_module_version}
use cositos.Serialize.{ModelEntry}
use cositos.Serialize.RoundTrip.{IsLossless}
use cositos.Serialize.Documents.{IsValid, AllSavable}
use cositos.Serialize.Complete.{check_references-dump_document}
use cositos.Serialize.References.{model_ref, check_references}
use cositos.Serialize.References.Resolved.{SomeField}
use cositos.Serialize.References.Written.{IsOneLine, append-IsOneLine}
use cositos.Controls.{box}
use cositos.Controls.Closed.{IsWhole}
use cositos.Controls.Complete.{IsComplete, box-IsComplete, IsComplete-AllResolved}
use cositos.Dashboard.{
  Setting, Dashboard, new_dashboard, summary_text, summary_fields, summary_id, download_id,
  get_summary_state, get_download_state, build_entries, build_document,
}
use cositos.Dashboard.Made.{IsSound, new_dashboard-Controls, root_lem}
use cositos.Dashboard.Resolved.{summary_text-plain, summary-resolved}

abbrev Plain : Fields → Type 0
Plain fs = (rid : String) → SomeField rid fs → ⊥

-- One model that refers to nothing.
single-IsComplete :
    (a : String) (fs : Fields) → IsOneLine a → Plain fs → IsComplete ((a, dict fresh fs) ∷ [])
single-IsComplete a fs line plain = (line, λ all w. (λ rid r. elim (plain rid r) [ ], tt))

-- What the download button shows: its script, and a JSON text.
pub record IsInert (g : Setting) : Type 0 where
  pub esm_plain : model_ref g.download_button_esm ≡ none
  pub json_plain : (v : Value) → model_ref (g.rendering.dumps v) ≡ none

same_fields : {fs gs : Fields} → ok fs ≡ ok gs → fs ≡ gs
same_fields p = cc p

-- the states of the summary and the download button, where they exist
of_text :
    (g : Setting) (d : Dashboard) (summary : Fields) (r : Result String)
    → summary_text g d ≡ r
    → (r >>= λ text. ok (summary_fields text)) ≡ ok summary
    → Plain summary
of_text g d summary (ok text) told e =
    subst Plain (same_fields e)
      (λ rid r. summary-resolved text rid (summary_text-plain g d text told) r)
of_text g d summary (err x) told e = cc e

of_document :
    (g : Setting) (download : Fields) (r : Result Value)
    → IsInert g
    → (do
      document ← r
      ok (
          field (name "_esm") (str g.download_button_esm) (
            field (name "json") (str (g.rendering.dumps document)) (
              field
                (name "filename")
                (str "dashboard-state.json")
                (field (name "label") (str "Download dashboard state") end)))))
      ≡ ok download
    → Plain download
unfolding model_ref
of_document g download (ok document) h e = subst Plain (same_fields e) (λ rid r. elim r [
  | inl i ↦ cc (h.esm_plain, i)
  | inr l ↦ elim l [ inl i ↦ cc (h.json_plain document, i) | inr l' ↦ ground (arith, l') ]
])
of_document g download (err x) h e = cc e

same_entries :
    {r : Result (List ModelEntry)} {es fs : List ModelEntry} → r ≡ ok es → r ≡ ok fs → es ≡ fs
same_entries p q = cc (p, q)

of_states :
    (g : Setting) (d : Dashboard) (hex : String) (entries : List ModelEntry) (r r' : Result Fields)
    → ((summary : Fields) → r ≡ ok summary → Plain summary)
    → ((download : Fields) → r' ≡ ok download → Plain download)
    → IsWhole g.vbox_spec
    → IsOneLine hex
    → IsOneLine (summary_id d)
    → IsOneLine (download_id d)
    → IsComplete d.slider_entries
    → IsComplete d.dropdown_entries
    → (do
      summary ← r
      download ← r'
      box g.vbox_spec
          (d.slider_entries
            ∷ d.dropdown_entries
            ∷ ((summary_id d, dict fresh summary) ∷ [])
            ∷ ((download_id d, dict fresh download) ∷ [])
            ∷ [])
          end
          hex)
      ≡ ok entries
    → IsComplete entries
of_states g d hex entries (ok summary) (ok download) ps pd whole line sl dl slider menu e =
    let (es, boxes, complete) =
      box-IsComplete g.vbox_spec
        (d.slider_entries
          ∷ d.dropdown_entries
          ∷ ((summary_id d, dict fresh summary) ∷ [])
          ∷ ((download_id d, dict fresh download) ∷ [])
          ∷ [])
        end hex whole line (tt, λ rid r. r)
        (
          slider,
          (
            menu,
            (
              single-IsComplete (summary_id d) summary sl (ps summary refl),
              (single-IsComplete (download_id d) download dl (pd download refl), tt),
            ),
          ),
        ) in
    subst IsComplete (same_entries boxes e) complete
of_states g d hex entries (ok summary) (err x) ps pd whole line sl dl slider menu e = cc e
of_states g d hex entries (err x) r ps pd whole line sl dl slider menu e = cc e

module _ (g : Setting) (lossless : IsLossless g.codec) where
  -- Of a dashboard whose catalog refers to models only where it has companions, whose ids are lines,
  -- and whose options, first value and index, script and JSON texts refer to no model, whatever value
  -- and index it has now: if its entries exist, their ids are distinct and not empty and their states
  -- are accepted dicts, the document of the page is made, and `check_references` accepts it.
  pub check_references-build_document :
      (options : List String) (value index value' index' : Value) (hex hex' box_id : String)
      (d : Dashboard) (entries : List ModelEntry)
      → IsSound g options value index hex hex'
      → IsWhole g.vbox_spec
      → IsInert g
      → IsOneLine box_id
      → new_dashboard g options value index hex hex' ≡ ok d
      → let now = record d { value = value'; index = index' } in
        build_entries g now box_id ≡ ok entries
        → IsValid entries
        → AllSavable entries
        → (doc : Fields) × (build_document g now box_id ≡ ok (dict fresh doc))
          × (check_references doc ≡ ok tt)
  unfolding build_document build_entries get_summary_state get_download_state
  check_references-build_document options value index value' index' hex hex' box_id d entries h
        whole inert line e made valid savable =
      let now = record d { value = value'; index = index' } in
      let (first, second, slider, menu, ds, dd) =
        new_dashboard-Controls g options value index hex hex' d h e in
      let root = (root_lem d.slider_id d.slider_state _ d.slider_entries first slider).0 in
      let complete =
        of_states g now box_id entries _ _ (λ s p. of_text g now s _ refl p)
          (λ s p. of_document g s _ inert p) whole line
          (append-IsOneLine d.slider_id "-summary" root
            (refl, (refl, (refl, (refl, (refl, (refl, (refl, (refl, tt)))))))))
          (append-IsOneLine d.slider_id "-download" root
            (refl, (refl, (refl, (refl, (refl, (refl, (refl, (refl, (refl, tt))))))))))
          slider menu made in
      let (doc, dumps, checks) =
        check_references-dump_document g.codec lossless anywidget_module_version entries valid
          savable in
      (doc, rw (made, dumps) refl, checks.1 (IsComplete-AllResolved entries complete))
