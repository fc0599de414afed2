-- ===== src/Dashboard/Resolved.antt =====
-- The references in the document that the dashboard offers for download.
use Prim.Native.String.{◌++◌ as text_append}
use text.Mathlib.TextLemmas.{cons-append}
use cositos.Base.{String, ◌≡◌, refl, true, inl, inr, none, List, ◌∷◌, ◌++◌, arith}
use cositos.Value.{name, fresh, Value, null, dict, Fields, end, field}
use cositos.Value.Dict.{lookup, merge, Distinct}
use cositos.Errors.{Result, ok, err, ◌>>=◌}
use cositos.Protocol.{anywidget_module_version}
use cositos.Serialize.{ModelEntry}
use cositos.Serialize.RoundTrip.{IsLossless}
use cositos.Serialize.Documents.{id_in, IsValid, AllSavable}
use cositos.Serialize.Complete.{AllResolved, check_references-dump_document}
use cositos.Serialize.References.{model_ref, check_references}
use cositos.Serialize.References.Resolved.{SomeField}
use cositos.Controls.Boxes.{id_in-append}
use cositos.Controls.Closed.{IsPlain}
use cositos.Controls.Plain.{SomeField-merge}
use cositos.Controls.Complete.{Within, AllResolved-append}
use cositos.Dashboard.Made.{IsSound, Alone, new_dashboard-Controls, root_lem}
use cositos.Dashboard.{
  Setting, Dashboard, new_dashboard, summary_text, summary_fields, saved_entries, summary_id,
  companions_of, get_slider_state, get_dropdown_state, get_summary_state, dashboard_document,
}

-- The text of the summary refers to no model.
summary-plain : (text rest : String) → text ≡ text_append "value=" rest → model_ref text ≡ none
unfolding model_ref
summary-plain text rest e = rw (e, cons-append) refl

of_label :
    (shown : String) (r : Result String) (text : String)
    → (r >>= λ label.
        ok (text_append "value=" (text_append shown (text_append ", selection=" label))))
      ≡ ok text
    → model_ref text ≡ none
of_label shown (ok label) text e =
    summary-plain text (text_append shown (text_append ", selection=" label)) (cc e)
of_label shown (err x) text e = cc e

pub summary_text-plain :
    (g : Setting) (d : Dashboard) (text : String)
    → summary_text g d ≡ ok text
    → model_ref text ≡ none
unfolding summary_text
summary_text-plain g d text e = of_label _ _ text e

pub summary-resolved :
    (text rid : String) → model_ref text ≡ none → SomeField rid (summary_fields text) → ⊥
unfolding model_ref
summary-resolved text rid e r = elim r [
  | inl n ↦ cc n
  | inr later ↦ elim later [ inl t ↦ cc (e, t) | inr n ↦ n ]
]

-- The state of a control with one entry written anew.
rewritten :
    (a k : String) (state : Fields) (v : Value) (rest all : List ModelEntry)
    → Alone a state rest
    → Distinct state
    → IsPlain v
    → Within ((a, dict fresh state) ∷ rest) all
    → (rid : String) → SomeField rid (merge state (field (name k) v end))
    → id_in rid all ≡ true
unfolding lookup
rewritten a k state v rest all alone d plain within rid r =
    elim (SomeField-merge rid state (field (name k) v end) d (refl, tt) r) [
      | inl new ↦ elim new [ inl n ↦ elim (plain rid n) [ ] | inr n ↦ elim n [ ] ]
      | inr old ↦ (alone all within).0 rid old
    ]

among_four :
    (a b c rid : String) (u v w x : Value) (es fs : List ModelEntry)
    → ((id_in rid ((a, x) ∷ es) ≡ true) → id_in rid ((a, u) ∷ (b, v) ∷ (c, w) ∷ (es ++ fs)) ≡ true)
      × ((id_in rid ((b, x) ∷ fs) ≡ true)
          → id_in rid ((a, u) ∷ (b, v) ∷ (c, w) ∷ (es ++ fs)) ≡ true)
among_four a b c rid u v w x es fs =
    (λ h. ground (arith, h, id_in-append rid es fs), λ h. ground (arith, h, id_in-append rid es fs))

saved-AllResolved :
    (d : Dashboard) (text : String)
    → Alone d.slider_id d.slider_state (companions_of d.slider_entries)
    → Alone d.dropdown_id d.dropdown_state (companions_of d.dropdown_entries)
    → Distinct d.slider_state
    → Distinct d.dropdown_state
    → IsPlain d.value
    → IsPlain d.index
    → model_ref text ≡ none
    → AllResolved (saved_entries d (summary_fields text)) (saved_entries d (summary_fields text))
unfolding get_slider_state get_dropdown_state
saved-AllResolved d text alone alone' ds dd pv pi plain =
    let all = saved_entries d (summary_fields text) in
    let es = companions_of d.slider_entries in
    let fs = companions_of d.dropdown_entries in
    let within : Within ((d.slider_id, dict fresh d.slider_state) ∷ es) all = λ rid h.
      (among_four d.slider_id d.dropdown_id (summary_id d) rid null null null null es fs).0 h in
    let within' : Within ((d.dropdown_id, dict fresh d.dropdown_state) ∷ fs) all = λ rid h.
      (among_four d.slider_id d.dropdown_id (summary_id d) rid null null null null es fs).1 h in
    (
      λ rid r. rewritten d.slider_id "value" d.slider_state d.value es all alone ds pv within rid r,
      (
        λ rid r.
            rewritten d.dropdown_id "index" d.dropdown_state d.index fs all alone' dd pi within' rid
              r,
        (
          λ rid r. elim (summary-resolved text rid plain r) [ ],
          AllResolved-append all es fs (alone all within).1 (alone' all within').1,
        ),
      ),
    )

module _ (g : Setting) (lossless : IsLossless g.codec) where
  -- Of a dashboard whose catalog refers to models only where it has companions, whose ids are lines,
  -- and whose options, values and indices refer to no model: if its text exists, the ids of the models
  -- that it saves are distinct and not empty and their states are accepted dicts, the download's
  -- document is made, and `check_references` accepts it.
  pub check_references-dashboard_document :
      (options : List String) (value index value' index' : Value) (hex hex' text : String)
      (d : Dashboard)
      → IsSound g options value index hex hex'
      → new_dashboard g options value index hex hex' ≡ ok d
      → IsPlain value'
      → IsPlain index'
      → let now = record d { value = value'; index = index' } in
        summary_text g now ≡ ok text
        → IsValid (saved_entries now (summary_fields text))
        → AllSavable (saved_entries now (summary_fields text))
        → (doc : Fields) × (dashboard_document g now ≡ ok (dict fresh doc))
          × (check_references doc ≡ ok tt)
  unfolding dashboard_document get_summary_state
  check_references-dashboard_document options value index value' index' hex hex' text d h e pv pi
        told valid savable =
      let now = record d { value = value'; index = index' } in
      let (first, second, whole, whole', ds, dd) =
        new_dashboard-Controls g options value index hex hex' d h e in
      let alone = (root_lem d.slider_id d.slider_state _ d.slider_entries first whole).1 in
      let alone' = (root_lem d.dropdown_id d.dropdown_state _ d.dropdown_entries second whole').1 in
      let (doc, dumps, checks) =
        check_references-dump_document g.codec lossless anywidget_module_version
          (saved_entries now (summary_fields text)) valid savable in
      (
        doc,
        rw (told, dumps) refl,
        checks.1 (
            saved-AllResolved now text alone alone' ds dd pv pi
              (summary_text-plain g now text told)),
      )
