-- ===== src/Controls/Layout/Resolved.antt =====
-- The references in the entries of nested calls.
use cositos.Base.{All, String, ◌≡◌, refl, List, [], ◌∷◌}
use cositos.Value.{fresh, Value, dict, Fields}
use cositos.Errors.{Result, ok}
use mathlib.Core.Path.{subst}
use cositos.Serialize.{Base64, ModelEntry, dump_document}
use cositos.Serialize.RoundTrip.{IsLossless}
use cositos.Serialize.References.{check_references}
use cositos.Serialize.Documents.{IsValid, AllSavable}
use cositos.Serialize.Complete.{check_references-dump_document}
use cositos.Serialize.Complete.{AllResolved}
use cositos.Controls.{Catalog, int_slider, dropdown}
use cositos.Controls.Complete.{IsComplete, build-IsComplete, box-IsComplete, IsComplete-AllResolved}
use cositos.Controls.Layout.{
  Layout, Layouts, slider, menu, column, row, finished, also, entries_of, each_entries, IsSound,
  AreSound, AreWhole,
}
use cositos.Controls.Plain.{slider-ArePlainFields, menu-ArePlainFields}

same_entries :
    {r : Result (List ModelEntry)} {es fs : List ModelEntry} → r ≡ ok es → r ≡ ok fs → es ≡ fs
same_entries e f = cc (e, f)

module _ (to_text : Value → String) (catalog : Catalog) (whole : AreWhole catalog) where
  mutual
    unfolding entries_of int_slider dropdown IsSound

    entries_of-IsComplete :
        (l : Layout)
        → IsSound to_text l
        → (es : List ModelEntry) × (entries_of to_text catalog l ≡ ok es) × IsComplete es
    entries_of-IsComplete (slider value min max overrides hex) h = (
      int_slider catalog.slider_spec value min max overrides hex,
      refl,
      build-IsComplete catalog.slider_spec _ hex whole.slider_IsWhole h.0
          (slider-ArePlainFields value min max overrides h.1 h.2 h.3 h.4),
    )
    entries_of-IsComplete (menu options value overrides hex) h = (
      dropdown to_text catalog.dropdown_spec options value overrides hex,
      refl,
      build-IsComplete catalog.dropdown_spec _ hex whole.dropdown_IsWhole h.0
          (menu-ArePlainFields to_text options value overrides h.1 h.2),
    )
    entries_of-IsComplete (column ls overrides hex) h =
        let (children, made, complete) = each_entries-IsComplete ls h.1 in
        let (es, boxes, all) =
          box-IsComplete catalog.vbox_spec children overrides hex whole.vbox_IsWhole h.0 h.2
            complete in
        (es, rw made boxes, all)
    entries_of-IsComplete (row ls overrides hex) h =
        let (children, made, complete) = each_entries-IsComplete ls h.1 in
        let (es, boxes, all) =
          box-IsComplete catalog.hbox_spec children overrides hex whole.hbox_IsWhole h.0 h.2
            complete in
        (es, rw made boxes, all)

    each_entries-IsComplete :
        (ls : Layouts)
        → AreSound to_text ls
        → (children : List (List ModelEntry)) × (each_entries to_text catalog ls ≡ ok children)
          × All IsComplete children
    each_entries-IsComplete finished h = ([], refl, tt)
    each_entries-IsComplete (also l ls) h =
        let (es, made, complete) = entries_of-IsComplete l h.0 in
        let (children, mades, completes) = each_entries-IsComplete ls h.1 in
        (es ∷ children, rw (made, mades) refl, (complete, completes))

  -- `entries_of` returns, and every model that its entries refer to is among them.
  pub entries_of-AllResolved :
      (l : Layout)
      → IsSound to_text l
      → (es : List ModelEntry) × (entries_of to_text catalog l ≡ ok es) × AllResolved es es
  entries_of-AllResolved l h =
      let (es, made, complete) = entries_of-IsComplete l h in
      (es, made, IsComplete-AllResolved es complete)

  -- With a catalog that refers to models only where it has companions, and a lossless base64: the
  -- entries of nested calls whose ids are lines and whose arguments refer to no model, if their ids
  -- are distinct and not empty and their states are accepted dicts, make a document that
  -- `check_references` accepts.
  pub check_references-entries_of :
      (codec : Base64) (lossless : IsLossless codec) (version : String) (l : Layout)
      (es : List ModelEntry)
      → IsSound to_text l
      → entries_of to_text catalog l ≡ ok es
      → IsValid es
      → AllSavable es
      → (doc : Fields) × (dump_document codec es version ≡ ok (dict fresh doc))
        × (check_references doc ≡ ok tt)
  check_references-entries_of codec lossless version l es h made valid savable =
      let (es', made', resolved) = entries_of-AllResolved l h in
      let (doc, dumps, checks) =
        check_references-dump_document codec lossless version es valid savable in
      (doc, dumps, checks.1 (subst (λ fs. AllResolved fs fs) (same_entries made' made) resolved))
