-- ===== src/Dashboard/PageExamples.antt =====
-- The theorem on the exported page at the small dashboard, after the second option was chosen.
use cositos.Base.{inl, inr, sym, ◌≡◌, refl, some, List, [], ◌∷◌, arith}
use cositos.Value.{
  pos, name, key_eq, ident_mem, fresh, Value, null, int, dict, Key, Fields, end, field,
}
use cositos.Value.Dict.{lookup, insert, remove, merge}
use cositos.Errors.{ok}
use cositos.Buffers.{remove_buffers, run, cost, max_depth}
use cositos.Serialize.Strokes.{codec-IsLossless}
use cositos.Serialize.Documents.{AllSavable}
use cositos.Buffers.Faults.{height}
use cositos.Serialize.{ModelEntry, dump_document, dump_entries, dump_model, encode_buffers}
use cositos.Controls.{int_slider, dropdown, build, add_companions, box, child_refs}
use cositos.Dashboard.{
  Dashboard, new_dashboard, summary_text, get_summary_state, get_download_state, get_slider_state,
  get_dropdown_state, dashboard_document, build_entries, build_document,
}
use mathlib.Core.Path.{subst}
use cositos.Serialize.References.{model_ref, check_references}
use cositos.Serialize.References.Resolved.{RefersTo}
use cositos.Controls.Closed.{IsWhole, found-field}
use cositos.Dashboard.Made.{IsSound}
use cositos.Dashboard.Exported.{IsInert, check_references-build_document}
use cositos.Dashboard.Samples.{spec, setting, dashboard, some_entries}

found_null : (k : Key) (v : Value) → lookup k (field (name "layout") null end) ≡ some v → v ≡ null
unfolding lookup
found_null k v found = elim (found-field (name "layout") k null v end found) [
  | inl e ↦ sym e.1
  | inr n ↦ cc n
]

spec-IsWhole : IsWhole spec
unfolding lookup key_eq model_ref
spec-IsWhole = record {
  distinct = (refl, tt);
  identity_IsPlain = λ rid r. ground (arith, r);
  companions_ArePlain =
      ((refl, (refl, (refl, (refl, (refl, (refl, tt)))))), λ rid r. ground (arith, r), tt);
  placeholders = λ rid k v found r. elim (subst (RefersTo rid) (found_null k v found) r) [ ];
}

dashboard-IsSound : IsSound setting ("low" ∷ "high" ∷ []) (int (pos 25)) (int (pos 0)) "s" "d"
unfolding model_ref
dashboard-IsSound = record {
  slider_IsWhole = spec-IsWhole;
  dropdown_IsWhole = spec-IsWhole;
  labels = (refl, (refl, tt));
  value_IsPlain = λ rid n. n;
  index_IsPlain = λ rid n. n;
  slider_line = (refl, tt);
  dropdown_line = (refl, tt);
}

-- The dashboard after the second option was chosen.
abbrev chosen : Dashboard
chosen = record dashboard { value = int (pos 30); index = int (pos 1) }

abbrev exported : List ModelEntry
exported = some_entries (build_entries setting chosen "box")

chosen_built : build_entries setting chosen "box" ≡ ok exported
unfolding new_dashboard summary_text int_slider dropdown build add_companions merge insert remove
    lookup key_eq get_summary_state get_slider_state get_dropdown_state get_download_state
    dashboard_document dump_document dump_entries dump_model encode_buffers remove_buffers run cost
    max_depth ident_mem build_entries box child_refs
chosen_built = refl

exported-AllSavable : AllSavable exported
unfolding new_dashboard summary_text int_slider dropdown build add_companions merge insert remove
    lookup key_eq get_summary_state get_slider_state get_dropdown_state get_download_state
    dashboard_document dump_document dump_entries dump_model encode_buffers remove_buffers run cost
    max_depth ident_mem build_entries box child_refs height
exported-AllSavable = (
  record { tidy = ground arith; shallow = omega arith; acyclic = ground arith },
  (
    record { tidy = ground arith; shallow = omega arith; acyclic = ground arith },
    (
      record { tidy = ground arith; shallow = omega arith; acyclic = ground arith },
      (
        record { tidy = ground arith; shallow = omega arith; acyclic = ground arith },
        (
          record { tidy = ground arith; shallow = omega arith; acyclic = ground arith },
          (
            record { tidy = ground arith; shallow = omega arith; acyclic = ground arith },
            (
              record { tidy = ground arith; shallow = omega arith; acyclic = ground arith },
              (record { tidy = ground arith; shallow = omega arith; acyclic = ground arith }, tt),
            ),
          ),
        ),
      ),
    ),
  ),
)

setting-IsInert : IsInert setting
unfolding model_ref
setting-IsInert = record { esm_plain = refl; json_plain = λ v. refl }

check_references-build_document_example :
    (doc : Fields) × (build_document setting chosen "box" ≡ ok (dict fresh doc))
    × (check_references doc ≡ ok tt)
unfolding new_dashboard summary_text int_slider dropdown build add_companions merge insert remove
    lookup key_eq get_summary_state get_slider_state get_dropdown_state get_download_state
    dashboard_document dump_document dump_entries dump_model encode_buffers remove_buffers run cost
    max_depth ident_mem build_entries box child_refs
check_references-build_document_example =
    check_references-build_document setting codec-IsLossless ("low" ∷ "high" ∷ []) (int (pos 25))
      (int (pos 0)) (int (pos 30)) (int (pos 1)) "s" "d" "box" dashboard exported dashboard-IsSound
      spec-IsWhole setting-IsInert (refl, (refl, (refl, tt))) refl chosen_built
      (
        refl,
        refl,
        (
          refl,
          refl,
          (refl, refl, (refl, refl, (refl, refl, (refl, refl, (refl, refl, (refl, refl, tt)))))),
        ),
      )
      exported-AllSavable
