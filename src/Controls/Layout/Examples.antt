-- ===== src/Controls/Layout/Examples.antt =====
-- The theorems on nested calls at a column of one slider, with a small catalog.
use mathlib.Core.Path.{subst}
use cositos.Base.{String, ◌≡◌, refl, sym, inl, inr, List, [], ◌∷◌, arith}
use cositos.Value.{
  pos, name, key_eq, fresh, Value, null, int, str, ident_mem, dict, Fields, end, field,
}
use cositos.Value.Dict.{lookup, insert, merge}
use cositos.Errors.{Result, ok, err}
use cositos.Buffers.{max_depth}
use cositos.Buffers.Faults.{height}
use cositos.Serialize.{ModelEntry, dump_document}
use cositos.Serialize.Strokes.{codec, codec-IsLossless}
use cositos.Serialize.References.{model_ref, check_references}
use cositos.Serialize.References.Resolved.{RefersTo}
use cositos.Controls.{Identity, Spec, Catalog, int_slider, box, build, add_companions, child_refs}
use cositos.Controls.Closed.{found-field, IsWhole}
use cositos.Controls.Layout.{Layout, slider, column, finished, also, entries_of, IsSound, AreWhole}
use cositos.Controls.Layout.Resolved.{check_references-entries_of}

abbrev identity : Identity
identity = record {
  model_name = str "M";
  model_module = str "@jupyter-widgets/controls";
  model_module_version = str "2.0.0";
  view_name = null;
  view_module = str "@jupyter-widgets/controls";
  view_module_version = str "2.0.0";
}

abbrev layout_only : Fields
layout_only = field (name "layout") (str "IPY_MODEL_<layout_id>") end

-- Its state has the placeholder that the catalog's file has.
abbrev spec : Spec
spec = record {
  identity = identity;
  default_state = field (name "disabled") null layout_only;
  companions = record { key = "layout"; identity = identity } ∷ [];
}

abbrev catalog : Catalog
catalog = record { slider_spec = spec; dropdown_spec = spec; vbox_spec = spec; hbox_spec = spec }

spec-IsWhole : IsWhole spec
unfolding lookup key_eq model_ref
spec-IsWhole = record {
  distinct = (refl, (refl, tt));
  identity_IsPlain = λ rid r. ground (arith, r);
  companions_ArePlain =
      ((refl, (refl, (refl, (refl, (refl, (refl, tt)))))), λ rid r. ground (arith, r), tt);
  placeholders = λ rid k v found r.
      elim (found-field (name "disabled") k null v layout_only found) [
        | inl e ↦ elim (subst (RefersTo rid) (sym e.1) r) [ ]
        | inr rest ↦ elim (found-field (name "layout") k (str "IPY_MODEL_<layout_id>") v end rest) [
          | inl e ↦ inl e.0
          | inr n ↦ cc n
        ]
      ];
}

catalog-AreWhole : AreWhole catalog
catalog-AreWhole = record {
  slider_IsWhole = spec-IsWhole;
  dropdown_IsWhole = spec-IsWhole;
  vbox_IsWhole = spec-IsWhole;
  hbox_IsWhole = spec-IsWhole;
}

abbrev to_text : Value → String
to_text v = ""

abbrev tree : Layout
tree = column (also (slider (int (pos 1)) (int (pos 0)) (int (pos 9)) end "s") finished) end "c"

abbrev or_empty : Result (List ModelEntry) → List ModelEntry
or_empty (ok es) = es
or_empty (err e) = []

abbrev entries : List ModelEntry
entries = or_empty (entries_of to_text catalog tree)

made : entries_of to_text catalog tree ≡ ok entries
unfolding entries_of box child_refs int_slider build
made = refl

nothing : String → ⊥ → ⊥
nothing rid n = n

tree-IsSound : IsSound to_text tree
unfolding IsSound lookup model_ref
tree-IsSound =
    ((refl, tt), (((refl, tt), nothing, nothing, nothing, (tt, nothing)), tt), (tt, nothing))

check_references-entries_of_example :
    (doc : Fields) × (dump_document codec entries "~0.9.*" ≡ ok (dict fresh doc))
    × (check_references doc ≡ ok tt)
unfolding entries_of box child_refs int_slider build add_companions merge insert lookup key_eq
    max_depth ident_mem height
check_references-entries_of_example =
    check_references-entries_of to_text catalog catalog-AreWhole codec codec-IsLossless "~0.9.*"
      tree entries tree-IsSound made (refl, refl, (refl, refl, (refl, refl, (refl, refl, tt))))
      (
        record { tidy = ground arith; shallow = omega arith; acyclic = ground arith },
        (
          record { tidy = ground arith; shallow = omega arith; acyclic = ground arith },
          (
            record { tidy = ground arith; shallow = omega arith; acyclic = ground arith },
            (record { tidy = ground arith; shallow = omega arith; acyclic = ground arith }, tt),
          ),
        ),
      )
