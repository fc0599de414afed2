-- ===== src/Controls/Layout.antt =====
-- Nested calls of the functions of the module, and what they are given.
pub mod Resolved
mod Examples
use text.Mathlib.TextEquality.{eq_iff}
use text.Mathlib.Text.{◌==◌}
use text.Mathlib.TextLemmas.{cons≢nil}
use cositos.Serialize.References.{model_ref}
use cositos.Base.{
  sym, ℕ, All, String, ◌≡◌, refl, ap, ◌∙◌, ◌⊎◌, inl, inr, Bool, true, false, ◌||◌, Option, none,
  some, List, [], ◌∷◌, ◌++◌, arith, Bool-cases,
}
use cositos.Value.{
  Key, name, key_eq, fresh, list_kind, Value, null, seq, dict, str, Items, nil, cons, Fields, end,
  field,
}
use cositos.Value.Dict.{lookup, remove, merge, Distinct, lookup-merge, merge-Distinct}
use cositos.Errors.{Result, ok, err, ◌>>=◌}
use mathlib.Core.Path.{subst}
use cositos.Serialize.{Base64, ModelEntry, dump_document}
use cositos.Serialize.RoundTrip.{IsLossless}
use cositos.Serialize.References.{check_references}
use cositos.Serialize.Documents.{IsValid, AllSavable}
use cositos.Serialize.Complete.{check_references-dump_document}
use cositos.Serialize.Documents.{id_in}
use cositos.Serialize.Complete.{AllResolved}
use cositos.Serialize.References.Resolved.{RefersTo, SomeItem, SomeField}
use cositos.Serialize.References.Written.{
  IsOneLine, SomeField-lookup, lookup-SomeField, model_ref_lem,
}
use cositos.Controls.{
  Spec, Catalog, add_companions, identity_fields, build, int_slider, dropdown, vbox, hbox, box,
  labels_of, texts, index_of, index_value, dropdown_index, flattened, child_refs, reference,
}
use cositos.Controls.Choice.{remove-Distinct}
use cositos.Controls.Boxes.{id_in-append, or_true}
use cositos.Controls.Closed.{IsPlain, IsWhole, found-first, build-AllResolved}
use cositos.Controls.Plain.{ArePlainFields, IsLabel}

-- The calls that lay out a tree of controls, each with its arguments and the id that it mints.
mutual
  pub data Layout : Type 0 where
    slider : Value → Value → Value → Fields → String → Layout
    menu : List Value → Value → Fields → String → Layout
    column : Layouts → Fields → String → Layout
    row : Layouts → Fields → String → Layout

  pub data Layouts : Type 0 where
    finished : Layouts
    also : Layout → Layouts → Layouts

-- what the calls return, the innermost first
module _ (to_text : Value → String) (catalog : Catalog) where
  unfoldable mutual
    pub entries_of : Layout → Result (List ModelEntry)
    entries_of (slider value min max overrides hex) =
        ok (int_slider catalog.slider_spec value min max overrides hex)
    entries_of (menu options value overrides hex) =
        ok (dropdown to_text catalog.dropdown_spec options value overrides hex)
    entries_of (column ls overrides hex) = do
      children ← each_entries ls
      vbox catalog children overrides hex
    entries_of (row ls overrides hex) = do
      children ← each_entries ls
      hbox catalog children overrides hex

    pub each_entries : Layouts → Result (List (List ModelEntry))
    each_entries finished = ok []
    each_entries (also l ls) = do es ← entries_of l; rest ← each_entries ls; ok (es ∷ rest)

-- What the calls are given: ids that are lines, and values that refer to no model.
module _ (to_text : Value → String) where
  unfoldable mutual
    pub IsSound : Layout → Type 0
    IsSound (slider value min max overrides hex) =
        IsOneLine hex × IsPlain value × IsPlain min × IsPlain max × ArePlainFields overrides
    IsSound (menu options value overrides hex) =
        IsOneLine hex × All IsLabel (labels_of to_text options) × ArePlainFields overrides
    IsSound (column ls overrides hex) = IsOneLine hex × AreSound ls × ArePlainFields overrides
    IsSound (row ls overrides hex) = IsOneLine hex × AreSound ls × ArePlainFields overrides

    pub AreSound : Layouts → Type 0
    AreSound finished = Unit
    AreSound (also l ls) = IsSound l × AreSound ls

-- A catalog whose entries refer to models only where they have a companion.
pub record AreWhole (catalog : Catalog) : Type 0 where
  pub slider_IsWhole : IsWhole catalog.slider_spec
  pub dropdown_IsWhole : IsWhole catalog.dropdown_spec
  pub vbox_IsWhole : IsWhole catalog.vbox_spec
  pub hbox_IsWhole : IsWhole catalog.hbox_spec
