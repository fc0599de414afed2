-- ===== src/Dashboard/Made.antt =====
-- The controls that a new dashboard has.
use mathlib.Core.Path.{subst}
use cositos.Base.{String, ◌≡◌, refl, inl, inr, List, [], ◌∷◌, All}
use cositos.Value.{name, key_eq, fresh, pos, Value, null, int, dict, Fields, end, field}
use cositos.Value.Dict.{lookup, merge, Distinct, merge-Distinct}
use cositos.Errors.{ok}
use cositos.Serialize.{ModelEntry}
use cositos.Serialize.Complete.{AllResolved}
use cositos.Serialize.References.Written.{IsOneLine}
use cositos.Controls.{Spec, build, int_slider, dropdown, labels_of, add_companions, identity_fields}
use cositos.Controls.Closed.{IsPlain, IsWhole, identity_fields-Distinct}
use cositos.Controls.Plain.{ArePlainFields, IsLabel, slider-ArePlainFields, menu-ArePlainFields}
use cositos.Controls.Complete.{IsComplete, build-IsComplete, Within}
use cositos.Dashboard.{Setting, Dashboard, new_dashboard, text_values, companions_of}

-- What the dashboard is made of: values that refer to no model.
pub record IsSound (g : Setting) (options : List String) (value index : Value) (hex hex' : String)
    : Type 0 where
  pub slider_IsWhole : IsWhole g.slider_spec
  pub dropdown_IsWhole : IsWhole g.dropdown_spec
  pub labels : All IsLabel (labels_of g.to_text (text_values options))
  pub value_IsPlain : IsPlain value
  pub index_IsPlain : IsPlain index
  pub slider_line : IsOneLine hex
  pub dropdown_line : IsOneLine hex'

-- The models of one control: each of them refers only to models among them.
abbrev pub Alone : String → Fields → List ModelEntry → Type 0
Alone a state rest =
    (all : List ModelEntry)
    → Within ((a, dict fresh state) ∷ rest) all
    → AllResolved all ((a, dict fresh state) ∷ rest)

-- What `new_dashboard` gives: two controls, each of which refers only to its own models.
abbrev pub Controls : Dashboard → Type 0
Controls d =
    (d.slider_entries ≡ (d.slider_id, dict fresh d.slider_state) ∷ companions_of d.slider_entries)
    × (d.dropdown_entries
        ≡ (d.dropdown_id, dict fresh d.dropdown_state) ∷ companions_of d.dropdown_entries)
    × IsComplete d.slider_entries
    × IsComplete d.dropdown_entries
    × Distinct d.slider_state
    × Distinct d.dropdown_state

carried : (P : Dashboard → Type 0) {c d : Dashboard} → ok c ≡ ok d → P c → P d
carried P e p = subst P (cc e) p

build-Distinct :
    (spec : Spec) (overrides : Fields) (hex : String)
    → Distinct (
        merge
          (identity_fields spec.identity)
          (merge (add_companions hex spec.companions spec.default_state).0 overrides))
build-Distinct spec overrides hex =
    merge-Distinct (identity_fields spec.identity) _ (identity_fields-Distinct spec.identity)

nothing : ArePlainFields end
nothing = (tt, λ rid r. r)

pub new_dashboard-Controls :
    (g : Setting) (options : List String) (value index : Value) (hex hex' : String) (d : Dashboard)
    → IsSound g options value index hex hex'
    → new_dashboard g options value index hex hex' ≡ ok d
    → Controls d
unfolding new_dashboard int_slider dropdown build lookup key_eq
new_dashboard-Controls g [] value index hex hex' d h e = cc e
new_dashboard-Controls g (o ∷ os) value index hex hex' d h e = carried Controls e (
  refl,
  refl,
  build-IsComplete g.slider_spec _ hex h.slider_IsWhole h.slider_line (
      slider-ArePlainFields value (int (pos 0)) (int (pos 100)) end h.value_IsPlain (λ rid r. r)
        (λ rid r. r) nothing),
  build-IsComplete g.dropdown_spec _ hex' h.dropdown_IsWhole h.dropdown_line (
      menu-ArePlainFields g.to_text (text_values (o ∷ os)) null (field (name "index") index end)
        h.labels ((refl, tt), λ rid r. elim r [ inl i ↦ h.index_IsPlain rid i | inr n ↦ n ])),
  build-Distinct g.slider_spec _ hex,
  build-Distinct g.dropdown_spec _ hex',
)

pub root_lem :
    (a : String) (state : Fields) (rest es : List ModelEntry)
    → es ≡ (a, dict fresh state) ∷ rest
    → IsComplete es
    → IsOneLine a × Alone a state rest
root_lem a state rest es e h = subst IsComplete e h
