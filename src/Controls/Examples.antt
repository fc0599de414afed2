-- ===== src/Controls/Examples.antt =====
-- The theorems on controls at a small catalog.
use cositos.Base.{String, ◌≡◌, ◌≢◌, refl, some, List, [], ◌∷◌}
use cositos.Value.{
  pos, name, key_eq, fresh, list_kind, Value, null, int, str, seq, dict, Items, Fields, end, field,
}
use cositos.Value.Dict.{lookup}
use cositos.Errors.{ok}
use cositos.Serialize.{ModelEntry}
use cositos.Controls.{Identity, Spec, int_slider, dropdown, box, labels_of, build}
use cositos.Controls.Choice.{IsChoice, dropdown-IsChoice}
use cositos.Controls.Boxes.{AllHeld, box-AllHeld}

abbrev identity : Identity
identity = record {
  model_name = str "M";
  model_module = str "@jupyter-widgets/controls";
  model_module_version = str "2.0.0";
  view_name = str "V";
  view_module = str "@jupyter-widgets/controls";
  view_module_version = str "2.0.0";
}

abbrev spec : Spec
spec = record {
  identity = identity;
  default_state = field (name "disabled") null (field (name "layout") null end);
  companions = record { key = "layout"; identity = identity } ∷ [];
}

-- `str`, of texts
abbrev to_text : Value → String
to_text (str s) = s
to_text v = ""

abbrev fruits : List Value
fruits = str "apple" ∷ str "pear" ∷ []

string_not_null : str "pear" ≢ null
string_not_null e = cc e

dropdown-IsChoice_example :
    (state : Fields) × (companions : List ModelEntry) × (index : Value) × (dropdown to_text spec
        fruits
        (str "pear")
        end
        "d"
      ≡ ("d", dict fresh state) ∷ companions)
    × (lookup (name "index") state ≡ some index)
    × IsChoice index "pear" (labels_of to_text fruits)
unfolding lookup key_eq
dropdown-IsChoice_example =
    dropdown-IsChoice to_text spec fruits (str "pear") end "d" (refl, (refl, tt)) tt refl
      string_not_null

abbrev slider : List ModelEntry
slider = int_slider spec (int (pos 1)) (int (pos 0)) (int (pos 9)) end "s"

box-AllHeld_example :
    (state : Fields) × (rest : List ModelEntry) × (refs : Items) × (box spec
        (slider ∷ slider ∷ [])
        end
        "b"
      ≡ ok (("b", dict fresh state) ∷ rest))
    × (lookup (name "children") state ≡ some (seq list_kind fresh refs))
    × AllHeld refs (slider ∷ slider ∷ []) (("b", dict fresh state) ∷ rest)
unfolding lookup key_eq int_slider build
box-AllHeld_example = box-AllHeld spec (slider ∷ slider ∷ []) end "b" (refl, (refl, tt)) tt refl tt
