-- ===== src/Harvest/Examples.antt =====
-- Harvesting with and without ipywidgets.
use cositos.Base.{ℕ, ◌≡◌, refl, true, some, List, [], ◌∷◌}
use cositos.Value.{
  pos, name, key_eq, list_kind, fresh, Value, int, str, seq, dict, nil, cons, end, field,
}
use cositos.Value.Dict.{lookup}
use cositos.Errors.{type_error, value_error, ok, err}
use cositos.Buffers.Put.{get_item}
use cositos.Embed.Page.{Rendering}
use cositos.Harvest.{harvest, harvest_html}

abbrev manager_state : Value
manager_state = dict fresh (field (name "version_major") (int (pos 2)) end)

abbrev embed_data : List ℕ → Value
embed_data ws = dict fresh (
    field (name "manager_state") manager_state
      (field (name "view_specs") (seq list_kind fresh (cons (str "no spec") nil)) end))

harvested : harvest (some embed_data) (1 ∷ []) ≡ ok manager_state
unfolding get_item lookup key_eq
harvested = refl

nothing_to_harvest :
    harvest (some embed_data) []
    ≡ err (value_error "harvest requires at least one widget to serialize")
nothing_to_harvest = refl

abbrev rendering : Rendering
rendering = record { dumps = λ v. "{}"; dumps_indented = λ v. "{}"; format = λ s v. s }

-- A view that is no dict.
bad_view : harvest_html (some embed_data) rendering (1 ∷ []) "" true "1" ≡ err type_error
unfolding get_item lookup key_eq
bad_view = refl
