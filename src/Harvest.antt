-- ===== src/Harvest.antt =====
-- src/cositos/contrib/harvest.py: a document of existing ipywidgets. `embed_data` of ipywidgets is a
-- parameter, called with `drop_defaults=False`; it is `none` if the package is not installed.
mod Examples
use cositos.Base.{String, Bool, Option, none, some, List, [], ◌∷◌}
use cositos.Value.{Key, name, Value, seq, dict, Items, nil, cons, Fields}
use cositos.Errors.{type_error, value_error, import_error, Result, ok, err, ◌>>=◌}
use cositos.Buffers.Put.{get_item}
use cositos.Protocol.Wire.{value_key}
use cositos.Embed.Page.{Rendering, embed_html}

module _ {W : Type 0} (embed_data : Option (List W → Value)) where
  -- `_embed_data`
  abbrev data_of : List W → Result Value
  data_of [] = err (value_error "harvest requires at least one widget to serialize")
  data_of (w ∷ ws) = elim embed_data [
    | none ↦ err (
        import_error
          "cositos.contrib.harvest requires ipywidgets; install it with `pip install ipywidgets` (or the cositos 'oracle' extra)")
    | some f ↦ ok (f (w ∷ ws))
  ]

  abbrev pub harvest : List W → Result Value
  harvest widgets = do embedded ← data_of widgets; get_item embedded (name "manager_state")

  -- `[spec["model_id"] for spec in ...]`
  abbrev view_ids : Items → Result (List Key)
  view_ids nil = ok []
  view_ids (cons spec specs) = do
    model_id ← get_item spec (name "model_id")
    k ← value_key model_id
    ks ← view_ids specs
    ok (k ∷ ks)

  abbrev ids_of : Value → Result (List Key)
  ids_of (seq s i specs) = view_ids specs
  ids_of v = err type_error

  abbrev fields_of : Value → Result Fields
  fields_of (dict i fs) = ok fs
  fields_of v = err type_error

  abbrev pub harvest_html : Rendering → List W → String → Bool → String → Result String
  harvest_html r widgets title requirejs version = do
    embedded ← data_of widgets
    specs ← get_item embedded (name "view_specs")
    ids ← ids_of specs
    state ← get_item embedded (name "manager_state")
    document ← fields_of state
    embed_html r document (some ids) title requirejs version
