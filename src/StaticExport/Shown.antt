-- ===== src/StaticExport/Shown.antt =====
-- What a reader of the notebook finds in it.
use cositos.Base.{String, ◌≡◌, refl, some, List, [], ◌∷◌}
use cositos.Value.{Key, name, key_eq, fresh, Value, dict, Fields, end, field}
use cositos.Value.Dict.{lookup}
use cositos.Errors.{ok}
use cositos.Protocol.{anywidget_module_version}
use cositos.Serialize.{Base64, ModelEntry, document_of}
use cositos.Serialize.RoundTrip.{IsLossless}
use cositos.Serialize.Documents.{IsValid, AllSavable}
use cositos.Serialize.Complete.{Recorded}
use cositos.Embed.Page.{state_mimetype, view_mimetype}
use cositos.Embed.Views.{AllEnriched, with_view_identity-AllEnriched}
use cositos.Embed.Exported.{dump_document-AreRenderable}
use cositos.StaticExport.{
  NbFormat, view_data, output_data, view_cells, inject_widget_state, build_notebook,
}

-- How notebooks are read, and what `nbformat` documents of it: what was put in is found.
pub record Reader {Output Cell Notebook : Type 0} (nbformat : NbFormat Output Cell Notebook)
    : Type 0 where
  pub output_type : Output → String
  pub content : Output → Fields
  pub outputs : Cell → List Output
  pub cells : Notebook → List Cell
  pub metadata : Notebook → Fields
  pub content_of_new : (kind : String) (d m : Fields) → content (nbformat.new_output kind d m) ≡ d
  pub type_of_new :
      (kind : String) (d m : Fields) → output_type (nbformat.new_output kind d m) ≡ kind
  pub outputs_of_set : (os : List Output) (c : Cell) → outputs (nbformat.set_outputs os c) ≡ os
  pub cells_of_new : (cs : List Cell) → cells (nbformat.new_notebook cs) ≡ cs
  pub cells_of_set :
      (k : Key) (v : Value) (nb : Notebook) → cells (nbformat.set_metadata k v nb) ≡ cells nb
  pub metadata_of_set :
      (k : Key) (v : Value) (nb : Notebook)
      → lookup k (metadata (nbformat.set_metadata k v nb)) ≡ some v

module _ {Output Cell Notebook : Type 0} (nbformat : NbFormat Output Cell Notebook)
    (reader : Reader nbformat) (codec : Base64) (lossless : IsLossless codec)
    (repr : String → String) where
  -- A cell for each view, in the views' order, whose one output shows the model of the view's id.
  abbrev pub AreViews : List String → List Cell → Type 0
  AreViews [] [] = Unit
  AreViews (mid ∷ mids) (c ∷ cs) =
      ((o : Output) × (reader.outputs c ≡ o ∷ [])
        × (reader.output_type o ≡ "display_data")
        × (lookup (name view_mimetype) (reader.content o) ≡ some (view_data mid)))
      × AreViews mids cs
  AreViews mids cs = ⊥

  view_cells-AreViews : (mids : List String) → AreViews mids (view_cells nbformat codec repr mids)
  unfolding view_cells lookup key_eq
  view_cells-AreViews [] = tt
  view_cells-AreViews (mid ∷ mids) = (
    (
      nbformat.new_output "display_data" (output_data nbformat codec repr mid) end,
      reader.outputs_of_set _ (nbformat.new_code_cell "widget"),
      reader.type_of_new _ _ _,
      rw reader.content_of_new refl,
    ),
    view_cells-AreViews mids,
  )

  -- Of models with distinct ids that are not empty, whose states are accepted dicts, `build_notebook`
  -- returns a notebook. It has one cell for each view, in the views' order, whose one output shows
  -- the model of the view's id; the document in its metadata has a record for each model, with the
  -- state less its binary values, and the view identity stands behind what the host has set.
  pub build_notebook-AreViews :
      (entries : List ModelEntry) (view_ids : List String)
      → IsValid entries
      → AllSavable entries
      → (nb : Notebook) × (viewed : Fields) × (rs : Fields) × (rs' : Fields) × (build_notebook
            nbformat codec repr entries view_ids
          ≡ ok nb)
        × AreViews view_ids (reader.cells nb)
        × (lookup (name "widgets") (reader.metadata nb)
            ≡ some (dict fresh (field (name state_mimetype) (dict fresh viewed) end)))
        × (lookup (name "state") viewed ≡ some (dict fresh rs'))
        × Recorded entries rs
        × AllEnriched rs rs'
  unfolding build_notebook inject_widget_state
  build_notebook-AreViews entries view_ids valid savable =
      let (rs, dumps, recorded, renderable) =
        dump_document-AreRenderable codec lossless anywidget_module_version entries valid savable in
      let (viewed, rs', views, found, enriched, others) =
        with_view_identity-AllEnriched (document_of codec rs) rs fresh
          (unfold lookup key_eq in refl) renderable in
      let cs = view_cells nbformat codec repr view_ids in
      (
        nbformat.set_metadata (name "widgets")
            (dict fresh (field (name state_mimetype) (dict fresh viewed) end))
            (nbformat.new_notebook cs),
        viewed,
        rs,
        rs',
        rw (dumps, views) refl,
        rw (reader.cells_of_set, reader.cells_of_new) (view_cells-AreViews view_ids),
        reader.metadata_of_set _ _ _,
        found,
        recorded,
        enriched,
      )
