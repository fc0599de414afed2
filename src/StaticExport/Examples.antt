-- ===== src/StaticExport/Examples.antt =====
-- The theorem on the notebook for the program's own model, with notebooks as plain records.
use cositos.Base.{String, ◌≡◌, refl, some, List, [], ◌∷◌, arith}
use cositos.Value.{name, key_eq, key_eq_refl, ident_mem, fresh, dict, Fields, end, field}
use cositos.Value.Dict.{lookup, insert, lookup-insert}
use cositos.Errors.{ok}
use cositos.Buffers.{max_depth}
use cositos.Buffers.Faults.{height}
use cositos.Serialize.Strokes.{codec, codec-IsLossless}
use cositos.Serialize.Complete.{Recorded}
use cositos.Embed.Page.{state_mimetype}
use cositos.Embed.Views.{AllEnriched}
use cositos.StaticExport.{NbFormat, counter_entries, build_notebook}
use cositos.StaticExport.Shown.{Reader, AreViews, build_notebook-AreViews}

abbrev Output : Type 0
Output = String × Fields

abbrev Notebook : Type 0
Notebook = List (List Output) × Fields

abbrev nbformat : NbFormat Output (List Output) Notebook
nbformat = record {
  new_output = λ kind d m. (kind, d);
  new_code_cell = λ source. [];
  set_outputs = λ os c. os;
  new_notebook = λ cs. (cs, end);
  set_metadata = λ k v nb. (nb.0, insert k v nb.1);
}

reader : Reader nbformat
reader = record {
  output_type = λ o. o.0;
  content = λ o. o.1;
  outputs = λ c. c;
  cells = λ nb. nb.0;
  metadata = λ nb. nb.1;
  content_of_new = λ kind d m. refl;
  type_of_new = λ kind d m. refl;
  outputs_of_set = λ os c. refl;
  cells_of_new = λ cs. refl;
  cells_of_set = λ k v nb. refl;
  metadata_of_set = λ k v nb. rw (lookup-insert, key_eq_refl) refl;
}

abbrev repr : String → String
repr s = s

build_notebook-AreViews_example :
    (nb : Notebook) × (viewed : Fields) × (rs : Fields) × (rs' : Fields) × (build_notebook nbformat
        codec repr counter_entries
        ("counter" ∷ [])
      ≡ ok nb)
    × AreViews nbformat reader codec codec-IsLossless repr ("counter" ∷ []) (reader.cells nb)
    × (lookup (name "widgets") (reader.metadata nb)
        ≡ some (dict fresh (field (name state_mimetype) (dict fresh viewed) end)))
    × (lookup (name "state") viewed ≡ some (dict fresh rs'))
    × Recorded counter_entries rs
    × AllEnriched rs rs'
unfolding height max_depth ident_mem lookup key_eq
build_notebook-AreViews_example =
    build_notebook-AreViews nbformat reader codec codec-IsLossless repr counter_entries
      ("counter" ∷ []) (refl, refl, tt)
      (record { tidy = ground arith; shallow = omega arith; acyclic = ground arith }, tt)
