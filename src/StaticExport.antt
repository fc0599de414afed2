-- ===== src/StaticExport.antt =====
-- examples/static-export/build.py: a notebook that shows widgets without a kernel. `nbformat` is a
-- parameter, by the operations that the program calls, and so are the notebook exporter of
-- `nbconvert`, the file that the page is written to, and Python's `repr`.
pub mod Shown
mod Examples
use Prim.Native.String.{◌++◌ as text_append}
use cositos.Base.{String, List, [], ◌∷◌}
use cositos.Value.{pos, Key, name, fresh, Value, int, str, dict, Fields, end, field}
use cositos.Errors.{type_error, Result, ok, err, ◌>>=◌}
use cositos.Protocol.{anywidget_module_version}
use cositos.Serialize.{Base64, ModelEntry, dump_document}
use cositos.Embed.{with_view_identity}
use cositos.Embed.Page.{state_mimetype, view_mimetype}

-- `nbformat.v4`: outputs, cells and notebooks, and what is assigned to them.
pub record NbFormat (Output Cell Notebook : Type 0) : Type 0 where
  pub new_output : String → Fields → Fields → Output
  pub new_code_cell : String → Cell
  pub set_outputs : List Output → Cell → Cell
  pub new_notebook : List Cell → Notebook
  pub set_metadata : Key → Value → Notebook → Notebook

abbrev counter_esm : Value
counter_esm =
    str "export default { render({ model, el }) { el.textContent = 'count = ' + model.get('n'); } }"

-- the value that a view cell shows under the view's type
abbrev pub view_data : String → Value
view_data mid = dict fresh (
    field (name "version_major") (int (pos 2))
      (field (name "version_minor") (int (pos 0)) (field (name "model_id") (str mid) end)))

module _ {Output Cell Notebook : Type 0} (nbformat : NbFormat Output Cell Notebook) (codec : Base64)
    (repr : String → String) where
  -- the data of one output
  abbrev pub output_data : String → Fields
  output_data mid =
      field (name view_mimetype) (view_data mid)
        (field (name "text/plain") (str (text_append "cositos widget " (repr mid))) end)

  -- one turn of the loop over the views
  abbrev pub view_cell : String → Cell
  view_cell mid =
      nbformat.set_outputs (nbformat.new_output "display_data" (output_data mid) end ∷ [])
        (nbformat.new_code_cell "widget")

  -- the loop over the views
  unfoldable pub view_cells : List String → List Cell
  view_cells [] = []
  view_cells (mid ∷ view_ids) = view_cell mid ∷ view_cells view_ids

  -- `inject_widget_state`, with the notebook that it writes to
  unfoldable pub inject_widget_state : Notebook → Fields → Result Notebook
  inject_widget_state nb document = do
    viewed ← with_view_identity document
    ok (
        nbformat.set_metadata (name "widgets")
          (dict fresh (field (name state_mimetype) (dict fresh viewed) end)) nb)

  abbrev inject : Notebook → Value → Result Notebook
  inject nb (dict i document) = inject_widget_state nb document
  inject nb v = err type_error

  unfoldable pub build_notebook : List ModelEntry → List String → Result Notebook
  build_notebook entries view_ids = do
    document ← dump_document codec entries anywidget_module_version
    inject (nbformat.new_notebook (view_cells view_ids)) document

  unfoldable pub build_html :
      (Notebook → Result String) → List ModelEntry → List String → Result String
  build_html from_notebook_node entries view_ids = do
    nb ← build_notebook entries view_ids
    from_notebook_node nb

abbrev pub counter_entries : List ModelEntry
counter_entries =
    ("counter", dict fresh (field (name "_esm") counter_esm (field (name "n") (int (pos 3)) end)))
    ∷ []

-- the main program, with the text that it writes to the file
unfoldable pub page :
    {Output Cell Notebook : Type 0}
    → NbFormat Output Cell Notebook
    → Base64
    → (String → String)
    → (Notebook → Result String)
    → Result String
page nbformat codec repr from_notebook_node =
    build_html nbformat codec repr from_notebook_node counter_entries ("counter" ∷ [])
