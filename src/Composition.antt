-- ===== src/Composition.antt =====
-- examples/composition/build.py: a container that refers to its children, as a document and as a page.
mod Examples
use cositos.Base.{String, true, Option, some, List, [], ◌∷◌}
use cositos.Value.{
  pos, Key, name, list_kind, fresh, Value, null, str, seq, dict, nil, cons, Fields, end, field,
}
use cositos.Errors.{type_error, Result, ok, err, ◌>>=◌}
use cositos.Protocol.{anywidget_module_version}
use cositos.Serialize.{Base64, ModelEntry, dump_document}
use cositos.Embed.Page.{Rendering, embed_html}

abbrev controls_module : Value
controls_module = str "@jupyter-widgets/controls"

abbrev base_module : Value
base_module = str "@jupyter-widgets/base"

abbrev ipywidgets_version : Value
ipywidgets_version = str "2.0.0"

abbrev child_esm : Value
child_esm =
    str
      "export default { render({ model, el }) { el.textContent = 'child: ' + model.get('label'); } }"

abbrev vbox_state : Fields
vbox_state = field (name "_model_name") (str "VBoxModel") (
    field (name "_model_module") controls_module (
      field (name "_model_module_version") ipywidgets_version (
        field (name "_view_name") (str "VBoxView") (
          field (name "_view_module") controls_module (
            field (name "_view_module_version") ipywidgets_version (
              field (name "children")
                (seq list_kind fresh
                  (cons (str "IPY_MODEL_child_a") (cons (str "IPY_MODEL_child_b") nil)))
                (field (name "layout") (str "IPY_MODEL_layout") end)))))))

abbrev layout_state : Fields
layout_state = field (name "_model_name") (str "LayoutModel") (
    field (name "_model_module") base_module (
      field (name "_model_module_version") ipywidgets_version (
        field (name "_view_name") null (
          field (name "_view_module") base_module
            (field (name "_view_module_version") ipywidgets_version end)))))

abbrev child_state : String → Fields
child_state label = field (name "_esm") child_esm (field (name "label") (str label) end)

-- `build_entries`
abbrev pub tree_entries : List ModelEntry
tree_entries =
    ("vbox", dict fresh vbox_state)
    ∷ ("layout", dict fresh layout_state)
    ∷ ("child_a", dict fresh (child_state "one"))
    ∷ ("child_b", dict fresh (child_state "two"))
    ∷ []

-- `build_document`
abbrev pub tree_document : Base64 → Result Value
tree_document codec = dump_document codec tree_entries anywidget_module_version

abbrev fields_in : Value → Result Fields
fields_in (dict i fs) = ok fs
fields_in v = err type_error

-- `build_html`
abbrev tree_html : Base64 → Rendering → Result String
tree_html codec rendering = do
  doc ← tree_document codec
  document ← fields_in doc
  embed_html rendering document (some (name "vbox" ∷ [])) "cositos — composition (VBox)" true "1"
