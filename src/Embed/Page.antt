-- ===== src/Embed/Page.antt =====
-- The page of src/cositos/embed.py, as text: `json.dumps` and the `{v}` of a URL template are
-- parameters, and so is the writing of a file.
use Prim.Native.String.{◌++◌ as text_append}
use cositos.Base.{String, Bool, Option, none, some, List, [], ◌∷◌, if◌then◌else◌}
use cositos.Value.{pos, Key, name, fresh, Value, int, dict, Fields, end, field}
use cositos.Value.Dict.{keys}
use cositos.Errors.{type_error, Result, ok, err, ◌>>=◌}
use cositos.Protocol.{get_or, empty_dict, key_value}
use cositos.Embed.{escape_script, with_view_identity}

-- They are taken to return: a document is JSON. `json.dumps(v)` and `json.dumps(v, indent=2)`, and `template.format(v=version)`.
pub record Rendering : Type 0 where
  pub dumps : Value → String
  pub dumps_indented : Value → String
  pub format : String → String → String

-- pieces of text, one after the other
abbrev pub concat : List String → String
concat [] = ""
concat (s ∷ ss) = text_append s (concat ss)

abbrev pub state_mimetype : String
state_mimetype = "application/vnd.jupyter.widget-state+json"

abbrev pub view_mimetype : String
view_mimetype = "application/vnd.jupyter.widget-view+json"

abbrev pub requirejs_url : String
requirejs_url = "https://cdnjs.cloudflare.com/ajax/libs/require.js/2.3.4/require.min.js"

abbrev pub embed_amd_url : String
embed_amd_url = "https://cdn.jsdelivr.net/npm/@jupyter-widgets/html-manager@{v}/dist/embed-amd.js"

abbrev pub embed_url : String
embed_url = "https://cdn.jsdelivr.net/npm/@jupyter-widgets/html-manager@{v}/dist/embed.js"

abbrev pub model_keys : Value → Result (List Key)
model_keys (dict i fs) = ok (keys fs)
model_keys v = err type_error

-- the write of a text that may not have been made; `write path text` is `Path(path).write_text(text)`
abbrev pub written :
    {W : Type 0}
    → (String → String → W → Result (Unit {0}) × W)
    → String
    → Result String
    → W
    → Result (Unit {0}) × W
written write path (ok text) w = write path text w
written write path (err e) w = (err e, w)

module _ (r : Rendering) where
  -- `_loader`
  abbrev pub loader : Bool → String → String
  loader requirejs version =
      let script = concat (
        "<script src=\""
        ∷ r.format (if requirejs then embed_amd_url else embed_url) version
        ∷ "\" crossorigin=\"anonymous\"></script>"
        ∷ []) in
      if requirejs
      then concat (
          "<script src=\"" ∷ requirejs_url ∷ "\" crossorigin=\"anonymous\"></script>\n" ∷ script
          ∷ [])
      else script

  -- the value of a view block
  abbrev pub view_value : Key → Value
  view_value mid = dict fresh (
      field (name "version_major") (int (pos 2))
        (field (name "version_minor") (int (pos 0)) (field (name "model_id") (key_value mid) end)))

  abbrev pub view_block : Key → String
  view_block mid = concat (
      "<script type=\""
      ∷ view_mimetype
      ∷ "\">\n"
      ∷ escape_script (r.dumps (view_value mid))
      ∷ "\n</script>"
      ∷ [])

  -- `"\n".join(...)` over the views
  abbrev pub view_blocks : List Key → String
  view_blocks [] = ""
  view_blocks (mid ∷ []) = view_block mid
  view_blocks (mid ∷ mids) = concat (view_block mid ∷ "\n" ∷ view_blocks mids ∷ [])

  -- `embed_snippet`
  abbrev pub embed_snippet : Fields → Option (List Key) → Bool → String → Result String
  embed_snippet document views requirejs version = do
    viewed ← with_view_identity document
    mids ← elim views [
      | some mids ↦ ok mids
      | none ↦ model_keys (get_or viewed (name "state") empty_dict)
    ]
    ok (
        concat (
          loader requirejs version
          ∷ "\n<script type=\""
          ∷ state_mimetype
          ∷ "\">\n"
          ∷ escape_script (r.dumps_indented (dict fresh viewed))
          ∷ "\n</script>\n"
          ∷ view_blocks mids
          ∷ "\n"
          ∷ []))

  -- `embed_html`
  abbrev pub embed_html : Fields → Option (List Key) → String → Bool → String → Result String
  embed_html document views title requirejs version = do
    snippet ← embed_snippet document views requirejs version
    ok (
        concat (
          "<!DOCTYPE html>\n<html lang=\"en\">\n<head>\n" ∷ "    <meta charset=\"UTF-8\">\n"
          ∷ "    <title>" ∷ title ∷ "</title>\n" ∷ "</head>\n<body>\n" ∷ snippet
          ∷ "</body>\n</html>\n" ∷ []))

  -- `write_html`
  unfoldable pub write_html :
      {W : Type 0}
      → (String → String → W → Result (Unit {0}) × W)
      → String
      → Fields
      → Option (List Key)
      → String
      → Bool
      → String
      → W
      → Result (Unit {0}) × W
  write_html write path document views title requirejs version w =
      written write path (embed_html document views title requirejs version) w
