-- ===== src/Embed/Snippet.antt =====
-- The script elements that a reader finds in what `embed_snippet` returns.
use Prim.Native.String.{◌++◌ as text_append}
use text.Mathlib.TextLemmas.{nil-append, append_assoc}
use cositos.Base.{
  append-nil, String, ◌≡◌, refl, ap, ◌∙◌, Bool, true, false, Option, none, some, List, [], ◌∷◌,
  ◌++◌, if◌then◌else◌,
}
use cositos.Value.{Key, name, fresh, dict, Fields}
use cositos.Errors.{Result, ok}
use cositos.Protocol.{get_or, empty_dict}
use cositos.Embed.{escape_script, with_view_identity}
use cositos.Embed.Escape.{IsUnmatched, escape_script-IsUnmatched}
use cositos.Embed.Page.{
  Rendering, concat, state_mimetype, view_mimetype, requirejs_url, embed_amd_url, embed_url,
  model_keys, loader, view_value, view_block, view_blocks, embed_html,
}
use cositos.Embed.Read.{outside, scripts, has_no, skip_outside, unrolled, shown, block}
use cositos.Embed.Elements.{all_onto, concat-append, sourced, sourced_line, after_newline}

-- A URL that is made of a template without `>` and this version has no `>`.
abbrev pub HasUrls : Rendering → String → Type 0
HasUrls r version =
    (template : String) → has_no 62 template ≡ true → has_no 62 (r.format template version) ≡ true

-- The elements of the loader, which have no text.
abbrev pub loaders : Bool → List String
loaders requirejs = if requirejs then "" ∷ "" ∷ [] else "" ∷ []

module _ (r : Rendering) (version : String) (urls : HasUrls r version) where
  one_script :
      (url s : String)
      → has_no 62 url ≡ true
      → scripts outside (
          text_append
            (concat ("<script src=\"" ∷ url ∷ "\" crossorigin=\"anonymous\"></script>" ∷ []))
            s)
        ≡ "" ∷ scripts outside s
  one_script url s h =
      ap (scripts outside)
        (concat-append ("<script src=\"" ∷ url ∷ "\" crossorigin=\"anonymous\"></script>" ∷ []) s)
      ∙ sourced url s h

  loader-scripts :
      (requirejs : Bool) (s : String)
      → scripts outside (text_append (loader r requirejs version) s)
        ≡ loaders requirejs ++ scripts outside s
  loader-scripts false s = one_script (r.format embed_url version) s (urls embed_url refl)
  loader-scripts true s =
      let url = r.format embed_amd_url version in
      let inner = concat ("<script src=\"" ∷ url ∷ "\" crossorigin=\"anonymous\"></script>" ∷ []) in
      ap (scripts outside) (
        concat-append
          ("<script src=\"" ∷ requirejs_url ∷ "\" crossorigin=\"anonymous\"></script>\n" ∷ inner
            ∷ [])
          s)
      ∙ sourced_line requirejs_url (text_append inner s) refl
      ∙ ap (λ ts. "" ∷ ts) (one_script url s (urls embed_amd_url refl))

  -- what a reader finds of a view, and of the document
  abbrev pub view_text : Key → String
  view_text mid = shown (escape_script (r.dumps (view_value r mid)))

  view_block-scripts :
      (mid : Key) (s : String)
      → scripts outside (text_append (view_block r mid) s) ≡ view_text mid ∷ scripts outside s
  view_block-scripts mid s =
      let t = escape_script (r.dumps (view_value r mid)) in
      ap (scripts outside)
        (concat-append ("<script type=\"" ∷ view_mimetype ∷ "\">\n" ∷ t ∷ "\n</script>" ∷ []) s)
      ∙ block view_mimetype t s refl (escape_script-IsUnmatched _).0

  abbrev pub view_texts : List Key → List String
  view_texts [] = []
  view_texts (mid ∷ mids) = view_text mid ∷ view_texts mids

  view_blocks-scripts :
      (mids : List Key) (s : String)
      → scripts outside (text_append (view_blocks r mids) s) ≡ view_texts mids ++ scripts outside s
  view_blocks-scripts [] s = rw nil-append refl
  view_blocks-scripts (mid ∷ []) s = view_block-scripts mid s
  view_blocks-scripts (mid ∷ mid' ∷ mids) s =
      let later = view_blocks r (mid' ∷ mids) in
      ap (scripts outside) (concat-append (view_block r mid ∷ "\n" ∷ later ∷ []) s)
      ∙ view_block-scripts mid (text_append "\n" (text_append later s))
      ∙ ap (λ ts. view_text mid ∷ ts)
          (after_newline (text_append later s) ∙ view_blocks-scripts (mid' ∷ mids) s)

  -- The snippet's parts, behind the loader.
  abbrev parts : String → List Key → List String
  parts t mids =
      "\n<script type=\""
      ∷ state_mimetype
      ∷ "\">\n"
      ∷ t
      ∷ "\n</script>\n"
      ∷ view_blocks r mids
      ∷ "\n"
      ∷ []

  parts-scripts :
      (t : String) (mids : List Key) (s : String)
      → IsUnmatched t
      → scripts outside (all_onto (parts t mids) s)
        ≡ shown t ∷ (view_texts mids ++ scripts outside s)
  parts-scripts t mids s h =
      let views = text_append (view_blocks r mids) (text_append "\n" s) in
      let element = λ (z : String).
        text_append "<script type=\""
          (text_append state_mimetype (text_append "\">\n" (text_append t z))) in
      ap (scripts outside) (
        append_assoc "\n" "<script type=\"" (
          text_append state_mimetype
            (text_append "\">\n" (text_append t (text_append "\n</script>\n" views)))))
      ∙ after_newline (element (text_append "\n</script>\n" views))
      ∙ ap (λ z. scripts outside (element z)) (append_assoc "\n</script>" "\n" views)
      ∙ block state_mimetype t (text_append "\n" views) refl h
      ∙ ap (λ ts. shown t ∷ ts)
          (after_newline views
            ∙ view_blocks-scripts mids (text_append "\n" s)
            ∙ ap (λ ts. view_texts mids ++ ts) (after_newline s))

  -- what a reader finds in a page, where `document` is the text of the document
  abbrev pub found : String → List Key → Bool → List String
  found document mids requirejs =
      loaders requirejs ++ (shown (escape_script document) ∷ view_texts mids)

  snippet-scripts :
      (document : String) (mids : List Key) (requirejs : Bool) (s : String)
      → scripts outside s ≡ []
      → scripts outside (
          text_append (concat (loader r requirejs version ∷ parts (escape_script document) mids)) s)
        ≡ found document mids requirejs
  snippet-scripts document mids requirejs s e =
      let t = escape_script document in
      ap (scripts outside) (concat-append (loader r requirejs version ∷ parts t mids) s)
      ∙ loader-scripts requirejs (all_onto (parts t mids) s)
      ∙ ap (λ ts. loaders requirejs ++ ts)
          (parts-scripts t mids s (escape_script-IsUnmatched document).0
            ∙ rw e (ap (λ ts. shown t ∷ ts) (append-nil (view_texts mids))))

  -- the views that are asked for, or else all models
  abbrev pub chosen : Option (List Key) → Fields → Result (List Key)
  chosen views viewed = elim views [
    | some mids ↦ ok mids
    | none ↦ model_keys (get_or viewed (name "state") empty_dict)
  ]

  abbrev head_parts : String → List String
  head_parts title =
      "<!DOCTYPE html>\n<html lang=\"en\">\n<head>\n" ∷ "    <meta charset=\"UTF-8\">\n"
      ∷ "    <title>" ∷ title ∷ "</title>\n" ∷ "</head>\n<body>\n" ∷ []

  head :
      (title s : String)
      → has_no 60 title ≡ true
      → scripts outside (all_onto (head_parts title) s) ≡ scripts outside s
  unfolding scripts
  head title s h =
      let rest = text_append "</title>\n" (text_append "</head>\n<body>\n" s) in
      rw
        (
          unrolled "<!DOCTYPE html>\n<html lang=\"en\">\n<head>\n",
          unrolled "    <meta charset=\"UTF-8\">\n",
          unrolled "    <title>",
        )
        (skip_outside title rest h ∙ rw (unrolled "</title>\n", unrolled "</head>\n<body>\n") refl)

  -- If the version puts no `>` into a URL and the title has no `<`: a reader of the page that `embed_html`
  -- returns finds, behind the loader's elements, which have no text, one element with the escaped
  -- document and one with each view, in order, and no other, whatever the document holds.
  pub embed_html-scripts :
      (document viewed : Fields) (views : Option (List Key)) (mids : List Key) (title : String)
      (requirejs : Bool)
      → has_no 60 title ≡ true
      → with_view_identity document ≡ ok viewed
      → chosen views viewed ≡ ok mids
      → (page : String) × (embed_html r document views title requirejs version ≡ ok page)
        × (scripts outside page ≡ found (r.dumps_indented (dict fresh viewed)) mids requirejs)
  unfolding scripts
  embed_html-scripts document viewed views mids title requirejs h e f =
      let text = r.dumps_indented (dict fresh viewed) in
      let snippet = concat (loader r requirejs version ∷ parts (escape_script text) mids) in
      (
        concat (head_parts title ++ (snippet ∷ "</body>\n</html>\n" ∷ [])),
        rw (e, f) refl,
        head title (text_append snippet "</body>\n</html>\n") h
            ∙ snippet-scripts text mids requirejs "</body>\n</html>\n" refl,
      )
