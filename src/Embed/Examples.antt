-- ===== src/Embed/Examples.antt =====
-- The theorems on the page at a concrete text and a concrete document.
use cositos.Base.{String, true, [], ◌∷◌, ◌≡◌, refl, some}
use cositos.Value.{pos, name, key_eq, fresh, int, str, dict, Fields, end, field}
use cositos.Value.Dict.{lookup, insert, merge}
use cositos.Errors.{Result, ok, err}
use cositos.Embed.{escape_script, with_view_identity, enriched}
use cositos.Protocol.{view_identity}
use cositos.Embed.Page.{Rendering, embed_html}
use cositos.Embed.Read.{outside, scripts}
use cositos.Embed.Snippet.{HasUrls, found, embed_html-scripts}
use cositos.Embed.Harmless.{IsHarmless, IsAscii, Replaced, escape_script-IsHarmless}
use cositos.Embed.Views.{AllEnriched}
use cositos.Embed.Saved.{write_html-dump_document}
use cositos.Embed.Page.{write_html}
use cositos.Value.{ident_mem}
use cositos.Base.{arith, List, none}
use cositos.Buffers.{max_depth}
use cositos.Buffers.Faults.{height}
use cositos.Serialize.{ModelEntry, dump_document, document_of}
use cositos.Serialize.Complete.{Recorded}
use cositos.Serialize.Strokes.{codec, codec-IsLossless}

escaped : escape_script "a </Script> b <b>" ≡ "a \\u003c/Script> b <b>"
unfolding escape_script
escaped = refl

abbrev hostile : String
hostile = "x <!-- </SCRIPT> <b>"

hostile_escaped : escape_script hostile ≡ "x \\u003c!-- \\u003c/SCRIPT> <b>"
unfolding escape_script
hostile_escaped = refl

escape_script-IsHarmless_example :
    IsHarmless (escape_script hostile)
    × Replaced hostile (escape_script hostile)
    × (IsAscii hostile → IsHarmless hostile → escape_script hostile ≡ hostile)
escape_script-IsHarmless_example = escape_script-IsHarmless hostile

abbrev own_view : Fields
own_view = field (name "value") (int (pos 1)) (field (name "_view_name") (str "Own") end)

abbrev records : Fields
records =
    field (name "a")
      (dict fresh (
        field (name "model_module_version") (str "~0.9.*")
          (field (name "state") (dict fresh own_view) end)))
      (field (name "b") (dict fresh end) end)

abbrev document : Fields
document =
    field (name "version_major") (int (pos 2)) (field (name "state") (dict fresh records) end)

-- A document whose text would end its script element.
abbrev rendering : Rendering
rendering = record {
  dumps = λ v. "{}";
  dumps_indented = λ v. "\"</script><script>\"";
  format = λ template version. template;
}

abbrev fields_of : Result Fields → Fields
fields_of (ok fs) = fs
fields_of (err e) = end

abbrev viewed : Fields
viewed = fields_of (with_view_identity document)

found_views : with_view_identity document ≡ ok viewed
unfolding with_view_identity enriched lookup insert merge key_eq view_identity
found_views = refl

rendering-HasUrls : HasUrls rendering "1"
rendering-HasUrls template h = h

embed_html-scripts_example :
    (page : String) × (embed_html rendering document
        (some (name "a" ∷ []))
        "cositos widgets"
        true
        "1"
      ≡ ok page)
    × (scripts outside page
        ≡ found rendering "1" rendering-HasUrls "\"</script><script>\"" (name "a" ∷ []) true)
embed_html-scripts_example =
    embed_html-scripts rendering "1" rendering-HasUrls document viewed (some (name "a" ∷ []))
      (name "a" ∷ []) "cositos widgets" true refl found_views refl

texts_found :
    found rendering "1" rendering-HasUrls "\"</script><script>\"" (name "a" ∷ []) true
    ≡ "" ∷ "" ∷ "\n\"\\u003c/script>\\u003cscript>\"\n" ∷ "\n{}\n" ∷ []
unfolding escape_script
texts_found = refl

-- Two models, one with a view of its own and a text that would end its element.
abbrev models : List ModelEntry
models =
    ("a", dict (fresh) own_view)
    ∷ ("b", dict fresh (field (name "text") (str "</script>") end))
    ∷ []

abbrev write : String → String → List (String × String) → Result (Unit {0}) × List (String × String)
write path text files = (ok tt, (path, text) ∷ files)

write_html-dump_document_example :
    (rs : Fields) × (viewed_records : Fields) × (page : String) × (dump_document codec models
        "~0.9.*"
      ≡ ok (dict fresh (document_of codec rs)))
    × Recorded models rs
    × AllEnriched rs viewed_records
    × (write_html rendering write "page.html" (document_of codec rs) none "widgets" true "1" []
        ≡ write "page.html" page [])
    × (scripts outside page
        ≡ found rendering "1" rendering-HasUrls "\"</script><script>\""
            (name "a" ∷ name "b" ∷ [])
            true)
unfolding height max_depth ident_mem lookup key_eq
write_html-dump_document_example =
    write_html-dump_document codec codec-IsLossless rendering "1" rendering-HasUrls write models
      "~0.9.*" "page.html" "widgets" true [] refl (refl, refl, (refl, refl, tt))
      (
        record { tidy = ground arith; shallow = omega arith; acyclic = ground arith },
        (record { tidy = ground arith; shallow = omega arith; acyclic = ground arith }, tt),
      )
