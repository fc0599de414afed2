-- ===== src/Embed/Saved.antt =====
-- The page of models that the program itself has saved.
use cositos.Base.{◌≡◌, refl, ap, ◌∙◌, String, Bool, true, none, List, [], ◌∷◌}
use cositos.Value.{Key, name, key_eq, fresh, dict, Fields, end, field}
use cositos.Value.Dict.{lookup, insert, keys}
use cositos.Errors.{Result, ok}
use cositos.Serialize.{Base64, ModelEntry, dump_document, document_of}
use cositos.Serialize.RoundTrip.{IsLossless}
use cositos.Serialize.Documents.{IsValid, AllSavable}
use cositos.Serialize.Complete.{Recorded}
use cositos.Protocol.{get_or, empty_dict}
use cositos.Embed.{with_view_identity, enriched}
use cositos.Embed.Page.{Rendering, model_keys, written, write_html}
use cositos.Embed.Read.{outside, scripts, has_no}
use cositos.Embed.Views.{AllEnriched, all_enriched}
use cositos.Embed.Exported.{dump_document-AreRenderable}
use cositos.Embed.Snippet.{HasUrls, found, embed_html-scripts}

-- the ids of models, as keys
abbrev pub ids_of : List ModelEntry → List Key
ids_of [] = []
ids_of ((model_id, v) ∷ es) = name model_id ∷ ids_of es

keys-AllEnriched : (rs rs' : Fields) → AllEnriched rs rs' → keys rs' ≡ keys rs
unfolding keys
keys-AllEnriched end end h = refl
keys-AllEnriched (field k (dict i fs) rs) (field j (dict _ gs) rs') (e, h, hs) =
    cc (e, keys-AllEnriched rs rs' hs)
keys-AllEnriched _ _ h = elim h [ ]

keys-Recorded : (es : List ModelEntry) (rs : Fields) → Recorded es rs → keys rs ≡ ids_of es
unfolding keys
keys-Recorded [] end h = refl
keys-Recorded ((a, v) ∷ es) (field k r rs) (e, d, h) = cc (e, keys-Recorded es rs h)
keys-Recorded _ _ h = elim h [ ]

module _ (codec : Base64) (lossless : IsLossless codec) (r : Rendering) (manager : String)
    (urls : HasUrls r manager) {W : Type 0}
    (write : String → String → W → Result (Unit {0}) × W) where
  viewed_document :
      (rs viewed : Fields)
      → enriched rs ≡ ok viewed
      → with_view_identity (document_of codec rs) ≡ ok (document_of codec viewed)
  unfolding with_view_identity lookup insert key_eq
  viewed_document rs viewed e = rw e refl

  viewed_ids :
      (viewed : Fields)
      → model_keys (get_or (document_of codec viewed) (name "state") empty_dict) ≡ ok (keys viewed)
  unfolding lookup key_eq
  viewed_ids viewed = refl

  -- If the version of the manager puts no `>` into a URL, the title has no `<` and base64 is lossless: of models
  -- with distinct ids that are not empty, whose states are accepted dicts, the document is made and
  -- `write_html` of it writes one page, with whatever outcome the write has. A reader of the page
  -- finds, behind the loader's elements, which have no text, one element with the document, which has
  -- each model's record with the view identity behind what the host has set, and one that shows each
  -- model, in order, and no other.
  pub write_html-dump_document :
      (es : List ModelEntry) (version path title : String) (requirejs : Bool) (w : W)
      → has_no 60 title ≡ true
      → IsValid es
      → AllSavable es
      → (rs : Fields) × (viewed : Fields) × (page : String) × (dump_document codec es version
          ≡ ok (dict fresh (document_of codec rs)))
        × Recorded es rs
        × AllEnriched rs viewed
        × (write_html r write path (document_of codec rs) none title requirejs manager w
            ≡ write path page w)
        × (scripts outside page
            ≡ found r manager urls
                (r.dumps_indented (dict fresh (document_of codec viewed)))
                (ids_of es)
                requirejs)
  unfolding write_html
  write_html-dump_document es version path title requirejs w h valid savable =
      let (rs, dumps, recorded, renderable) =
        dump_document-AreRenderable codec lossless version es valid savable in
      let (viewed, copies, right) = all_enriched rs renderable in
      let (page, embeds, reads) =
        embed_html-scripts r manager urls (document_of codec rs) (document_of codec viewed) none
          (ids_of es) title requirejs h (viewed_document rs viewed copies)
          (viewed_ids viewed
            ∙ ap ok (keys-AllEnriched rs viewed right ∙ keys-Recorded es rs recorded)) in
      (
        rs,
        viewed,
        page,
        dumps,
        recorded,
        right,
        ap (λ text. written write path text w) embeds,
        reads,
      )
