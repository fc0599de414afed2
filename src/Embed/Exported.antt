-- ===== src/Embed/Exported.antt =====
-- The documents that the program makes are among those that `with_view_identity` takes.
use cositos.Base.{◌≡◌, refl, sym, ap, ◌∙◌, String, Bool-cases, inl, inr, List, [], ◌∷◌}
use mathlib.Core.Path.{subst}
use cositos.Value.{Ident, fresh, Value, bytes, dict, Fields, end, field}
use cositos.Value.Dict.{append, Distinct}
use cositos.Errors.{ok}
use cositos.Buffers.Strip.{strip, strip_fields, holds_fields}
use cositos.Buffers.RoundTrip.Dicts.{absent-strip}
use cositos.Serialize.{Base64, ModelEntry, dump_document, document_of}
use cositos.Serialize.RoundTrip.{IsLossless}
use cositos.Serialize.Documents.{IsValid, IsSavable, AllSavable, Unused-end}
use cositos.Serialize.References.Resolved.{state_of}
use cositos.Serialize.Complete.{Recorded, dump_entries-Recorded}
use cositos.Embed.Views.{AreRenderable}

strip_fields-Distinct : (fs : Fields) → Distinct fs → Distinct (strip_fields fs)
unfolding strip_fields
strip_fields-Distinct end d = tt
strip_fields-Distinct (field k (bytes b) fs) d = strip_fields-Distinct fs d.1
strip_fields-Distinct (field k _ fs) d = (absent-strip k fs d.0, strip_fields-Distinct fs d.1)

-- A dict with distinct keys.
abbrev IsTidyDict : Value → Type 0
IsTidyDict v = (j : Ident) × (gs : Fields) × (v ≡ dict j gs) × Distinct gs

strip-IsTidyDict : (i : Ident) (fs : Fields) → Distinct fs → IsTidyDict (strip (dict i fs))
unfolding strip
strip-IsTidyDict i fs d = elim (Bool-cases (holds_fields fs)) [
  | inl h ↦ rw h (fresh, strip_fields fs, refl, strip_fields-Distinct fs d)
  | inr h ↦ rw h (i, fs, refl, d)
]

savable-IsTidyDict : (v : Value) → IsSavable v → IsTidyDict (strip v)
savable-IsTidyDict (dict i fs) h = strip-IsTidyDict i fs h.tidy.0
savable-IsTidyDict _ h = elim h [ ]

Recorded-AreRenderable :
    (es : List ModelEntry) (gs : Fields) → AllSavable es → Recorded es gs → AreRenderable gs
Recorded-AreRenderable [] end savable h = tt
Recorded-AreRenderable [] (field k r gs) savable h = elim h [ ]
Recorded-AreRenderable ((a, v) ∷ es) end savable h = elim h [ ]
Recorded-AreRenderable ((a, v) ∷ es) (field k r gs) savable (e, (i, fs, d, kept), h) =
    let (j, state, stripped, distinct) = savable-IsTidyDict v savable.0 in
    subst (λ q. AreRenderable (field k q gs)) (sym d)
      (
        (j, state, ap state_of (sym d) ∙ kept ∙ stripped, distinct),
        Recorded-AreRenderable es gs savable.1 h,
      )

module _ (codec : Base64) (lossless : IsLossless codec) (version : String) where
  -- The document of valid models has a record for each, and can be rendered.
  pub dump_document-AreRenderable :
      (es : List ModelEntry)
      → IsValid es
      → AllSavable es
      → (rs : Fields) × (dump_document codec es version ≡ ok (dict fresh (document_of codec rs)))
        × Recorded es rs
        × AreRenderable rs
  unfolding dump_document append
  dump_document-AreRenderable es valid savable =
      let (rs, dumps, recorded) =
        dump_entries-Recorded codec lossless version es end valid savable (Unused-end es) in
      (rs, rw dumps refl, recorded, Recorded-AreRenderable es rs savable recorded)
