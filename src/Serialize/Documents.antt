-- ===== src/Serialize/Documents.antt =====
-- Documents of several models: which the program makes, and what it loads of them.
use text.Mathlib.Text.{◌==◌}
use cositos.Base.{
  ◌≡◌, refl, ap, Bool, false, ◌||◌, ◌↔◌, Option, none, some, List, [], ◌∷◌, String, arith,
  Bool-cases, inl, inr,
}
use cositos.Value.{
  Key, name, key_eq, fresh, Value, null, bool, int, str, opaque, bytes, seq, dict, Fields, end,
  field,
}
use cositos.Value.Keys.{int_eq}
use cositos.Value.Dict.{
  lookup, insert, insert_new, append, append_one, lookup-insert, lookup-append_one, append-end,
}
use cositos.Value.View.{Same}
use cositos.Errors.{Result, ok, err, ◌>>=◌}
use cositos.Buffers.Accepts.{IsAccepted}
use cositos.Serialize.{
  Base64, ModelEntry, check_id, document_of, dump_model, load_model, dump_entries, dump_document,
  load_records, load_document,
}
use cositos.Serialize.RoundTrip.{IsLossless, load_model-dump_model}

abbrev pub id_in : String → List ModelEntry → Bool
id_in a [] = false
id_in a ((b, v) ∷ es) = (a == b) || id_in a es

-- No id is empty, and none stands twice.
abbrev pub IsValid : List ModelEntry → Type 0
IsValid [] = Unit
IsValid ((model_id, v) ∷ es) = (model_id == "" ≡ false) × (id_in model_id es ≡ false) × IsValid es

-- A state that can be saved: a dict that `remove_buffers` takes.
abbrev pub IsSavable : Value → Type 0
IsSavable (dict i fs) = IsAccepted (dict i fs)
IsSavable v = ⊥

abbrev pub AllSavable : List ModelEntry → Type 0
AllSavable [] = Unit
AllSavable ((model_id, v) ∷ es) = IsSavable v × AllSavable es

-- The same ids in the same order, with states that say the same.
abbrev pub Loaded : List ModelEntry → List (Key × Value) → Type 0
Loaded [] [] = Unit
Loaded ((model_id, v) ∷ es) ((k, w) ∷ ms) = (k ≡ name model_id) × Same v w × Loaded es ms
Loaded es ms = ⊥

-- None of the ids has a record yet.
abbrev pub Unused : Fields → List ModelEntry → Type 0
Unused state [] = Unit
Unused state ((model_id, v) ∷ es) = (lookup (name model_id) state ≡ none) × Unused state es

pub Unused-end : (es : List ModelEntry) → Unused end es
unfolding lookup
Unused-end [] = tt
Unused-end ((model_id, v) ∷ es) = (refl, Unused-end es)

pub Unused-append_one :
    (state : Fields) (a : String) (r : Value) (es : List ModelEntry)
    → id_in a es ≡ false
    → Unused state es
    → Unused (append state (field (name a) r end)) es
unfolding key_eq
Unused-append_one state a r [] n u = tt
Unused-append_one state a r ((b, v) ∷ es) n u = (
  lookup-append_one (name b) state (name a) r (ground (arith, n)) u.0,
  Unused-append_one state a r es (ground (arith, n)) u.1,
)

module _ (codec : Base64) (lossless : IsLossless codec) (version : String) where
  -- one entry: its record is made, and loads
  pub saved :
      (v : Value)
      → IsSavable v
      → (r : Value) × (w : Value) × (dump_model codec v version ≡ ok r)
        × (load_model codec r ≡ ok w)
        × Same v w
  saved (dict i fs) h = load_model-dump_model codec lossless i fs version h
  saved (seq s i xs) h = elim h [ ]
  saved null h = elim h [ ]
  saved (bool b) h = elim h [ ]
  saved (int z) h = elim h [ ]
  saved (str s) h = elim h [ ]
  saved (opaque n) h = elim h [ ]
  saved (bytes b) h = elim h [ ]

  abbrev Dumped : List ModelEntry → Fields → Fields → List (Key × Value) → Type 0
  Dumped es state gs ms =
      (dump_entries codec es version state ≡ ok (append state gs))
      × (load_records codec gs ≡ ok ms)
      × Loaded es ms

  dump_entries-Loaded :
      (es : List ModelEntry) (state : Fields)
      → IsValid es
      → AllSavable es
      → Unused state es
      → (gs : Fields) × (ms : List (Key × Value)) × Dumped es state gs ms
  unfolding dump_entries load_records
  dump_entries-Loaded [] state valid savable u = (end, [], (rw append-end refl, refl, tt))
  dump_entries-Loaded ((a, v) ∷ es) state valid savable u =
      let (r, w, dumps, loads, same) = saved v savable.0 in
      let (gs, ms, (rest, loaded, corresponds)) =
        dump_entries-Loaded es (append state (field (name a) r end)) valid.2 savable.1
          (Unused-append_one state a r es valid.1 u.1) in
      (
        field (name a) r gs,
        (name a, w) ∷ ms,
        (
          rw (dumps, u.0, valid.0, insert_new (name a) r state u.0, rest)
              (ap ok (append_one state (name a) r gs)),
          rw (loads, loaded) refl,
          (refl, same, corresponds),
        ),
      )

  -- Dumping models with distinct ids that are not empty, whose states are accepted dicts, raises
  -- nothing, and neither does loading the document: the same ids come back in the same order, with
  -- states that say the same.
  pub load_document-dump_document :
      (es : List ModelEntry)
      → IsValid es
      → AllSavable es
      → (doc : Fields) × (ms : List (Key × Value)) × (dump_document codec es version
          ≡ ok (dict fresh doc))
        × (load_document codec doc ≡ ok ms)
        × Loaded es ms
  unfolding dump_document load_document lookup key_eq int_eq append
  load_document-dump_document es valid savable =
      let (gs, ms, (dumps, loads, corresponds)) =
        dump_entries-Loaded es end valid savable (Unused-end es) in
      (document_of codec gs, ms, rw dumps refl, loads, corresponds)

  -- What is unused after one more record was unused before, and has another id.
  Unused-insert :
      (state : Fields) (a : String) (r : Value) (es : List ModelEntry)
      → Unused (insert (name a) r state) es
      → (id_in a es ≡ false) × Unused state es
  unfolding key_eq
  Unused-insert state a r [] u = (refl, tt)
  Unused-insert state a r ((b, v) ∷ es) u =
      let (n, rest) = Unused-insert state a r es u.1 in
      ground (arith, n, rest, u.0, lookup-insert (name a) (name b) r state)

  -- What the first turn of the loop has done, if the loop returns.
  first_turn :
      (a : String) (es : List ModelEntry) (state out : Fields) (dumped : Result Value)
      (other : Option Value)
      → (do
        r ← dumped
        u ← check_id codec a other
        dump_entries codec es version (insert (name a) r state))
        ≡ ok out
      → (r : Value) × (other ≡ none)
        × (a == "" ≡ false)
        × (dump_entries codec es version (insert (name a) r state) ≡ ok out)
  first_turn a es state out (err e) other h = cc h
  first_turn a es state out (ok r) (some x) h = cc h
  first_turn a es state out (ok r) none h = elim (Bool-cases (a == "")) [
    | inl none_given ↦ cc (rw none_given at h)
    | inr given ↦ (r, refl, given, rw given at h)
  ]

  entries-IsValid :
      (es : List ModelEntry) (state out : Fields)
      → dump_entries codec es version state ≡ ok out
      → IsValid es × Unused state es
  unfolding dump_entries
  entries-IsValid [] state out h = (tt, tt)
  entries-IsValid ((a, v) ∷ es) state out h =
      let (r, new, given, rest) = first_turn a es state out (dump_model codec v version) _ h in
      let (valid, unused) = entries-IsValid es (insert (name a) r state) out rest in
      let (apart, before) = Unused-insert state a r es unused in
      ((given, apart, valid), (new, before))

  returned :
      (es : List ModelEntry) (o : Result Fields)
      → dump_entries codec es version end ≡ o
      → (doc : Value) → (do state ← o; ok (dict fresh (document_of codec state))) ≡ ok doc
      → IsValid es
  returned es (ok out) e doc h = (entries-IsValid es end out e).0
  returned es (err x) e doc h = cc h

  -- Of models whose states can be saved, `dump_document` returns a document just if no id is empty
  -- and none stands twice; otherwise it raises.
  pub dump_document-ok_iff :
      (es : List ModelEntry)
      → AllSavable es
      → ((doc : Value) × (dump_document codec es version ≡ ok doc)) ↔ IsValid es
  unfolding dump_document
  dump_document-ok_iff es savable = (
    λ (doc, h). returned es (dump_entries codec es version end) refl doc h,
    λ valid.
        let (doc, ms, dumps, loads, same) = load_document-dump_document es valid savable in
        (dict fresh doc, unfold dump_document in dumps),
  )
