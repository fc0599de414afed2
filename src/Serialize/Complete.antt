-- ===== src/Serialize/Complete.antt =====
-- Whether the document of some models passes `check_references`, told from the models.
use mathlib.Core.Path.{subst}
use text.Mathlib.Text.{◌==◌}
use text.Mathlib.TextEquality.{eq_iff}
use cositos.Base.{
  String, ◌≡◌, ◌≢◌, refl, sym, ap, ◌↔◌, true, Bool-cases, inl, inr, none, List, [], ◌∷◌, ◌++◌,
  arith,
}
use cositos.Value.{
  Ident, name, key_eq, fresh, Value, null, bool, int, str, opaque, bytes, seq, dict, Items, nil,
  cons, Fields, end, field,
}
use cositos.Value.Dict.{lookup, insert, append, append_one, append-end, insert_new}
use cositos.Errors.{Result, ok, err, ◌>>=◌}
use cositos.Buffers.Strip.{strip, strip_items, strip_fields, holds_items, holds_fields}
use cositos.Buffers.Removed.{split_of}
use cositos.Buffers.Accepts.{IsAccepted, remove_buffers-IsAccepted}
use cositos.Serialize.{
  Base64, ModelEntry, with_buffers, dump_model, dump_entries, dump_document, document_of,
}
use cositos.Serialize.RoundTrip.{IsLossless}
use cositos.Serialize.Documents.{
  IsValid, IsSavable, AllSavable, id_in, saved, Unused, Unused-end, Unused-append_one,
}
use cositos.Serialize.References.{referenced_ids, item_ids, field_ids, check_references}
use cositos.Serialize.References.Resolved.{
  RefersTo, In, In-referenced_ids, both_ways, state_of, AreRecords, Resolved,
  check_references-ok_iff,
}

appended : {rs rs' ss ss' : List String} → rs ≡ rs' → ss ≡ ss' → rs ++ ss ≡ rs' ++ ss'
appended p q = cc (p, q)

-- What is taken out of a state refers to nothing.
mutual
  unfolding strip referenced_ids

  referenced_ids-strip : (v : Value) → referenced_ids (strip v) ≡ referenced_ids v
  referenced_ids-strip (seq k i xs) = elim (Bool-cases (holds_items xs)) [
    | inl h ↦ rw h (item_ids-strip xs)
    | inr h ↦ rw h refl
  ]
  referenced_ids-strip (dict i fs) = elim (Bool-cases (holds_fields fs)) [
    | inl h ↦ rw h (field_ids-strip fs)
    | inr h ↦ rw h refl
  ]
  referenced_ids-strip null = refl
  referenced_ids-strip (bool b) = refl
  referenced_ids-strip (int z) = refl
  referenced_ids-strip (str s) = refl
  referenced_ids-strip (opaque n) = refl
  referenced_ids-strip (bytes b) = refl

  item_ids-strip : (xs : Items) → item_ids (strip_items xs) ≡ item_ids xs
  item_ids-strip nil = refl
  item_ids-strip (cons (bytes b) xs) = item_ids-strip xs
  item_ids-strip (cons x xs) = appended (referenced_ids-strip x) (item_ids-strip xs)

  field_ids-strip : (fs : Fields) → field_ids (strip_fields fs) ≡ field_ids fs
  field_ids-strip end = refl
  field_ids-strip (field k (bytes b) fs) = field_ids-strip fs
  field_ids-strip (field k v fs) = appended (referenced_ids-strip v) (field_ids-strip fs)

RefersTo-strip : (rid : String) (v : Value) → RefersTo rid (strip v) ↔ RefersTo rid v
RefersTo-strip rid v =
    both_ways (swap (In-referenced_ids rid (strip v)))
      (both_ways (same (referenced_ids-strip v)) (In-referenced_ids rid v))
  where
    swap : {P Q : Type 0} → P ↔ Q → Q ↔ P
    swap f = (f.1, f.0)

    same : {rs ss : List String} → rs ≡ ss → In rid rs ↔ In rid ss
    same e = (subst (In rid) e, subst (In rid) (sym e))

-- A record that holds the state `v`.
abbrev pub HoldsState : Value → Value → Type 0
HoldsState v r = (i : Ident) × (fs : Fields) × (r ≡ dict i fs) × (state_of r ≡ v)

abbrev record_fields : Value → Value → Value → Value → Fields
record_fields model_name model_module model_version state = field (name "model_name") model_name (
    field (name "model_module") model_module
      (field (name "model_module_version") model_version (field (name "state") state end)))

of_entries :
    (q : Result Items) (f : Items → Value) (state r : Value)
    → ((entries : Items) → HoldsState state (f entries))
    → (q >>= λ entries. ok (f entries)) ≡ ok r
    → HoldsState state r
of_entries (ok entries) f state r all e = subst (HoldsState state) (inner_path e) (all entries)
  where
    inner_path : {v w : Value} → ok v ≡ ok w → v ≡ w
    inner_path p = cc p
of_entries (err x) f state r all e = cc e

module _ (codec : Base64) (version : String) where
  state_kept :
      (n m k state : Value) (entries : Items)
      → HoldsState state (dict fresh (with_buffers codec entries (record_fields n m k state)))
  unfolding lookup insert key_eq
  state_kept n m k state nil = (fresh, _, refl, refl)
  state_kept n m k state (cons x xs) = (fresh, _, refl, refl)

  dumped :
      (i : Ident) (fs : Fields) (r : Value)
      → IsAccepted (dict i fs)
      → dump_model codec (dict i fs) version ≡ ok r
      → HoldsState (strip (dict i fs)) r
  unfolding dump_model split_of
  dumped i fs r h e =
      of_entries _ _ (strip (dict i fs)) r (λ entries. state_kept _ _ _ (strip (dict i fs)) entries)
        (rw (remove_buffers-IsAccepted (dict i fs) h) at e)

-- The records of a document, beside the models that they were made of.
abbrev pub Recorded : List ModelEntry → Fields → Type 0
Recorded [] end = Unit
Recorded ((a, v) ∷ es) (field k r gs) = (k ≡ name a) × HoldsState (strip v) r × Recorded es gs
Recorded es gs = ⊥

-- Each model that the models `es` refer to is one of `all`.
abbrev pub AllResolved : List ModelEntry → List ModelEntry → Type 0
AllResolved all [] = Unit
AllResolved all ((a, v) ∷ es) =
    ((rid : String) → RefersTo rid v → id_in rid all ≡ true) × AllResolved all es

module _ (codec : Base64) (lossless : IsLossless codec) (version : String) where
  dumped_savable :
      (v r : Value) → IsSavable v → dump_model codec v version ≡ ok r → HoldsState (strip v) r
  dumped_savable (dict i fs) r h e = dumped codec version i fs r h e
  dumped_savable (seq s i xs) r h e = elim h [ ]
  dumped_savable null r h e = elim h [ ]
  dumped_savable (bool b) r h e = elim h [ ]
  dumped_savable (int z) r h e = elim h [ ]
  dumped_savable (str s) r h e = elim h [ ]
  dumped_savable (opaque n) r h e = elim h [ ]
  dumped_savable (bytes b) r h e = elim h [ ]

  pub dump_entries-Recorded :
      (es : List ModelEntry) (state : Fields)
      → IsValid es
      → AllSavable es
      → Unused state es
      → (gs : Fields) × (dump_entries codec es version state ≡ ok (append state gs))
        × Recorded es gs
  unfolding dump_entries
  dump_entries-Recorded [] state valid savable u = (end, rw append-end refl, tt)
  dump_entries-Recorded ((a, v) ∷ es) state valid savable u =
      let (r, w, dumps, loads, same) = saved codec lossless version v savable.0 in
      let (gs, rest, recorded) =
        dump_entries-Recorded es (append state (field (name a) r end)) valid.2 savable.1
          (Unused-append_one state a r es valid.1 u.1) in
      (
        field (name a) r gs,
        rw (dumps, u.0, valid.0, insert_new (name a) r state u.0, rest)
            (ap ok (append_one state (name a) r gs)),
        (refl, dumped_savable v r savable.0 dumps, recorded),
      )

text_eq_sym : (s t : String) → (s == t) ≡ (t == s)
text_eq_sym s t = ground (arith, eq_iff s t, eq_iff t s)

known :
    (es : List ModelEntry) (gs : Fields) (rid : String)
    → Recorded es gs
    → (lookup (name rid) gs ≢ none) ↔ (id_in rid es ≡ true)
unfolding lookup key_eq
known [] end rid h = (λ n. elim (n refl) [ ], λ e. ground arith)
known [] (field k r gs) rid h = elim h [ ]
known ((a, v) ∷ es) end rid h = elim h [ ]
known ((a, v) ∷ es) (field k r gs) rid (e, holds, h) =
    subst (λ j. (lookup (name rid) (field j r gs) ≢ none) ↔ (id_in rid ((a, v) ∷ es) ≡ true))
      (sym e)
      (elim (Bool-cases (a == rid)) [
        | inl here ↦ rw (text_eq_sym rid a, here) (λ n. refl, λ x n. cc n)
        | inr later ↦ rw (text_eq_sym rid a, later) (known es gs rid h)
      ])

Recorded-AreRecords : (es : List ModelEntry) (gs : Fields) → Recorded es gs → AreRecords gs
Recorded-AreRecords [] end h = tt
Recorded-AreRecords [] (field k r gs) h = elim h [ ]
Recorded-AreRecords ((a, v) ∷ es) end h = elim h [ ]
Recorded-AreRecords ((a, v) ∷ es) (field k r gs) (e, (i, fs, d, kept), h) =
    subst (λ j. AreRecords (field j r gs)) (sym e)
      (subst (λ q. AreRecords (field (name a) q gs)) (sym d) (Recorded-AreRecords es gs h))

-- A record has its references resolved just if the model has.
record_resolved :
    (present : Fields) (all : List ModelEntry) (v r : Value)
    → ((rid : String) → (lookup (name rid) present ≢ none) ↔ (id_in rid all ≡ true))
    → HoldsState (strip v) r
    → ((rid : String) → RefersTo rid (state_of r) → lookup (name rid) present ≢ none)
      ↔ ((rid : String) → RefersTo rid v → id_in rid all ≡ true)
record_resolved present all v r there (i, fs, d, kept) = (
  λ f rid refers.
      (there rid).0 (f rid (subst (RefersTo rid) (sym kept) ((RefersTo-strip rid v).1 refers))),
  λ f rid refers.
      (there rid).1 (f rid ((RefersTo-strip rid v).0 (subst (RefersTo rid) kept refers))),
)

Recorded-Resolved :
    (present : Fields) (all es : List ModelEntry) (gs : Fields)
    → ((rid : String) → (lookup (name rid) present ≢ none) ↔ (id_in rid all ≡ true))
    → Recorded es gs
    → Resolved present gs ↔ AllResolved all es
Recorded-Resolved present all [] end there h = (λ x. x, λ x. x)
Recorded-Resolved present all [] (field k r gs) there h = elim h [ ]
Recorded-Resolved present all ((a, v) ∷ es) end there h = elim h [ ]
Recorded-Resolved present all ((a, v) ∷ es) (field k r gs) there (e, holds, h) =
    let one = record_resolved present all v r there holds in
    let rest = Recorded-Resolved present all es gs there h in
    (λ x. (one.0 x.0, rest.0 x.1), λ x. (one.1 x.0, rest.1 x.1))

module _ (codec : Base64) (lossless : IsLossless codec) (version : String) where
  -- The document of models with distinct ids that are not empty, whose states are accepted dicts, is
  -- made, and `check_references` returns on it just if each model that the state of one of them
  -- refers to, at whatever depth, is one of them.
  pub check_references-dump_document :
      (es : List ModelEntry)
      → IsValid es
      → AllSavable es
      → (doc : Fields) × (dump_document codec es version ≡ ok (dict fresh doc))
        × ((check_references doc ≡ ok tt) ↔ AllResolved es es)
  unfolding dump_document lookup key_eq append
  check_references-dump_document es valid savable =
      let (gs, dumps, recorded) =
        dump_entries-Recorded codec lossless version es end valid savable (Unused-end es) in
      (
        document_of codec gs,
        rw dumps refl,
        both_ways
            (check_references-ok_iff (document_of codec gs) gs fresh refl
              (Recorded-AreRecords es gs recorded))
            (Recorded-Resolved gs es es gs (λ rid. known es gs rid recorded) recorded),
      )
