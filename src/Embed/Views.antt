-- ===== src/Embed/Views.antt =====
-- What `with_view_identity` puts into a document, and what it keeps.
use cositos.Base.{false, ◌≡◌, refl, ap, ◌∙◌, none, some, first}
use cositos.Value.{
  Ident, Key, name, key_eq, key_eq_refl, fresh, Value, null, bool, int, str, opaque, bytes, seq,
  dict, Fields, end, field,
}
use cositos.Value.Dict.{lookup, insert, merge, Distinct, lookup-insert, lookup-merge}
use cositos.Errors.{ok, ◌>>=◌}
use cositos.Protocol.{anywidget_module_version, get_or, empty_dict}
use cositos.Embed.{
  identity_of, merged, enriched_record, enriched, enriched_state, with_view_identity,
}

abbrev pub version_of : Fields → Value
version_of fs = get_or fs (name "model_module_version") (str anywidget_module_version)

-- The copy of a record, entry by entry: its state has what the host has set, and behind that the
-- view identity of the record's version; its other entries are the record's.
abbrev pub Enriched : Fields → Fields → Fields → Type 0
Enriched fs state gs =
    (seen : Fields) × (lookup (name "state") gs ≡ some (dict fresh seen))
    × ((k : Key) → lookup k seen ≡ first (lookup k state) (lookup k (identity_of (version_of fs))))
    × ((k : Key) → key_eq (name "state") k ≡ false → lookup k gs ≡ lookup k fs)

record-Enriched :
    (i j : Ident) (fs state : Fields)
    → get_or fs (name "state") empty_dict ≡ dict j state
    → Distinct state
    → (gs : Fields) × (enriched_record (dict i fs) ≡ ok (dict fresh gs)) × Enriched fs state gs
record-Enriched i j fs state there d =
    let seen = merge (identity_of (version_of fs)) state in
    (
      insert (name "state") (dict fresh seen) fs,
      ap
          (λ v. merged (identity_of (version_of fs)) v >>= λ state'.
            ok (dict fresh (insert (name "state") (dict fresh state') fs)))
          there,
      (
        seen,
        rw (lookup-insert, key_eq_refl) refl,
        λ k. lookup-merge k (identity_of (version_of fs)) state d,
        λ k n. lookup-insert (name "state") k (dict fresh seen) fs ∙ rw n refl,
      ),
    )

-- The records of a document whose states are dicts; a state that is missing is an empty one.
abbrev pub AreRenderable : Fields → Type 0
AreRenderable end = Unit
AreRenderable (field k (dict i fs) rest) =
    ((j : Ident) × (state : Fields) × (get_or fs (name "state") empty_dict ≡ dict j state)
      × Distinct state)
    × AreRenderable rest
AreRenderable (field k v rest) = ⊥

abbrev pub state_fields : Value → Fields
state_fields (dict i fs) = fs
state_fields v = end

-- The copies of the records, in the same order under the same ids.
abbrev pub AllEnriched : Fields → Fields → Type 0
AllEnriched end end = Unit
AllEnriched (field k (dict i fs) rs) (field j (dict _ gs) rs') =
    (k ≡ j)
    × Enriched fs (state_fields (get_or fs (name "state") empty_dict)) gs
    × AllEnriched rs rs'
AllEnriched rs rs' = ⊥

pub all_enriched :
    (rs : Fields) → AreRenderable rs → (rs' : Fields) × (enriched rs ≡ ok rs') × AllEnriched rs rs'
unfolding enriched
all_enriched end a = (end, refl, tt)
all_enriched (field k (dict i fs) rs) a =
    let (j, state, there, d) = a.0 in
    let (gs, copied, right) = record-Enriched i j fs state there d in
    let (rs', rest, rights) = all_enriched rs a.1 in
    (field k (dict fresh gs) rs', rw (copied, rest) refl, (refl, rw there right, rights))
all_enriched (field k null rs) a = elim a [ ]
all_enriched (field k (bool b) rs) a = elim a [ ]
all_enriched (field k (int z) rs) a = elim a [ ]
all_enriched (field k (str t) rs) a = elim a [ ]
all_enriched (field k (opaque z) rs) a = elim a [ ]
all_enriched (field k (bytes b) rs) a = elim a [ ]
all_enriched (field k (seq s i xs) rs) a = elim a [ ]

-- `with_view_identity` of a document whose records have dicts as states returns a document with the
-- same models in the same order. In each state what the host has set stays, the view identity of the
-- record's version stands behind it, and nothing else is there; the other entries of the records and
-- of the document stay.
pub with_view_identity-AllEnriched :
    (document rs : Fields) (i : Ident)
    → lookup (name "state") document ≡ some (dict i rs)
    → AreRenderable rs
    → (document' : Fields) × (rs' : Fields) × (with_view_identity document ≡ ok document')
      × (lookup (name "state") document' ≡ some (dict fresh rs'))
      × AllEnriched rs rs'
      × ((k : Key) → key_eq (name "state") k ≡ false → lookup k document' ≡ lookup k document)
unfolding with_view_identity
with_view_identity-AllEnriched document rs i there a =
    let (rs', copies, rights) = all_enriched rs a in
    (
      insert (name "state") (dict fresh rs') document,
      rs',
      ap
            (λ o. enriched_state (elim o [ none ↦ empty_dict | some v ↦ v ]) >>= λ records.
              ok (insert (name "state") (dict fresh records) document))
            there
          ∙ rw copies refl,
      rw (lookup-insert, key_eq_refl) refl,
      rights,
      λ k n. lookup-insert (name "state") k (dict fresh rs') document ∙ rw n refl,
    )
