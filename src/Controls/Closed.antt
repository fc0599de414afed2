-- ===== src/Controls/Closed.antt =====
-- The references in the entries that `_build` makes.
use text.Mathlib.Text.{◌==◌}
use mathlib.Core.Path.{subst}
use text.Mathlib.TextEquality.{eq_iff}
use text.Mathlib.TextLemmas.{append-eq-nil_iff}
use cositos.Base.{
  arith, String, ◌≡◌, ◌≢◌, refl, sym, ◌⊎◌, inl, inr, true, Bool-cases, Option, none, some, List, [],
  ◌∷◌, first,
}
use cositos.Value.{Key, name, key_eq, key_eq_iff, field, fresh, Value, dict, Fields}
use cositos.Value.Dict.{
  lookup, insert, merge, Distinct, lookup-insert, lookup-merge, merge-Distinct,
}
use cositos.Serialize.{ModelEntry}
use cositos.Serialize.Documents.{id_in}
use cositos.Serialize.Complete.{AllResolved}
use cositos.Serialize.References.Resolved.{RefersTo, SomeField}
use cositos.Serialize.References.Written.{
  IsOneLine, append-IsOneLine, model_ref_lem, SomeField-lookup, lookup-SomeField,
}
use cositos.Controls.{
  Identity, Companion, Spec, mint_id, identity_fields, reference, add_companions, build,
}
use cositos.Controls.Choice.{add_companions-Distinct}
use cositos.Controls.Boxes.{or_true}

-- The value refers to no model.
abbrev pub IsPlain : Value → Type 0
IsPlain v = (rid : String) → RefersTo rid v → ⊥

-- One of the companions stands under the key.
abbrev pub IsCompanionKey : Key → List Companion → Type 0
IsCompanionKey k [] = ⊥
IsCompanionKey k (c ∷ cs) = (k ≡ name c.key) ⊎ IsCompanionKey k cs

-- What `_build` takes of its companions: keys that are lines, and identities that refer to nothing.
abbrev pub ArePlain : List Companion → Type 0
ArePlain [] = Unit
ArePlain (c ∷ cs) =
    IsOneLine c.key × IsPlain (dict fresh (identity_fields c.identity)) × ArePlain cs

-- A catalog entry that refers to models only where it has a companion.
pub record IsWhole (spec : Spec) : Type 0 where
  pub distinct : Distinct spec.default_state
  pub identity_IsPlain : IsPlain (dict fresh (identity_fields spec.identity))
  pub companions_ArePlain : ArePlain spec.companions
  pub placeholders :
      (rid : String) (k : Key) (v : Value)
      → lookup k spec.default_state ≡ some v
      → RefersTo rid v
      → IsCompanionKey k spec.companions

mint_id-IsOneLine :
    (root key : String) → IsOneLine root → IsOneLine key → IsOneLine (mint_id root key)
mint_id-IsOneLine root key h g = append-IsOneLine root _ h (append-IsOneLine "-" key (refl, tt) g)

mint_id-ne : (root key : String) → mint_id root key ≢ ""
mint_id-ne root key e = cc ((append-eq-nil_iff.0 (append-eq-nil_iff.0 e).1).0)

-- Who refers to a minted id refers to that companion.
minted_lem :
    (root key rid : String)
    → IsOneLine root
    → IsOneLine key
    → RefersTo rid (reference (mint_id root key))
    → mint_id root key ≡ rid
minted_lem root key rid h g r =
    cc (model_ref_lem (mint_id root key) (mint_id-IsOneLine root key h g) (mint_id-ne root key), r)

same_value : {v w : Value} → some w ≡ some v → w ≡ v
same_value e = cc e

-- What is found in a dict with one more entry in front.
pub found-field :
    (j k : Key) (w v : Value) (fs : Fields)
    → lookup k (field j w fs) ≡ some v
    → ((k ≡ j) × (w ≡ v)) ⊎ (lookup k fs ≡ some v)
unfolding lookup
found-field j k w v fs found = ground (arith, found, key_eq_iff j k)

-- What is found after an entry was written: that entry, or what was there.
found-insert :
    (j k : Key) (w v : Value) (fs : Fields)
    → lookup k (insert j w fs) ≡ some v
    → (w ≡ v) ⊎ ((lookup k fs ≡ some v) × (k ≢ j))
found-insert j k w v fs found = elim (Bool-cases (key_eq j k)) [
  | inl here ↦ inl (same_value (rw (lookup-insert, here) at found))
  | inr other ↦
      inr (rw (lookup-insert, other) at found, λ e. cc (other, (key_eq_iff j k).1 (sym e)))
]

-- What a state refers to that has the companions' references: a companion, or what the state before
-- refers to under another key.
add_companions-refers :
    (root rid : String) (cs : List Companion) (state : Fields) (k : Key) (v : Value)
    → IsOneLine root
    → ArePlain cs
    → lookup k (add_companions root cs state).0 ≡ some v
    → RefersTo rid v
    → (id_in rid (add_companions root cs state).1 ≡ true)
      ⊎ ((lookup k state ≡ some v) × (IsCompanionKey k cs → ⊥))
unfolding add_companions
add_companions-refers root rid [] state k v line plain found r = inr (found, λ n. n)
add_companions-refers root rid (c ∷ cs) state k v line plain found r =
    let m = mint_id root c.key in
    let earlier =
      add_companions-refers root rid cs (insert (name c.key) (reference m) state) k v line plain.2
        found r in
    elim earlier [
      | inl h ↦ inl (rw h (or_true (rid == m)))
      | inr h ↦ elim (found-insert (name c.key) k (reference m) v state h.0) [
        | inl e ↦ inl (
            rw
              ((eq_iff rid m).1
                (sym (minted_lem root c.key rid line plain.0 (subst (RefersTo rid) (sym e) r))))
              refl)
        | inr (before, other) ↦ inr (before, λ n. elim n [ inl e ↦ other e | inr i ↦ h.1 i ])
      ]
    ]

companions-AllResolved :
    (root : String) (all : List ModelEntry) (cs : List Companion) (state : Fields)
    → ArePlain cs
    → AllResolved all (add_companions root cs state).1
unfolding add_companions
companions-AllResolved root all [] state plain = tt
companions-AllResolved root all (c ∷ cs) state plain =
    (λ rid r. elim (plain.1 rid r) [ ], companions-AllResolved root all cs _ plain.2)

pub found-first :
    (o p : Option Value) (v : Value) → first o p ≡ some v → (o ≡ some v) ⊎ (p ≡ some v)
found-first none p v e = inr e
found-first (some w) p v e = inl e

-- What is found in a dict that is merged of three.
found-merge :
    (k : Key) (v : Value) (a b c : Fields)
    → Distinct b
    → Distinct c
    → lookup k (merge a (merge b c)) ≡ some v
    → (lookup k c ≡ some v) ⊎ ((lookup k b ≡ some v) ⊎ (lookup k a ≡ some v))
found-merge k v a b c d d' found =
    elim (found-first (lookup k (merge b c)) (lookup k a) v
      (rw (lookup-merge k a (merge b c) (merge-Distinct b c d)) at found)) [
        | inl e ↦ elim (found-first (lookup k c) (lookup k b) v (rw (lookup-merge k b c d') at e)) [
          | inl f ↦ inl f
          | inr f ↦ inr (inl f)
        ]
        | inr e ↦ inr (inr e)
      ]

pub identity_fields-Distinct : (i : Identity) → Distinct (identity_fields i)
unfolding lookup key_eq
identity_fields-Distinct i = (refl, (refl, (refl, (refl, (refl, (refl, tt))))))

-- What the state of one widget refers to: a model of the widget's own, or what the overrides do.
own_refers :
    (spec : Spec) (overrides : Fields) (hex rid : String)
    → IsWhole spec
    → IsOneLine hex
    → Distinct overrides
    → let (state, companions) = add_companions hex spec.companions spec.default_state in
      SomeField rid (merge (identity_fields spec.identity) (merge state overrides))
      → (id_in rid companions ≡ true) ⊎ SomeField rid overrides
own_refers spec overrides hex rid whole line d r =
    let state = (add_companions hex spec.companions spec.default_state).0 in
    let d' = add_companions-Distinct hex spec.companions spec.default_state whole.distinct in
    let (k, v, found, refers) =
      SomeField-lookup rid _
        (merge-Distinct _ (merge state overrides) (identity_fields-Distinct spec.identity)) r in
    elim (found-merge k v _ state overrides d' d found) [
      | inl there ↦ inr (lookup-SomeField rid k v overrides there refers)
      | inr e ↦ elim e [
        | inl there ↦
            elim (add_companions-refers hex rid spec.companions spec.default_state k v line
              whole.companions_ArePlain there refers) [
                | inl h ↦ inl h
                | inr h ↦ elim (h.1 (whole.placeholders rid k v h.0 refers)) [ ]
              ]
        | inr there ↦
            elim (whole.identity_IsPlain rid (lookup-SomeField rid k v _ there refers)) [ ]
      ]
    ]

-- Every model that the entries of one widget refer to is one of them, or one that the overrides
-- refer to.
pub build-AllResolved :
    (spec : Spec) (overrides : Fields) (hex : String) (all : List ModelEntry)
    → IsWhole spec
    → IsOneLine hex
    → Distinct overrides
    → ((rid : String) → id_in rid (build spec overrides none hex) ≡ true → id_in rid all ≡ true)
    → ((rid : String) → SomeField rid overrides → id_in rid all ≡ true)
    → AllResolved all (build spec overrides none hex)
unfolding build
build-AllResolved spec overrides hex all whole line d within given = (
  λ rid r. elim (own_refers spec overrides hex rid whole line d r) [
    | inl h ↦ within rid (rw h (or_true (rid == hex)))
    | inr h ↦ given rid h
  ],
  companions-AllResolved hex all spec.companions spec.default_state whole.companions_ArePlain,
)
