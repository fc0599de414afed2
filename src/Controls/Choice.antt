-- ===== src/Controls/Choice.antt =====
-- The index that a dropdown is built with.
use text.Mathlib.Text.{◌==◌}
use text.Mathlib.TextEquality.{eq_iff}
use cositos.Base.{
  ℕ, suc, String, ◌≡◌, ◌≢◌, refl, ap, ◌∙◌, ◌⊎◌, inl, inr, Bool-cases, Option, none, some, List, [],
  ◌∷◌, get_elem?, All, arith,
}
use cositos.Value.{
  pos, list_kind, Key, name, key_eq, fresh, Value, null, bool, int, str, opaque, bytes, seq, dict,
  Fields, end, field,
}
use cositos.Value.Dict.{
  lookup, remove, merge, Distinct, lookup-merge, lookup-remove, merge-Distinct, insert-Distinct,
}
use cositos.Serialize.{ModelEntry}
use cositos.Controls.{
  Companion, Spec, add_companions, build, index_of, index_value, labels_of, dropdown_index,
  dropdown, texts,
}

-- The index of a label that is the text, or None if no label is.
abbrev pub IsChoice : Value → String → List String → Type 0
IsChoice v s labels =
    ((n : ℕ) × (v ≡ int (pos n)) × (get_elem? labels n ≡ some s))
    ⊎ ((v ≡ null) × All (λ t. t ≢ s) labels)

abbrev Place : Option ℕ → String → List String → Type 0
Place none s labels = All (λ t. t ≢ s) labels
Place (some n) s labels = get_elem? labels n ≡ some s

shifted :
    (o : Option ℕ) (s t : String) (ts : List String)
    → t ≢ s
    → Place o s ts
    → Place (elim o [ none ↦ none | some n ↦ some (suc n) ]) s (t ∷ ts)
shifted none s t ts n p = (n, p)
shifted (some m) s t ts n p = p

index_of-Place : (s : String) (ts : List String) → Place (index_of s ts) s ts
unfolding index_of
index_of-Place s [] = tt
index_of-Place s (t ∷ ts) = elim (Bool-cases (t == s)) [
  | inl same ↦ rw same (ap some ((eq_iff t s).0 same))
  | inr other ↦
      rw other
        (shifted (index_of s ts) s t ts (λ e. cc ((eq_iff t s).1 e, other)) (index_of-Place s ts))
]

Place-IsChoice :
    (o : Option ℕ) (s : String) (ts : List String) → Place o s ts → IsChoice (index_value o) s ts
Place-IsChoice none s ts p = inr (refl, p)
Place-IsChoice (some n) s ts p = inl (n, refl, p)

pub add_companions-Distinct :
    (root_id : String) (cs : List Companion) (state : Fields)
    → Distinct state
    → Distinct (add_companions root_id cs state).0
unfolding add_companions
add_companions-Distinct root_id [] state d = d
add_companions-Distinct root_id (c ∷ cs) state d =
    add_companions-Distinct root_id cs _ (insert-Distinct (name c.key) _ state d)

no_override :
    (to_text : Value → String) (labels : List String) (value : Value)
    → value ≢ null
    → dropdown_index to_text labels value none ≡ index_value (index_of (to_text value) labels)
no_override to_text labels null n = elim (n refl) [ ]
no_override to_text labels (bool b) n = refl
no_override to_text labels (int z) n = refl
no_override to_text labels (str s) n = refl
no_override to_text labels (opaque z) n = refl
no_override to_text labels (bytes b) n = refl
no_override to_text labels (seq k i xs) n = refl
no_override to_text labels (dict i fs) n = refl

pub remove-Distinct : (k : Key) (fs : Fields) → Distinct fs → Distinct (remove k fs)
unfolding remove
remove-Distinct k end d = tt
remove-Distinct k (field j v fs) d =
    ground (arith, remove-Distinct k fs d.1, lookup-remove k j fs d.1, d.0, d.1)

-- What is written last is found.
pub lookup-merge_last :
    (k : Key) (a b c : Fields) (v : Value)
    → Distinct b
    → Distinct c
    → lookup k c ≡ some v
    → lookup k (merge a (merge b c)) ≡ some v
lookup-merge_last k a b c v d d' found =
    rw (lookup-merge k a (merge b c) (merge-Distinct b c d), lookup-merge k b c d', found) refl

-- The fields of a dropdown, with overrides that have no index.
abbrev fields_of : Value → Value → Fields → Fields
fields_of labels index overrides =
    merge (field (name "_options_labels") labels (field (name "index") index end))
      (remove (name "index") overrides)

index-fields_of :
    (labels index : Value) (overrides : Fields)
    → Distinct overrides
    → (lookup (name "index") (fields_of labels index overrides) ≡ some index)
      × Distinct (fields_of labels index overrides)
unfolding key_eq lookup
index-fields_of labels index overrides d = (
  lookup-merge (name "index") _ (remove (name "index") overrides)
        (remove-Distinct (name "index") overrides d)
      ∙ rw (lookup-remove (name "index") (name "index") overrides d) refl,
  merge-Distinct _ (remove (name "index") overrides) (refl, (refl, tt)),
)

-- A dropdown whose index is not overridden, of a value that is not None: its own entry comes first,
-- under its id, and the index in its state is that of a label that is the value's text, or None if
-- no label is.
pub dropdown-IsChoice :
    (to_text : Value → String) (spec : Spec) (options : List Value) (value : Value)
    (overrides : Fields) (hex : String)
    → Distinct spec.default_state
    → Distinct overrides
    → lookup (name "index") overrides ≡ none
    → value ≢ null
    → (state : Fields) × (companions : List ModelEntry) × (index : Value) × (dropdown to_text spec
          options value overrides hex
        ≡ (hex, dict fresh state) ∷ companions)
      × (lookup (name "index") state ≡ some index)
      × IsChoice index (to_text value) (labels_of to_text options)
unfolding dropdown build
dropdown-IsChoice to_text spec options value overrides hex d d' free given = (
  _,
  _,
  index_value (index_of (to_text value) (labels_of to_text options)),
  refl,
  (let labels = labels_of to_text options in
      let index = dropdown_index to_text labels value (lookup (name "index") overrides) in
      let (found, distinct) =
        index-fields_of (seq list_kind fresh (texts labels)) index overrides d' in
      lookup-merge_last (name "index") _ _ _ index
        (add_companions-Distinct hex spec.companions spec.default_state d) distinct found
      ∙ ap some (rw free (no_override to_text labels value given))),
  Place-IsChoice (index_of (to_text value) (labels_of to_text options)) _ _
      (index_of-Place (to_text value) (labels_of to_text options)),
)
