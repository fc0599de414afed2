-- ===== src/Controls/Plain.antt =====
-- What the functions of the module put into a state refers to no model if their arguments do not.
use cositos.Serialize.References.{model_ref}
use cositos.Base.{
  ℕ, All, String, ◌≡◌, refl, ◌⊎◌, inl, inr, Option, none, some, List, [], ◌∷◌, Bool-cases,
}
use cositos.Value.{Key, name, key_eq, fresh, list_kind, Value, null, seq, Fields, end, field}
use cositos.Value.Dict.{lookup, remove, merge, Distinct, lookup-merge, merge-Distinct}
use cositos.Serialize.References.Resolved.{SomeItem, SomeField}
use cositos.Serialize.References.Written.{SomeField-lookup, lookup-SomeField}
use cositos.Controls.{labels_of, texts, index_value, dropdown_index}
use cositos.Controls.Choice.{remove-Distinct}
use cositos.Controls.Closed.{IsPlain, found-first}

-- Overrides that refer to nothing, with no key twice.
abbrev pub ArePlainFields : Fields → Type 0
ArePlainFields fs = Distinct fs × ((rid : String) → SomeField rid fs → ⊥)

-- a label that refers to no model
abbrev pub IsLabel : String → Type 0
IsLabel s = model_ref s ≡ none

-- Some entry of a merged dict.
pub SomeField-merge :
    (rid : String) (a b : Fields)
    → Distinct a
    → Distinct b
    → SomeField rid (merge a b)
    → SomeField rid b ⊎ SomeField rid a
SomeField-merge rid a b d d' r =
    let (k, v, found, refers) = SomeField-lookup rid (merge a b) (merge-Distinct a b d) r in
    elim (found-first (lookup k b) (lookup k a) v (rw (lookup-merge k a b d') at found)) [
      | inl e ↦ inl (lookup-SomeField rid k v b e refers)
      | inr e ↦ inr (lookup-SomeField rid k v a e refers)
    ]

pub remove-SomeField :
    (rid : String) (k : Key) (fs : Fields) → SomeField rid (remove k fs) → SomeField rid fs
unfolding remove
remove-SomeField rid k end r = r
remove-SomeField rid k (field j v fs) r = elim (Bool-cases (key_eq j k)) [
  | inl here ↦ inr (rw here at r)
  | inr other ↦ elim (rw other at r) [
    | inl now ↦ inl now
    | inr later ↦ inr (remove-SomeField rid k fs later)
  ]
]

pub merge-ArePlainFields :
    (a b : Fields) → ArePlainFields a → ArePlainFields b → ArePlainFields (merge a b)
merge-ArePlainFields a b (d, p) (d', p') = (
  merge-Distinct a b d,
  λ rid r. elim (SomeField-merge rid a b d d' r) [ inl s ↦ p' rid s | inr s ↦ p rid s ],
)

pub texts-IsLabel :
    (ss : List String) → All IsLabel ss → (rid : String) → SomeItem rid (texts ss) → ⊥
texts-IsLabel [] h rid r = r
texts-IsLabel (s ∷ ss) h rid r = elim r [
  | inl now ↦ cc (h.0, now)
  | inr later ↦ texts-IsLabel ss h.1 rid later
]

pub index_value-IsPlain : (o : Option ℕ) → IsPlain (index_value o)
index_value-IsPlain none rid r = r
index_value-IsPlain (some n) rid r = r

pub dropdown_index-IsPlain :
    (to_text : Value → String) (labels : List String) (value : Value) (index : Option Value)
    → ((v : Value) → index ≡ some v → IsPlain v)
    → IsPlain (dropdown_index to_text labels value index)
dropdown_index-IsPlain to_text labels null none p = λ rid r. r
dropdown_index-IsPlain to_text labels _ none p = index_value-IsPlain _
dropdown_index-IsPlain to_text labels null (some null) p = λ rid r. r
dropdown_index-IsPlain to_text labels _ (some null) p = index_value-IsPlain _
dropdown_index-IsPlain to_text labels _ (some v) p = p v refl

pub slider-ArePlainFields :
    (value min max : Value) (overrides : Fields)
    → IsPlain value
    → IsPlain min
    → IsPlain max
    → ArePlainFields overrides
    → ArePlainFields (
        merge
          (field (name "value") value (field (name "min") min (field (name "max") max end)))
          overrides)
unfolding lookup key_eq
slider-ArePlainFields value min max overrides p q r plain =
    merge-ArePlainFields _ overrides
      (
        (refl, (refl, (refl, tt))),
        λ rid h. elim h [
          | inl e ↦ p rid e
          | inr e ↦ elim e [ inl f ↦ q rid f | inr f ↦ elim f [ inl g ↦ r rid g | inr g ↦ g ] ]
        ],
      )
      plain

pub menu-ArePlainFields :
    (to_text : Value → String) (options : List Value) (value : Value) (overrides : Fields)
    → All IsLabel (labels_of to_text options)
    → ArePlainFields overrides
    → let labels = labels_of to_text options in
      ArePlainFields (
        merge
          (field (name "_options_labels") (seq list_kind fresh (texts labels)) (
            field
              (name "index")
              (dropdown_index to_text labels value (lookup (name "index") overrides))
              end))
          (remove (name "index") overrides))
unfolding lookup key_eq
menu-ArePlainFields to_text options value overrides labels (d, plain) =
    let index =
      dropdown_index-IsPlain to_text (labels_of to_text options) value
        (lookup (name "index") overrides)
        (λ v e rid r. plain rid (lookup-SomeField rid (name "index") v overrides e r)) in
    merge-ArePlainFields _ (remove (name "index") overrides)
      (
        (refl, (refl, tt)),
        λ rid h. elim h [
          | inl e ↦ texts-IsLabel (labels_of to_text options) labels rid e
          | inr e ↦ elim e [ inl f ↦ index rid f | inr f ↦ f ]
        ],
      )
      (
        remove-Distinct (name "index") overrides d,
        λ rid r. plain rid (remove-SomeField rid (name "index") overrides r),
      )
