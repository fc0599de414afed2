-- ===== src/Controls/Complete.antt =====
-- Lists of entries that begin with their own and refer to models among themselves only.
use text.Mathlib.TextEquality.{eq_iff}
use text.Mathlib.TextLemmas.{cons≢nil}
use cositos.Serialize.References.{model_ref}
use cositos.Base.{All, sym, String, ◌≡◌, refl, inl, inr, true, none, List, [], ◌∷◌, ◌++◌}
use cositos.Value.{name, key_eq, fresh, list_kind, seq, Items, nil, cons, Fields, end, field}
use cositos.Value.Dict.{lookup, merge, Distinct, merge-Distinct}
use cositos.Errors.{ok}
use cositos.Serialize.{ModelEntry}
use cositos.Serialize.Documents.{id_in}
use cositos.Serialize.Complete.{AllResolved}
use cositos.Serialize.References.Resolved.{RefersTo, SomeItem}
use cositos.Serialize.References.Written.{IsOneLine, model_ref_lem}
use cositos.Controls.{Spec, build, box, flattened, child_refs, reference}
use cositos.Controls.Boxes.{id_in-append, or_true}
use cositos.Controls.Closed.{IsWhole, build-AllResolved}
use cositos.Controls.Plain.{ArePlainFields, SomeField-merge}

pub AllResolved-append :
    (all es fs : List ModelEntry)
    → AllResolved all es
    → AllResolved all fs
    → AllResolved all (es ++ fs)
AllResolved-append all [] fs r r' = r'
AllResolved-append all ((a, v) ∷ es) fs r r' = (r.0, AllResolved-append all es fs r.1 r')

-- What refers by the text for an id that is a line refers to that id.
reference_names : (a rid : String) → IsOneLine a → RefersTo rid (reference a) → a ≡ rid
unfolding model_ref
reference_names String.[] rid h r = cc r
reference_names (String.◌∷◌ c s) rid h r = cc (model_ref_lem (String.◌∷◌ c s) h cons≢nil, r)

-- The models of the first list are among those of the second.
abbrev pub Within : List ModelEntry → List ModelEntry → Type 0
Within es all = (rid : String) → id_in rid es ≡ true → id_in rid all ≡ true

pub Within-left : (es fs all : List ModelEntry) → Within (es ++ fs) all → Within es all
Within-left es fs all w rid h = w rid (rw (id_in-append rid es fs, h) refl)

pub Within-right : (es fs all : List ModelEntry) → Within (es ++ fs) all → Within fs all
Within-right es fs all w rid h = w rid (rw (id_in-append rid es fs, h) (or_true (id_in rid es)))

-- The entries of one widget whose overrides refer to nothing.
pub own_entries :
    (spec : Spec) (overrides : Fields) (hex : String) (all : List ModelEntry)
    → IsWhole spec
    → IsOneLine hex
    → ArePlainFields overrides
    → Within (build spec overrides none hex) all
    → AllResolved all (build spec overrides none hex)
own_entries spec overrides hex all whole line (d, plain) within =
    build-AllResolved spec overrides hex all whole line d within (λ rid r. elim (plain rid r) [ ])

-- The list begins with an entry under an id that is a line, and its entries refer only to each other.
abbrev pub IsComplete : List ModelEntry → Type 0
IsComplete [] = ⊥
IsComplete ((a, v) ∷ rest) =
    IsOneLine a
    × ((all : List ModelEntry) → Within ((a, v) ∷ rest) all → AllResolved all ((a, v) ∷ rest))

-- The references to children, and what stands below them.
abbrev Held : List (List ModelEntry) → Items → Type 0
Held children refs =
    ((rid : String) → SomeItem rid refs → id_in rid (flattened children) ≡ true)
    × ((all : List ModelEntry)
        → Within (flattened children) all
        → AllResolved all (flattened children))

child_refs-Held :
    (children : List (List ModelEntry))
    → All IsComplete children
    → (refs : Items) × (child_refs children ≡ ok refs) × Held children refs
unfolding child_refs
child_refs-Held [] h = (nil, refl, (λ rid n. elim n [ ], λ all w. tt))
child_refs-Held ([] ∷ children) h = elim h.0 [ ]
child_refs-Held (((a, v) ∷ rest) ∷ children) h =
    let (refs, returns, (named, inner)) = child_refs-Held children h.1 in
    let es = (a, v) ∷ rest in
    (
      cons (reference a) refs,
      rw returns refl,
      (
        λ rid i. elim i [
          | inl now ↦ rw ((eq_iff rid a).1 (sym (reference_names a rid h.0.0 now))) refl
          | inr later ↦
              rw (id_in-append rid es (flattened children), named rid later)
                (or_true (id_in rid es))
        ],
        λ all w.
            AllResolved-append all es (flattened children)
              (h.0.1 all (Within-left es (flattened children) all w))
              (inner all (Within-right es (flattened children) all w)),
      ),
    )

-- One widget whose overrides refer to nothing.
pub build-IsComplete :
    (spec : Spec) (overrides : Fields) (hex : String)
    → IsWhole spec
    → IsOneLine hex
    → ArePlainFields overrides
    → IsComplete (build spec overrides none hex)
unfolding build
build-IsComplete spec overrides hex whole line plain =
    (line, λ all w. own_entries spec overrides hex all whole line plain w)

-- A box of complete children is built, and is complete.
pub box-IsComplete :
    (spec : Spec) (children : List (List ModelEntry)) (overrides : Fields) (hex : String)
    → IsWhole spec
    → IsOneLine hex
    → ArePlainFields overrides
    → All IsComplete children
    → (es : List ModelEntry) × (box spec children overrides hex ≡ ok es) × IsComplete es
unfolding box build lookup key_eq
box-IsComplete spec children overrides hex whole line (d, plain) complete =
    let (refs, returns, (named, inner)) = child_refs-Held children complete in
    let given = merge (field (name "children") (seq list_kind fresh refs) end) overrides in
    let one : Distinct (field (name "children") (seq list_kind fresh refs) end) = (refl, tt) in
    let own = build spec given none hex in
    (
      own ++ flattened children,
      rw returns refl,
      (
        line,
        λ all within.
            let below = Within-right own (flattened children) all within in
            AllResolved-append all own (flattened children)
              (build-AllResolved spec given hex all whole line (merge-Distinct _ overrides one)
                (Within-left own (flattened children) all within)
                (λ rid r. elim (SomeField-merge rid _ overrides one d r) [
                  | inl s ↦ elim (plain rid s) [ ]
                  | inr s ↦ elim s [ inl i ↦ below rid (named rid i) | inr n ↦ elim n [ ] ]
                ]))
              (inner all below),
      ),
    )

-- The entries of a complete list refer only to models in the list.
pub IsComplete-AllResolved : (es : List ModelEntry) → IsComplete es → AllResolved es es
IsComplete-AllResolved [] h = tt
IsComplete-AllResolved ((a, v) ∷ rest) h = h.1 ((a, v) ∷ rest) (λ rid i. i)
