-- ===== src/Controls/Boxes.antt =====
-- The entries of a box and of what it holds.
use text.Mathlib.Text.{◌==◌}
use text.Mathlib.TextEquality.{eq_iff}
use cositos.Base.{
  none, some, String, ◌≡◌, refl, ◌∙◌, Bool, true, false, ◌||◌, List, [], ◌∷◌, ◌++◌, arith,
}
use cositos.Value.Dict.{lookup, merge, Distinct, lookup-merge, merge-Distinct}
use cositos.Controls.Choice.{lookup-merge_last, add_companions-Distinct}
use cositos.Value.{
  name, key_eq, fresh, list_kind, seq, dict, end, field, Value, Items, nil, cons, Fields,
}
use cositos.Errors.{ok}
use cositos.Serialize.{ModelEntry}
use cositos.Serialize.Documents.{id_in}
use cositos.Controls.{
  Spec, reference, build, identity_fields, add_companions, child_refs, flattened, box,
}

pub id_in-append :
    (a : String) (es fs : List ModelEntry) → id_in a (es ++ fs) ≡ (id_in a es || id_in a fs)
id_in-append a [] fs = refl
id_in-append a ((b, v) ∷ es) fs = ground (arith, id_in-append a es fs)

pub or_true : (b : Bool) → (b || true) ≡ true
or_true true = refl
or_true false = refl

-- One reference for each child, in order: it names the child's own entry, which is its first, and a
-- model of that id is in the list.
abbrev pub AllHeld : Items → List (List ModelEntry) → List ModelEntry → Type 0
AllHeld (cons r rs) (((a, v) ∷ entries) ∷ children) es =
    (r ≡ reference a) × (id_in a es ≡ true) × AllHeld rs children es
AllHeld nil [] es = Unit
AllHeld _ _ es = ⊥

AllHeld-cons :
    (refs : Items) (children : List (List ModelEntry)) (e : ModelEntry) (es : List ModelEntry)
    → AllHeld refs children es
    → AllHeld refs children (e ∷ es)
AllHeld-cons nil [] e es h = tt
AllHeld-cons nil (c ∷ children) e es h = elim h [ ]
AllHeld-cons (cons r rs) [] e es h = elim h [ ]
AllHeld-cons (cons r rs) ([] ∷ children) e es h = elim h [ ]
AllHeld-cons (cons r rs) (((a, v) ∷ entries) ∷ children) (b, x) es (same, held, rest) =
    (same, rw held (or_true (a == b)), AllHeld-cons rs children (b, x) es rest)

-- More entries in front.
AllHeld-append :
    (refs : Items) (children : List (List ModelEntry)) (es fs : List ModelEntry)
    → AllHeld refs children fs
    → AllHeld refs children (es ++ fs)
AllHeld-append refs children [] fs h = h
AllHeld-append refs children (e ∷ es) fs h =
    AllHeld-cons refs children e (es ++ fs) (AllHeld-append refs children es fs h)

pub id_in_self : (a : String) (v : Value) (es : List ModelEntry) → id_in a ((a, v) ∷ es) ≡ true
id_in_self a v es = rw ((eq_iff a a).1 refl) refl

-- Each child is a list of entries that begins with its own.
abbrev pub HaveRoots : List (List ModelEntry) → Type 0
HaveRoots [] = Unit
HaveRoots ([] ∷ children) = ⊥
HaveRoots ((e ∷ es) ∷ children) = HaveRoots children

refs-AllHeld :
    (children : List (List ModelEntry))
    → HaveRoots children
    → (refs : Items) × (child_refs children ≡ ok refs) × AllHeld refs children (flattened children)
unfolding child_refs
refs-AllHeld [] h = (nil, refl, tt)
refs-AllHeld ([] ∷ children) h = elim h [ ]
refs-AllHeld (((a, v) ∷ entries) ∷ children) h =
    let (refs, returns, held) = refs-AllHeld children h in
    (
      cons (reference a) refs,
      rw returns refl,
      (
        refl,
        id_in_self a v (entries ++ flattened children),
        AllHeld-append refs children ((a, v) ∷ entries) (flattened children) held,
      ),
    )

-- A box of children that each begin with their own entry, whose overrides do not name the children,
-- is built without an error. Its own entry comes first, under its id; the list of children in its
-- state has one reference for each child, in order, which names the id of that child's own entry, and
-- a model of that id is among the entries returned.
pub box-AllHeld :
    (spec : Spec) (children : List (List ModelEntry)) (overrides : Fields) (hex : String)
    → Distinct spec.default_state
    → Distinct overrides
    → lookup (name "children") overrides ≡ none
    → HaveRoots children
    → (state : Fields) × (rest : List ModelEntry) × (refs : Items) × (box spec children overrides
          hex
        ≡ ok ((hex, dict fresh state) ∷ rest))
      × (lookup (name "children") state ≡ some (seq list_kind fresh refs))
      × AllHeld refs children ((hex, dict fresh state) ∷ rest)
unfolding box build
box-AllHeld spec children overrides hex d d' free roots =
    let (refs, returns, held) = refs-AllHeld children roots in
    let (state, companions) = add_companions hex spec.companions spec.default_state in
    let given = merge (field (name "children") (seq list_kind fresh refs) end) overrides in
    let own = merge (identity_fields spec.identity) (merge state given) in
    (
      own,
      companions ++ flattened children,
      refs,
      rw returns refl,
      lookup-merge_last (name "children") _ state given (seq list_kind fresh refs)
          (add_companions-Distinct hex spec.companions spec.default_state d)
          (merge-Distinct _ overrides (unfold lookup in (refl, tt)))
          (lookup-merge (name "children") _ overrides d' ∙ rw free (unfold lookup key_eq in refl)),
      AllHeld-append refs children ((hex, dict fresh own) ∷ companions) (flattened children) held,
    )
