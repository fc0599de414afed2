-- ===== src/Serialize/References/Named.antt =====
-- Which references `check_references` names when it raises.
use Prim.Native.Nat.{Ordering}
use Prim.Native.String.{compare}
use mathlib.Core.Path.{subst}
use cositos.Base.{
  String, ◌≡◌, ◌≢◌, refl, ap, ◌↔◌, ◌⊎◌, inl, inr, none, some, List, [], ◌∷◌, arith, Option-cases,
}
use cositos.Value.{
  Ident, name, index, Value, null, bool, int, str, opaque, bytes, seq, dict, Fields, end, field,
}
use cositos.Value.Dict.{lookup}
use cositos.Errors.{ok}
use cositos.Serialize.References.{
  referenced_ids, missing_ids, insert_holder, note_missing, dangling, raise_dangling,
  check_references,
}
use cositos.Serialize.References.Sorted.{In-insert_sorted}
use cositos.Serialize.References.Resolved.{
  RefersTo, In, either, both_ways, In-referenced_ids, state_of, AreRecords, checked,
}

-- The list names `rid` as missing from the model `holder`.
abbrev pub Names : String → String → List (String × List String) → Type 0
Names holder rid [] = ⊥
Names holder rid ((h, ids) ∷ hs) = ((h ≡ holder) × In rid ids) ⊎ Names holder rid hs

-- Each holder of the list stands with at least one id.
abbrev pub EachHasIds : List (String × List String) → Type 0
EachHasIds [] = Unit
EachHasIds ((h, []) ∷ hs) = ⊥
EachHasIds ((h, r ∷ ids) ∷ hs) = EachHasIds hs

-- A record of that id refers to a model that is not there.
abbrev pub Dangles : String → String → Fields → Fields → Type 0
Dangles holder rid present end = ⊥
Dangles holder rid present (field k r rest) =
    ((k ≡ name holder) × RefersTo rid (state_of r) × (lookup (name rid) present ≡ none))
    ⊎ Dangles holder rid present rest

absent :
    (present : Fields) {r rid : String} {v : Value}
    → r ≡ rid
    → lookup (name r) present ≡ some v
    → lookup (name rid) present ≢ none
absent present here there n = cc (n, here, there)

In-missing_ids :
    (present : Fields) (rid : String) (rids : List String)
    → In rid (missing_ids present rids) ↔ (In rid rids × (lookup (name rid) present ≡ none))
unfolding missing_ids
In-missing_ids present rid [] = (λ h. elim h [ ], λ h. elim h.0 [ ])
In-missing_ids present rid (r ∷ rids) =
    let rest = In-missing_ids present rid rids in
    elim (Option-cases (lookup (name r) present)) [
      | inl out ↦
          rw (out, missing_ids)
            (
              λ h. elim ((In-insert_sorted rid r _).0 h) [
                | inl here ↦ (inl here, subst (λ s. lookup (name s) present ≡ none) here out)
                | inr i ↦ let (j, n) = rest.0 i in (inr j, n)
              ],
              λ h.
                  (In-insert_sorted rid r _).1
                    (elim h.0 [ inl here ↦ inl here | inr i ↦ inr (rest.1 (i, h.1)) ]),
            )
      | inr (v, there) ↦
          rw (there, missing_ids)
            (
              λ h. let (j, n) = rest.0 h in (inr j, n),
              λ h. elim h.0 [
                | inl here ↦ elim (absent present here there h.1) [ ]
                | inr i ↦ rest.1 (i, h.1)
              ],
            )
    ]

-- One more holder, by where it goes.
placed :
    (o : Ordering) (h g : String × List String) (hs us : List (String × List String))
    → List (String × List String)
placed Ordering.lt h g hs us = h ∷ g ∷ hs
placed Ordering.eq h g hs us = h ∷ g ∷ hs
placed Ordering.gt h g hs us = g ∷ us

insert_holder-placed :
    (h g : String × List String) (hs : List (String × List String))
    → insert_holder h (g ∷ hs) ≡ placed (compare h.0 g.0) h g hs (insert_holder h hs)
unfolding insert_holder placed
insert_holder-placed h g hs = ground arith

placed-EachHasIds :
    (o : Ordering) (holder r : String) (ids : List String) (g : String × List String)
    (hs us : List (String × List String))
    → EachHasIds (g ∷ hs)
    → (EachHasIds hs → EachHasIds us)
    → EachHasIds (placed o (holder, r ∷ ids) g hs us)
unfolding placed
placed-EachHasIds Ordering.lt holder r ids g hs us h rest = h
placed-EachHasIds Ordering.eq holder r ids g hs us h rest = h
placed-EachHasIds Ordering.gt holder r ids (k, []) hs us h rest = elim h [ ]
placed-EachHasIds Ordering.gt holder r ids (k, i ∷ others) hs us h rest = rest h

EachHasIds-insert_holder :
    (holder r : String) (ids : List String) (hs : List (String × List String))
    → EachHasIds hs
    → EachHasIds (insert_holder (holder, r ∷ ids) hs)
EachHasIds-insert_holder holder r ids [] h = unfold insert_holder in tt
EachHasIds-insert_holder holder r ids (g ∷ hs) h =
    rw (insert_holder-placed (holder, r ∷ ids) g hs) (
      placed-EachHasIds (compare holder g.0) holder r ids g hs _ h
        (EachHasIds-insert_holder holder r ids hs))

EachHasIds-note_missing :
    (holder : String) (ids : List String) (hs : List (String × List String))
    → EachHasIds hs
    → EachHasIds (note_missing holder ids hs)
EachHasIds-note_missing holder [] hs h = h
EachHasIds-note_missing holder (r ∷ ids) hs h = EachHasIds-insert_holder holder r ids hs h

swapped : {P Q R S : Type 0} → R ↔ (P ⊎ S) → (Q ⊎ R) ↔ (P ⊎ (Q ⊎ S))
swapped f = (
  λ h. elim h [
    | inl q ↦ inr (inl q)
    | inr r ↦ elim (f.0 r) [ inl p ↦ inl p | inr s ↦ inr (inr s) ]
  ],
  λ h. elim h [
    | inl p ↦ inr (f.1 (inl p))
    | inr t ↦ elim t [ inl q ↦ inl q | inr s ↦ inr (f.1 (inr s)) ]
  ],
)

placed-Names :
    (o : Ordering) (holder rid : String) (h g : String × List String)
    (hs us : List (String × List String))
    → Names holder rid us ↔ Names holder rid (h ∷ hs)
    → Names holder rid (placed o h g hs us) ↔ Names holder rid (h ∷ g ∷ hs)
unfolding placed
placed-Names Ordering.lt holder rid h g hs us rest = (λ n. n, λ n. n)
placed-Names Ordering.eq holder rid h g hs us rest = (λ n. n, λ n. n)
placed-Names Ordering.gt holder rid h g hs us rest = swapped rest

Names-insert_holder :
    (holder rid : String) (h : String × List String) (hs : List (String × List String))
    → Names holder rid (insert_holder h hs) ↔ Names holder rid (h ∷ hs)
Names-insert_holder holder rid h [] = unfold insert_holder in (λ n. n, λ n. n)
Names-insert_holder holder rid h (g ∷ hs) = rw (insert_holder-placed h g hs) (
    placed-Names (compare h.0 g.0) holder rid h g hs (insert_holder h hs)
      (Names-insert_holder holder rid h hs))

Names-note_missing :
    (holder rid s : String) (ids : List String) (hs : List (String × List String))
    → Names holder rid (note_missing s ids hs) ↔ (((s ≡ holder) × In rid ids) ⊎ Names holder rid hs)
Names-note_missing holder rid s [] hs =
    (λ n. inr n, λ n. elim n [ inl i ↦ elim i.1 [ ] | inr m ↦ m ])
Names-note_missing holder rid s (r ∷ ids) hs = Names-insert_holder holder rid (s, r ∷ ids) hs

missing-Dangles :
    (present : Fields) (v : Value) (holder rid s : String)
    → ((s ≡ holder) × In rid (missing_ids present (referenced_ids v)))
      ↔ ((name s ≡ name holder) × RefersTo rid v × (lookup (name rid) present ≡ none))
missing-Dangles present v holder rid s = (
  λ h.
      let (i, n) = (In-missing_ids present rid (referenced_ids v)).0 h.1 in
      (ap name h.0, (In-referenced_ids rid v).0 i, n),
  λ h. (
    cc h.0,
    (In-missing_ids present rid (referenced_ids v)).1 ((In-referenced_ids rid v).1 h.1, h.2),
  ),
)

-- The loop returns, and names just the references that dangle.
dangling-Names :
    (present rest : Fields)
    → AreRecords rest
    → (hs : List (String × List String)) × (dangling present rest ≡ ok hs)
      × ((holder rid : String) → Names holder rid hs ↔ Dangles holder rid present rest)
      × EachHasIds hs
unfolding dangling
dangling-Names present end a = ([], refl, λ holder rid. (λ n. n, λ n. n), tt)
dangling-Names present (field (name s) (dict i fs) rest) a =
    let (hs, loop, named, filled) = dangling-Names present rest a in
    let v = state_of (dict i fs) in
    let ids = missing_ids present (referenced_ids v) in
    (
      note_missing s ids hs,
      rw loop refl,
      λ holder rid.
          both_ways (Names-note_missing holder rid s ids hs)
            (either (missing-Dangles present v holder rid s) (named holder rid)),
      EachHasIds-note_missing s ids hs filled,
    )
dangling-Names present (field (name s) null rest) a = elim a [ ]
dangling-Names present (field (name s) (bool b) rest) a = elim a [ ]
dangling-Names present (field (name s) (int z) rest) a = elim a [ ]
dangling-Names present (field (name s) (str t) rest) a = elim a [ ]
dangling-Names present (field (name s) (opaque z) rest) a = elim a [ ]
dangling-Names present (field (name s) (bytes b) rest) a = elim a [ ]
dangling-Names present (field (name s) (seq k i xs) rest) a = elim a [ ]
dangling-Names present (field (index z) v rest) a = elim a [ ]

returns_iff :
    (hs : List (String × List String)) (state : Fields)
    → ((holder rid : String) → Names holder rid hs ↔ Dangles holder rid state state)
    → EachHasIds hs
    → (raise_dangling hs ≡ ok tt) ↔ ((holder rid : String) → ¬ Dangles holder rid state state)
returns_iff [] state named h = (λ e holder rid d. (named holder rid).1 d, λ nothing. refl)
returns_iff ((k, []) ∷ hs) state named h = elim h [ ]
returns_iff ((k, r ∷ ids) ∷ hs) state named h =
    (λ e. cc e, λ nothing. elim (nothing k r ((named k r).0 (inl (refl, inl refl)))) [ ])

-- `check_references` of a document whose state is a dict of records returns just if no reference
-- dangles. Otherwise it raises with a list of holders, each with at least one id; the list names an
-- id under a holder just if the record of the holder refers to that id, at whatever depth of its
-- state, and the document has no model of that id.
pub check_references-Dangles :
    (doc state : Fields) (i : Ident)
    → lookup (name "state") doc ≡ some (dict i state)
    → AreRecords state
    → (hs : List (String × List String)) × (check_references doc ≡ raise_dangling hs)
      × ((holder rid : String) → Names holder rid hs ↔ Dangles holder rid state state)
      × EachHasIds hs
      × ((check_references doc ≡ ok tt)
          ↔ ((holder rid : String) → ¬ Dangles holder rid state state))
check_references-Dangles doc state i there records =
    let (hs, loop, named, filled) = dangling-Names state state records in
    let raised : check_references doc ≡ raise_dangling hs =
      rw (checked doc state i there, loop) refl in
    (hs, raised, named, filled, rw raised (returns_iff hs state named filled))
