-- ===== src/Serialize/References/Resolved.antt =====
-- `check_references` against what it means to refer to a model.
use cositos.Base.{
  String, ◌≡◌, ◌≢◌, refl, ap, ◌↔◌, ◌⊎◌, inl, inr, Option, none, some, List, [], ◌∷◌, ◌++◌, arith,
  Option-cases,
}
use cositos.Value.{
  Ident, name, index, Value, null, bool, int, str, opaque, bytes, seq, dict, Items, nil, cons,
  Fields, end, field,
}
use cositos.Value.Dict.{lookup}
use cositos.Errors.{ok, ◌>>=◌}
use cositos.Protocol.{get_or, empty_dict}
use cositos.Serialize.References.{
  model_ref, to_list, referenced_ids, item_ids, field_ids, insert_sorted, missing_ids,
  insert_holder, note_missing, dangling, raise_dangling, check_state, check_references,
}

-- Some text in the value is a reference to the model.
abbrev mutual
  pub RefersTo : String → Value → Type 0
  RefersTo rid (str s) = model_ref s ≡ some rid
  RefersTo rid (dict i fs) = SomeField rid fs
  RefersTo rid (seq k i xs) = SomeItem rid xs
  RefersTo rid v = ⊥

  pub SomeItem : String → Items → Type 0
  SomeItem rid nil = ⊥
  SomeItem rid (cons x xs) = RefersTo rid x ⊎ SomeItem rid xs

  pub SomeField : String → Fields → Type 0
  SomeField rid end = ⊥
  SomeField rid (field k v fs) = RefersTo rid v ⊎ SomeField rid fs

abbrev pub In : String → List String → Type 0
In rid [] = ⊥
In rid (r ∷ rs) = (r ≡ rid) ⊎ In rid rs

In-append : (rid : String) (rs ss : List String) → In rid (rs ++ ss) ↔ (In rid rs ⊎ In rid ss)
In-append rid [] ss = (λ h. inr h, λ h. elim h [ inl n ↦ elim n [ ] | inr i ↦ i ])
In-append rid (r ∷ rs) ss = (
  λ h. elim h [
    | inl here ↦ inl (inl here)
    | inr later ↦ elim ((In-append rid rs ss).0 later) [ inl l ↦ inl (inr l) | inr l ↦ inr l ]
  ],
  λ h. elim h [
    | inl l ↦ elim l [ inl here ↦ inl here | inr later ↦ inr ((In-append rid rs ss).1 (inl later)) ]
    | inr l ↦ inr ((In-append rid rs ss).1 (inr l))
  ],
)

In-to_list : (rid : String) (o : Option String) → In rid (to_list o) ↔ (o ≡ some rid)
In-to_list rid none = (λ h. elim h [ ], λ h. cc h)
In-to_list rid (some s) = (λ h. elim h [ inl e ↦ ap some e | inr n ↦ elim n [ ] ], λ h. inl (cc h))

-- Two parts, each of which is in step.
pub either : {P Q R S : Type 0} → (P ↔ Q) → (R ↔ S) → (P ⊎ R) ↔ (Q ⊎ S)
either f g = (
  λ h. elim h [ inl p ↦ inl (f.0 p) | inr r ↦ inr (g.0 r) ],
  λ h. elim h [ inl q ↦ inl (f.1 q) | inr s ↦ inr (g.1 s) ],
)

pub both_ways : {P Q R : Type 0} → (P ↔ Q) → (Q ↔ R) → P ↔ R
both_ways f g = (λ p. g.0 (f.0 p), λ r. f.1 (g.1 r))

nothing : {P : Type 0} → (P → ⊥) → P ↔ ⊥
nothing f = (f, λ n. elim n [ ])

mutual
  unfolding referenced_ids

  pub In-referenced_ids : (rid : String) (v : Value) → In rid (referenced_ids v) ↔ RefersTo rid v
  In-referenced_ids rid (str s) = In-to_list rid (model_ref s)
  In-referenced_ids rid (dict i fs) = In-field_ids rid fs
  In-referenced_ids rid (seq k i xs) = In-item_ids rid xs
  In-referenced_ids rid null = nothing (λ n. n)
  In-referenced_ids rid (bool b) = nothing (λ n. n)
  In-referenced_ids rid (int z) = nothing (λ n. n)
  In-referenced_ids rid (opaque z) = nothing (λ n. n)
  In-referenced_ids rid (bytes b) = nothing (λ n. n)

  In-item_ids : (rid : String) (xs : Items) → In rid (item_ids xs) ↔ SomeItem rid xs
  In-item_ids rid nil = nothing (λ n. n)
  In-item_ids rid (cons x xs) =
      both_ways (In-append rid (referenced_ids x) (item_ids xs))
        (either (In-referenced_ids rid x) (In-item_ids rid xs))

  In-field_ids : (rid : String) (fs : Fields) → In rid (field_ids fs) ↔ SomeField rid fs
  In-field_ids rid end = nothing (λ n. n)
  In-field_ids rid (field k v fs) =
      both_ways (In-append rid (referenced_ids v) (field_ids fs))
        (either (In-referenced_ids rid v) (In-field_ids rid fs))

insert_sorted-cons : (s : String) (ts : List String) → insert_sorted s ts ≢ []
unfolding insert_sorted
insert_sorted-cons s [] h = cc h
insert_sorted-cons s (t ∷ ts) h = ground (arith, h)

insert_holder-cons :
    (h : String × List String) (hs : List (String × List String)) → insert_holder h hs ≢ []
unfolding insert_holder
insert_holder-cons h [] e = cc e
insert_holder-cons h (g ∷ hs) e = ground (arith, e)

missing_ids-nil :
    (present : Fields) (rids : List String)
    → (missing_ids present rids ≡ [])
      ↔ ((rid : String) → In rid rids → lookup (name rid) present ≢ none)
unfolding missing_ids
missing_ids-nil present [] = (λ h rid i. elim i [ ], λ h. refl)
missing_ids-nil present (r ∷ rids) = elim (Option-cases (lookup (name r) present)) [
  | inl none_there ↦
      rw (none_there, missing_ids)
        (λ h. elim (insert_sorted-cons r _ h) [ ], λ h. elim (h r (inl refl) none_there) [ ])
  | inr (v, there) ↦
      rw (there, missing_ids)
        (
          λ h rid i. elim i [
            | inl e ↦ λ n. cc (n, there, e)
            | inr later ↦ (missing_ids-nil present rids).0 h rid later
          ],
          λ h. (missing_ids-nil present rids).1 (λ rid i. h rid (inr i)),
        )
]

-- The state that a record holds.
abbrev pub state_of : Value → Value
state_of (dict i fs) = get_or fs (name "state") empty_dict
state_of v = empty_dict

-- The records of a document as JSON has them: dicts, under texts.
abbrev pub AreRecords : Fields → Type 0
AreRecords end = Unit
AreRecords (field (name s) (dict i fs) rest) = AreRecords rest
AreRecords (field k v rest) = ⊥

-- Each model that a record's state refers to is there.
abbrev pub Resolved : Fields → Fields → Type 0
Resolved present end = Unit
Resolved present (field k r rest) =
    ((rid : String) → RefersTo rid (state_of r) → lookup (name rid) present ≢ none)
    × Resolved present rest

note_missing-nil :
    (holder : String) (ids : List String) (hs : List (String × List String))
    → (note_missing holder ids hs ≡ []) ↔ ((ids ≡ []) × (hs ≡ []))
note_missing-nil holder [] hs = (λ h. (refl, h), λ h. h.1)
note_missing-nil holder (rid ∷ ids) hs =
    (λ h. elim (insert_holder-cons (holder, rid ∷ ids) hs h) [ ], λ h. cc h.0)

missing-Resolved :
    (present : Fields) (v : Value)
    → (missing_ids present (referenced_ids v) ≡ [])
      ↔ ((rid : String) → RefersTo rid v → lookup (name rid) present ≢ none)
missing-Resolved present v = (
  λ h rid i. (missing_ids-nil present (referenced_ids v)).0 h rid ((In-referenced_ids rid v).1 i),
  λ h.
      (missing_ids-nil present (referenced_ids v)).1
        (λ rid i. h rid ((In-referenced_ids rid v).0 i)),
)

-- The loop returns, and notes nothing just if each reference is resolved.
dangling-Resolved :
    (present rest : Fields)
    → AreRecords rest
    → (hs : List (String × List String)) × (dangling present rest ≡ ok hs)
      × ((hs ≡ []) ↔ Resolved present rest)
unfolding dangling
dangling-Resolved present end a = ([], refl, (λ h. tt, λ h. refl))
dangling-Resolved present (field (name s) (dict i fs) rest) a =
    let (hs, loop, clean) = dangling-Resolved present rest a in
    let v = get_or fs (name "state") empty_dict in
    let ids = missing_ids present (referenced_ids v) in
    (
      note_missing s ids hs,
      rw loop refl,
      (
        λ h.
            let (none_missing, none_noted) = (note_missing-nil s ids hs).0 h in
            ((missing-Resolved present v).0 none_missing, clean.0 none_noted),
        λ h. (note_missing-nil s ids hs).1 ((missing-Resolved present v).1 h.0, clean.1 h.1),
      ),
    )
dangling-Resolved present (field (name s) null rest) a = elim a [ ]
dangling-Resolved present (field (name s) (bool b) rest) a = elim a [ ]
dangling-Resolved present (field (name s) (int z) rest) a = elim a [ ]
dangling-Resolved present (field (name s) (str t) rest) a = elim a [ ]
dangling-Resolved present (field (name s) (opaque z) rest) a = elim a [ ]
dangling-Resolved present (field (name s) (bytes b) rest) a = elim a [ ]
dangling-Resolved present (field (name s) (seq k i xs) rest) a = elim a [ ]
dangling-Resolved present (field (index z) v rest) a = elim a [ ]

raise_dangling-ok : (hs : List (String × List String)) → (raise_dangling hs ≡ ok tt) ↔ (hs ≡ [])
raise_dangling-ok [] = (λ h. refl, λ h. refl)
raise_dangling-ok (h ∷ hs) = (λ e. cc e, λ e. cc e)

pub checked :
    (doc state : Fields) (i : Ident)
    → lookup (name "state") doc ≡ some (dict i state)
    → check_references doc ≡ (dangling state state >>= raise_dangling)
unfolding check_references
checked doc state i there = ap (λ o. check_state (elim o [ none ↦ empty_dict | some v ↦ v ])) there

-- `check_references` of a document whose state is a dict of records accepts it just if each text of
-- a record's state that refers to a model, at whatever depth, names a model of the document.
pub check_references-ok_iff :
    (doc state : Fields) (i : Ident)
    → lookup (name "state") doc ≡ some (dict i state)
    → AreRecords state
    → (check_references doc ≡ ok tt) ↔ Resolved state state
check_references-ok_iff doc state i there records =
    let (hs, loop, clean) = dangling-Resolved state state records in
    rw (checked doc state i there, loop) (both_ways (raise_dangling-ok hs) clean)
