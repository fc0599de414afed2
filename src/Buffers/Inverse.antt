-- ===== src/Buffers/Inverse.antt =====
-- The restored value says the same as the value, and the round trip through both functions.
use cositos.Base.{ℕ, zero, suc, ◌≡◌, refl, none, Bool-cases, inl, inr, arith}
use cositos.Value.{
  Key, Address, fresh, list_kind, Bytes, Value, null, bool, int, str, opaque, bytes, seq, dict,
  Items, nil, cons, Fields, end, field, key_eq, key_eq_iff, key_eq_refl,
}
use cositos.Value.Dict
use cositos.Value.Dict.{lookup, Distinct, lookup-append}
use cositos.Value.Seq.{get_item?}
use cositos.Value.View.{Same, seq-Same, dict-Same, view, view_opt}
use cositos.Errors.{Result, ok, ◌>>=◌}
use cositos.Buffers.{remove_buffers}
use cositos.Buffers.Strip.{holds_items, holds_fields, Tidy, TidyItems, TidyFields}
use cositos.Buffers.Removed.{split_of}
use cositos.Buffers.Restore.{restore, restore_items, restore_fields, binary_fields}
use cositos.Buffers.Put.{put_buffers}
use cositos.Buffers.Accepts.{IsAccepted, remove_buffers-IsAccepted}
use cositos.Buffers.RoundTrip.{put_buffers-strip}

absent-restore : (k : Key) (fs : Fields) → lookup k fs ≡ none → lookup k (restore_fields fs) ≡ none
unfolding restore lookup
absent-restore k end h = refl
absent-restore k (field j (bytes b) fs) h = absent-restore k fs (ground arith)
absent-restore k (field j v fs) h = ground (arith, absent-restore k fs)

-- One entry on, for a key that is looked up.
abbrev Agree : Address → Key → Fields → Fields → Type 0
Agree q k fs gs = view_opt (view q) (lookup k fs) ≡ view_opt (view q) (lookup k gs)

found_other :
    (q : Address) (k j : Key) (v w : Value) (fs gs : Fields)
    → view q v ≡ view q w
    → Agree q k fs gs
    → Agree q k (field j v fs) (field j w gs)
unfolding lookup
found_other q k j v w fs gs here rest = elim (Bool-cases (key_eq j k)) [
  | inl hit ↦ rw hit here
  | inr miss ↦ rw miss rest
]

found_binary :
    (q : Address) (k j : Key) (b : Bytes) (fs gs hs : Fields)
    → lookup j gs ≡ none
    → Agree q k fs (Dict.append gs hs)
    → Agree q k (field j (bytes b) fs) (Dict.append gs (field j (bytes b) hs))
found_binary q k j b fs gs hs new rest = elim (Bool-cases (key_eq j k)) [
  | inl hit ↦ rw (lookup-append, ← (key_eq_iff j k).0 hit, new) (unfold lookup in rw key_eq_refl)
  | inr miss ↦ rw lookup-append (unfold lookup in rw miss (rw lookup-append at rest))
]

found_entry :
    (q : Address) (k j : Key) (v : Value) (fs : Fields)
    → lookup j fs ≡ none
    → view q v ≡ view q (restore v)
    → Agree q k fs (Dict.append (restore_fields fs) (binary_fields fs))
    → Agree q k
        (field j v fs)
        (Dict.append (restore_fields (field j v fs)) (binary_fields (field j v fs)))
unfolding restore binary_fields Dict.append
found_entry q k j (bytes b) fs new here rest =
    found_binary q k j b fs (restore_fields fs) (binary_fields fs) (absent-restore j fs new) rest
found_entry q k j v fs new here rest = found_other q k j v _ fs _ here rest

mutual
  unfolding restore get_item? binary_fields Dict.append

  restore-Same : (v : Value) → Tidy v → Same v (restore v)
  restore-Same null t p = refl
  restore-Same (bool b) t p = refl
  restore-Same (int z) t p = refl
  restore-Same (str s) t p = refl
  restore-Same (opaque n) t p = refl
  restore-Same (bytes b) t p = refl
  restore-Same (seq k i xs) t p = elim (Bool-cases (holds_items xs)) [
    | inl h ↦ rw h (seq-Same k list_kind i fresh xs (restore_items xs) (same_items xs t) p)
    | inr h ↦ rw h
  ]
  restore-Same (dict i fs) t p = elim (Bool-cases (holds_fields fs)) [
    | inl h ↦ rw h (dict-Same i fresh fs _ (same_fields fs t.0 t.1) p)
    | inr h ↦ rw h
  ]

  same_items :
      (xs : Items)
      → TidyItems xs
      → (q : Address) (n : ℕ)
      → view_opt (view q) (get_item? xs n) ≡ view_opt (view q) (get_item? (restore_items xs) n)
  same_items nil t q n = refl
  same_items (cons x xs) t q zero = restore-Same x t.0 q
  same_items (cons x xs) t q (suc n) = same_items xs t.1 q n

  same_fields :
      (fs : Fields)
      → Distinct fs
      → TidyFields fs
      → (q : Address) (k : Key) → Agree q k fs (Dict.append (restore_fields fs) (binary_fields fs))
  same_fields end d t q k = refl
  same_fields (field j v fs) d t q k =
      found_entry q k j v fs d.0 (restore-Same v t.0 q) (same_fields fs d.1 t.1 q k)

-- The split and its inverse, as a program would call them.
abbrev pub round_trip : Value → Result Value
round_trip v = do s ← remove_buffers v; put_buffers s.state s.buffer_paths s.buffers

-- Taking the binary values out of an accepted state raises nothing, and putting them back raises
-- nothing and gives a state that says the same as the first: every leaf and every container stands
-- at the address where it stood, the binary values among them.
pub put_buffers-remove_buffers :
    (v : Value) → IsAccepted v → (w : Value) × (round_trip v ≡ ok w) × Same v w
unfolding split_of
put_buffers-remove_buffers v h = (
  restore v,
  rw (remove_buffers-IsAccepted v h) (put_buffers-strip v h.tidy),
  restore-Same v h.tidy,
)
