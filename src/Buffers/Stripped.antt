-- ===== src/Buffers/Stripped.antt =====
-- What is left of a state after its binary values are taken out.
use cositos.Base.{◌≡◌, refl, false, [], Bool-cases, inl, inr}
use cositos.Value.{
  Key, Value, null, bool, int, str, opaque, bytes, seq, dict, Items, nil, cons, Fields, end, field,
}
use cositos.Errors.{ok}
use cositos.Buffers.{remove_buffers, Split}
use cositos.Buffers.Strip.{
  holds, holds_items, holds_fields, inner, in_seq, in_dict, strip, strip_items, strip_fields,
}
use cositos.Buffers.Removed.{split_of}
use cositos.Buffers.Strip.{strip_same}
use cositos.Buffers.Places.{places, payloads}
use cositos.Buffers.Accepts.{IsAccepted, remove_buffers-IsAccepted}
use cositos.Buffers.Paired.{nothing_items, nothing_fields}

element_none :
    (x : Value) (xs : Items)
    → inner (strip x) ≡ false
    → holds_items xs ≡ false
    → holds_items (cons (in_seq x (strip x)) xs) ≡ false
unfolding holds strip
element_none (bytes b) xs h k = k
element_none (seq s i ys) xs h k = elim (Bool-cases (holds_items ys)) [
  | inl c ↦ rw (c, (rw c at h)) k
  | inr c ↦ rw (c, c) k
]
element_none (dict i fs) xs h k = elim (Bool-cases (holds_fields fs)) [
  | inl c ↦ rw (c, (rw c at h)) k
  | inr c ↦ rw (c, c) k
]
element_none x xs h k = k

entry_none :
    (j : Key) (x : Value) (fs : Fields)
    → inner (strip x) ≡ false
    → holds_fields fs ≡ false
    → holds_fields (in_dict j x (strip x) fs) ≡ false
unfolding holds strip
entry_none j (bytes b) gs h k = k
entry_none j (seq s i ys) gs h k = elim (Bool-cases (holds_items ys)) [
  | inl c ↦ rw (c, (rw c at h)) k
  | inr c ↦ rw (c, c) k
]
entry_none j (dict i fs) gs h k = elim (Bool-cases (holds_fields fs)) [
  | inl c ↦ rw (c, (rw c at h)) k
  | inr c ↦ rw (c, c) k
]
entry_none j x gs h k = k

mutual
  unfolding strip holds

  strip_none : (v : Value) → inner (strip v) ≡ false
  strip_none null = refl
  strip_none (bool b) = refl
  strip_none (int z) = refl
  strip_none (str s) = refl
  strip_none (opaque n) = refl
  strip_none (bytes b) = refl
  strip_none (seq k i xs) = elim (Bool-cases (holds_items xs)) [
    | inl h ↦ rw h (strip_items_none xs)
    | inr h ↦ rw h h
  ]
  strip_none (dict i fs) = elim (Bool-cases (holds_fields fs)) [
    | inl h ↦ rw h (strip_fields_none fs)
    | inr h ↦ rw h h
  ]

  strip_items_none : (xs : Items) → holds_items (strip_items xs) ≡ false
  strip_items_none nil = refl
  strip_items_none (cons x xs) =
      element_none x (strip_items xs) (strip_none x) (strip_items_none xs)

  strip_fields_none : (fs : Fields) → holds_fields (strip_fields fs) ≡ false
  strip_fields_none end = refl
  strip_fields_none (field k v fs) =
      entry_none k v (strip_fields fs) (strip_none v) (strip_fields_none fs)

-- The state that `remove_buffers` returns holds no binary value, unless it was given a bare one.
pub remove_buffers-holds :
    (v : Value) → IsAccepted v → (s : Split) × (remove_buffers v ≡ ok s) × (inner s.state ≡ false)
unfolding split_of
remove_buffers-holds v h = (split_of v, remove_buffers-IsAccepted v h, strip_none v)

-- An accepted state that holds no binary value inside comes back itself, not as a copy, with no
-- address and no buffer.
pub remove_buffers-untouched :
    (v : Value)
    → IsAccepted v
    → inner v ≡ false
    → remove_buffers v ≡ ok (record { state = v; buffer_paths = []; buffers = [] })
unfolding split_of places payloads holds
remove_buffers-untouched (seq k i xs) h none_inside = rw (
  remove_buffers-IsAccepted (seq k i xs) h,
  strip_same (seq k i xs) none_inside,
  (nothing_items 0 xs none_inside).0,
  (nothing_items 0 xs none_inside).1,
)
remove_buffers-untouched (dict i fs) h none_inside = rw (
  remove_buffers-IsAccepted (dict i fs) h,
  strip_same (dict i fs) none_inside,
  (nothing_fields fs none_inside).0,
  (nothing_fields fs none_inside).1,
)
remove_buffers-untouched null h none_inside = unfold strip in remove_buffers-IsAccepted null h
remove_buffers-untouched v h none_inside = unfold strip in remove_buffers-IsAccepted v h
