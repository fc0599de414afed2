-- ===== src/Buffers/Examples.antt =====
-- Tests of the split and its inverse, and the theorems at a concrete state.
use cositos.Base.{◌≡◌, refl, ◌≤◌, ◌↔◌, suc, arith, [], ◌∷◌}
use cositos.Value.{
  pos, name, index, key_eq, object, fresh, ident_mem, list_kind, tuple_kind, Value, null, int,
  bytes, seq, dict, nil, cons, end, field,
}
use cositos.Value.Dict.{lookup, remove, insert}
use cositos.Value.Seq.{set_item}
use cositos.Value.View.{Same}
use cositos.Errors.{ok, err, cyclic}
use cositos.Buffers.{max_depth, Split, remove_buffers, separate, run, cost}
use cositos.Buffers.Recursive.{recursive}
use cositos.Buffers.Walk.{separate-eq-recursive}
use cositos.Buffers.Strip.{Tidy, holds}
use cositos.Buffers.Stripped.{remove_buffers-untouched}
use cositos.Buffers.Removed.{split_of, fault_of, unless_fault, remove_buffers-eq-split_of}
use cositos.Buffers.Faults.{height, Acyclic}
use cositos.Buffers.Accepts.{IsAccepted, remove_buffers-ok_iff}
use cositos.Buffers.Located.{Located, remove_buffers-Located}
use cositos.Buffers.Inverse.{round_trip, put_buffers-remove_buffers}

-- {"img": b"\x01\x02", "rows": [b"\x03", 4, {"t": (b"\x05",)}], "n": 7}
abbrev pub sample : Value
sample = dict (object 1) (
    field (name "img") (bytes (1 ∷ 2 ∷ [])) (
      field (name "rows")
        (seq list_kind (object 2) (
          cons (bytes (3 ∷ [])) (
            cons (int (pos 4)) (
              cons
                (dict (object 3)
                  (field (name "t") (seq tuple_kind (object 4) (cons (bytes (5 ∷ [])) nil)) end))
                nil))))
        (field (name "n") (int (pos 7)) end)))

-- The binary entry of the dict is gone, those of the sequences leave a placeholder, the tuple has
-- become a list, and each container on the way is a copy.
remove_buffers-sample :
    remove_buffers sample
    ≡ ok (record {
      state = dict fresh (
          field
            (name "rows")
            (seq list_kind fresh (
              cons null (
                cons (int (pos 4)) (
                  cons
                    (dict fresh (field (name "t") (seq list_kind fresh (cons null nil)) end))
                    nil))))
            (field (name "n") (int (pos 7)) end));
      buffer_paths =
          (name "img" ∷ [])
          ∷ (name "rows" ∷ index (pos 0) ∷ [])
          ∷ (name "rows" ∷ index (pos 2) ∷ name "t" ∷ index (pos 0) ∷ [])
          ∷ [];
      buffers = (1 ∷ 2 ∷ []) ∷ (3 ∷ []) ∷ (5 ∷ []) ∷ [];
    })
unfolding remove_buffers run cost max_depth ident_mem insert remove set_item key_eq
remove_buffers-sample = refl

-- A list that holds itself.
abbrev knot : Value
knot =
    dict (object 1)
      (field (name "a") (seq list_kind (object 2) (cons (seq list_kind (object 2) nil) nil)) end)

remove_buffers-knot : remove_buffers knot ≡ err (cyclic (name "a" ∷ []))
unfolding remove_buffers run cost max_depth ident_mem
remove_buffers-knot = refl

-- One list at two places is no cycle.
abbrev shared : Value
shared = dict (object 1) (
    field (name "a") (seq list_kind (object 2) nil)
      (field (name "b") (seq list_kind (object 2) nil) end))

remove_buffers-shared :
    remove_buffers shared ≡ ok (record { state = shared; buffer_paths = []; buffers = [] })
unfolding remove_buffers run cost max_depth ident_mem
remove_buffers-shared = refl

sample-Tidy : Tidy sample
unfolding lookup key_eq
sample-Tidy = ground arith

pub sample-IsAccepted : IsAccepted sample
unfolding height max_depth ident_mem
sample-IsAccepted = record { tidy = sample-Tidy; shallow = omega arith; acyclic = ground arith }

-- A state with no binary value.
abbrev plain : Value
plain = dict (object 1) (field (name "n") (seq tuple_kind (object 2) (cons (int (pos 7)) nil)) end)

plain-IsAccepted : IsAccepted plain
unfolding height max_depth ident_mem lookup key_eq
plain-IsAccepted = record { tidy = ground arith; shallow = omega arith; acyclic = ground arith }

separate-eq-recursive_example :
    separate sample [] (record { paths = []; buffers = [] }) [] 0
    ≡ recursive sample [] (record { paths = []; buffers = [] }) [] 0
separate-eq-recursive_example =
    separate-eq-recursive sample [] (record { paths = []; buffers = [] }) [] 0

remove_buffers-eq-split_of_example :
    remove_buffers sample ≡ unless_fault (fault_of sample) (split_of sample)
remove_buffers-eq-split_of_example = remove_buffers-eq-split_of sample sample-Tidy

remove_buffers-ok_iff_example :
    ((s : Split) × (remove_buffers sample ≡ ok s))
    ↔ ((height sample ≤ suc max_depth) × Acyclic [] sample)
remove_buffers-ok_iff_example = remove_buffers-ok_iff sample sample-Tidy

remove_buffers-Located_example :
    (s : Split) × (remove_buffers sample ≡ ok s)
    × Located (suc max_depth) sample s.buffer_paths s.buffers
remove_buffers-Located_example = remove_buffers-Located sample sample-IsAccepted

put_buffers-remove_buffers_example : (w : Value) × (round_trip sample ≡ ok w) × Same sample w
put_buffers-remove_buffers_example = put_buffers-remove_buffers sample sample-IsAccepted

remove_buffers-untouched_example :
    remove_buffers plain ≡ ok (record { state = plain; buffer_paths = []; buffers = [] })
unfolding holds
remove_buffers-untouched_example = remove_buffers-untouched plain plain-IsAccepted refl
