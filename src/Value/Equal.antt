-- ===== src/Value/Equal.antt =====
-- Python's `==` of two values, by which the examples compare states.
use text.Mathlib.Text.{◌==◌}
use cositos.Base.{ℕ, suc, Bool, true, false, ◌&&◌, nat_eq, Option, none, some, [], ◌∷◌}
use cositos.Value.{
  ℤ, pos, SeqKind, list_kind, tuple_kind, Bytes, Value, null, bool, int, str, opaque, bytes, seq,
  dict, Items, nil, cons, Fields, end, field,
}
use cositos.Value.Keys.{int_eq}
use cositos.Value.Dict.{lookup}

-- The number that a value equals, if it is a whole number or a Boolean.
abbrev pub number_of : Value → Option ℤ
number_of (bool true) = some (pos 1)
number_of (bool false) = some (pos 0)
number_of (int z) = some z
number_of v = none

abbrev same_bytes : Bytes → Bytes → Bool
same_bytes [] [] = true
same_bytes (a ∷ xs) (b ∷ ys) = nat_eq a b && same_bytes xs ys
same_bytes xs ys = false

abbrev same_kind : SeqKind → SeqKind → Bool
same_kind list_kind list_kind = true
same_kind tuple_kind tuple_kind = true
same_kind s t = false

abbrev count : Fields → ℕ
count end = 0
count (field k v fs) = suc (count fs)

abbrev same_number : Option ℤ → Option ℤ → Bool
same_number (some a) (some b) = int_eq a b
same_number a b = false

-- `==` of two values; another leaf equals just itself.
unfoldable mutual
  pub equal : Value → Value → Bool
  equal null null = true
  equal (str s) (str t) = s == t
  equal (opaque m) (opaque n) = nat_eq m n
  equal (bytes a) (bytes b) = same_bytes a b
  equal (seq s i xs) (seq t j ys) = same_kind s t && equal_items xs ys
  equal (dict i xs) (dict j ys) = nat_eq (count xs) (count ys) && equal_fields xs ys
  equal v w = same_number (number_of v) (number_of w)

  pub equal_items : Items → Items → Bool
  equal_items nil nil = true
  equal_items (cons x xs) (cons y ys) = equal x y && equal_items xs ys
  equal_items xs ys = false

  pub equal_fields : Fields → Fields → Bool
  equal_fields end ys = true
  equal_fields (field k x xs) ys = elim (lookup k ys) [
    | none ↦ false
    | some y ↦ equal x y && equal_fields xs ys
  ]
