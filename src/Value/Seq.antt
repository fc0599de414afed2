-- ===== src/Value/Seq.antt =====
-- Sequences by position: reading, writing, and Python's index arithmetic.
use cositos.Base.{
  ℕ, zero, suc, ◌-◌, ◌≡◌, refl, ap, Option, none, some, ltb, arith, ◌<◌, if◌then◌else◌,
}
use cositos.Value.{ℤ, pos, negsuc, Value, Items, nil, cons}

abbrev pub size : Items → ℕ
size nil = 0
size (cons x xs) = suc (size xs)

unfoldable pub get_item? : Items → ℕ → Option Value
get_item? nil n = none
get_item? (cons x xs) zero = some x
get_item? (cons x xs) (suc n) = get_item? xs n

-- A write out of bounds changes nothing; `position` below tests the bounds first.
unfoldable pub set_item : Items → ℕ → Value → Items
set_item nil n v = nil
set_item (cons x xs) zero v = cons v xs
set_item (cons x xs) (suc n) v = cons x (set_item xs n v)

-- The position that an index means in a sequence of a given length; a negative index counts from
-- the end, and an index out of range is none.
unfoldable pub position : ℕ → ℤ → Option ℕ
position len (pos n) = if ltb n len then some n else none
position len (negsuc n) = if ltb n len then some (len - suc n) else none

unfoldable pub append : Items → Items → Items
append nil ys = ys
append (cons x xs) ys = cons x (append xs ys)

pub append_assoc : (xs ys zs : Items) → append (append xs ys) zs ≡ append xs (append ys zs)
unfolding append
append_assoc nil ys zs = refl
append_assoc (cons x xs) ys zs = ap (cons x) (append_assoc xs ys zs)

pub append-nil : (xs : Items) → append xs nil ≡ xs
unfolding append
append-nil nil = refl
append-nil (cons x xs) = ap (cons x) (append-nil xs)

-- Writing just behind a prefix replaces the element there.
pub set_item-append :
    (ps : Items) (x y : Value) (xs : Items)
    → set_item (append ps (cons x xs)) (size ps) y ≡ append ps (cons y xs)
unfolding append set_item
set_item-append nil x y xs = refl
set_item-append (cons p ps) x y xs = ap (cons p) (set_item-append ps x y xs)

pub size-append_one : (xs : Items) (x : Value) → size (append xs (cons x nil)) ≡ suc (size xs)
unfolding append
size-append_one nil x = refl
size-append_one (cons y xs) x = ap suc (size-append_one xs x)

pub append_one :
    (xs : Items) (x : Value) (ys : Items)
    → append (append xs (cons x nil)) ys ≡ append xs (cons x ys)
unfolding append
append_one nil x ys = refl
append_one (cons y xs) x ys = ap (cons y) (append_one xs x ys)

pub get_item?-append :
    (ps : Items) (x : Value) (xs : Items) → get_item? (append ps (cons x xs)) (size ps) ≡ some x
unfolding append get_item?
get_item?-append nil x xs = refl
get_item?-append (cons p ps) x xs = get_item?-append ps x xs

lt_size : (ps : Items) (x : Value) (xs : Items) → size ps < size (append ps (cons x xs))
unfolding append
lt_size nil x xs = omega arith
lt_size (cons p ps) x xs = omega (arith, lt_size ps x xs)

-- The end of a prefix is a position, if something follows.
pub position-append :
    (ps : Items) (x : Value) (xs : Items)
    → position (size (append ps (cons x xs))) (pos (size ps)) ≡ some (size ps)
unfolding position
position-append ps x xs = ground (arith, lt_size ps x xs)
