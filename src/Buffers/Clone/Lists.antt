-- ===== src/Buffers/Clone/Lists.antt =====
-- The clone that the recursive walk makes of a list.
use cositos.Base.{ℕ, suc, ◌≡◌, sym, ◌||◌, Option, none, some, if◌then◌else◌, Bool-cases, inl, inr}
use cositos.Value.{
  pos, index, fresh, list_kind, Value, null, bytes, seq, dict, Items, nil, cons, SeqKind, Ident,
}
use cositos.Value.Seq.{size, set_item, append, set_item-append, size-append_one, append_one}
use cositos.Buffers.Recursive.{absorb, rebuild, update, rebuild_items}
use cositos.Buffers.Strip.{holds, holds_items, in_seq, strip, strip_items, inner, strip_same}

abbrev pub cloned_list : Items → Option Value
cloned_list xs = some (seq list_kind fresh xs)

-- Once the list is cloned, the walk of the elements that are left strips them in the clone.
abbrev pub StripsRest : Value → Items → Type 0
StripsRest self xs =
    (ps : Items) (n : ℕ)
    → n ≡ size ps
    → rebuild_items self n xs (cloned_list (append ps xs))
      ≡ cloned_list (append ps (strip_items xs))

-- One element on: `y` has been written in its place.
onward :
    (self : Value) (ps : Items) (x y : Value) (xs : Items) (n : ℕ)
    → n ≡ size ps
    → StripsRest self xs
    → rebuild_items self (suc n) xs (cloned_list (set_item (append ps (cons x xs)) n y))
      ≡ cloned_list (append ps (cons y (strip_items xs)))
onward self ps x y xs n e rest =
    rw (e, set_item-append, ← append_one ps y xs, ← append_one ps y (strip_items xs))
      (rest (append ps (cons y nil)) (suc (size ps)) (sym (size-append_one ps y)))

keep_on :
    (self : Value) (ps : Items) (x : Value) (xs : Items) (n : ℕ)
    → n ≡ size ps
    → StripsRest self xs
    → rebuild_items self (suc n) xs (cloned_list (append ps (cons x xs)))
      ≡ cloned_list (append ps (cons x (strip_items xs)))
keep_on self ps x xs n e rest =
    rw (← append_one ps x xs, ← append_one ps x (strip_items xs))
      (rest (append ps (cons x nil)) (suc n) (rw e (sym (size-append_one ps x))))

-- What the walk of a child leaves for its parent.
abbrev pub ClonesAs : Value → Type 0
ClonesAs v = rebuild v ≡ (if inner v then some (strip v) else none)

absorb_item :
    (self : Value) (ps : Items) (x : Value) (xs : Items) (n : ℕ)
    → n ≡ size ps
    → StripsRest self xs
    → rebuild_items self (suc n) xs (
        absorb self
          (index (pos n))
          (if inner x then some (strip x) else none)
          (cloned_list (append ps (cons x xs))))
      ≡ cloned_list (append ps (cons (strip x) (strip_items xs)))
absorb_item self ps x xs n e rest = elim (Bool-cases (inner x)) [
  | inl changed ↦ rw changed (onward self ps x (strip x) xs n e rest)
  | inr same ↦ rw (same, strip_same x same) (keep_on self ps x xs n e rest)
]

pub step_item :
    (self : Value) (ps : Items) (x : Value) (xs : Items) (n : ℕ)
    → n ≡ size ps
    → ClonesAs x
    → StripsRest self xs
    → rebuild_items self
        (suc n)
        xs
        (update self (index (pos n)) x (cloned_list (append ps (cons x xs))))
      ≡ cloned_list (append ps (cons (in_seq x (strip x)) (strip_items xs)))
unfolding rebuild strip
step_item self ps (bytes b) xs n e child rest = onward self ps (bytes b) null xs n e rest
step_item self ps (seq k i ys) xs n e child rest =
    rw child (absorb_item self ps (seq k i ys) xs n e rest)
step_item self ps (dict i fs) xs n e child rest =
    rw child (absorb_item self ps (dict i fs) xs n e rest)
step_item self ps x xs n e child rest = keep_on self ps x xs n e rest

-- The same from a list that has no clone yet: the first change makes it.
abbrev pub ClonesRest : Items → Type 0
ClonesRest xs =
    (k : SeqKind) (i : Ident) (ps : Items) (n : ℕ)
    → n ≡ size ps
    → rebuild_items (seq k i (append ps xs)) n xs none
      ≡ (if holds_items xs then cloned_list (append ps (strip_items xs)) else none)

pass_on :
    (k : SeqKind) (i : Ident) (ps : Items) (x : Value) (xs : Items) (n : ℕ)
    → n ≡ size ps
    → ClonesRest xs
    → rebuild_items (seq k i (append ps (cons x xs))) (suc n) xs none
      ≡ (if holds_items xs then cloned_list (append ps (cons x (strip_items xs))) else none)
pass_on k i ps x xs n e rest =
    rw (← append_one ps x xs, ← append_one ps x (strip_items xs))
      (rest k i (append ps (cons x nil)) (suc n) (rw e (sym (size-append_one ps x))))

absorb_first :
    (k : SeqKind) (i : Ident) (ps : Items) (x : Value) (xs : Items) (n : ℕ)
    → n ≡ size ps
    → ((self : Value) → StripsRest self xs)
    → ClonesRest xs
    → rebuild_items (seq k i (append ps (cons x xs))) (suc n) xs (
        absorb
          (seq k i (append ps (cons x xs)))
          (index (pos n))
          (if inner x then some (strip x) else none)
          none)
      ≡ (if inner x || holds_items xs
          then cloned_list (append ps (cons (strip x) (strip_items xs)))
          else none)
absorb_first k i ps x xs n e strips rest = elim (Bool-cases (inner x)) [
  | inl changed ↦ rw changed (onward _ ps x (strip x) xs n e (strips _))
  | inr same ↦ rw (same, strip_same x same) (pass_on k i ps x xs n e rest)
]

pub first_item :
    (k : SeqKind) (i : Ident) (ps : Items) (x : Value) (xs : Items) (n : ℕ)
    → n ≡ size ps
    → ClonesAs x
    → ((self : Value) → StripsRest self xs)
    → ClonesRest xs
    → rebuild_items
        (seq k i (append ps (cons x xs)))
        (suc n)
        xs
        (update (seq k i (append ps (cons x xs))) (index (pos n)) x none)
      ≡ (if holds x || holds_items xs
          then cloned_list (append ps (cons (in_seq x (strip x)) (strip_items xs)))
          else none)
unfolding rebuild strip holds
first_item k i ps (bytes b) xs n e child strips rest = onward _ ps (bytes b) null xs n e (strips _)
first_item k i ps (seq s j ys) xs n e child strips rest =
    rw child (absorb_first k i ps (seq s j ys) xs n e strips rest)
first_item k i ps (dict j fs) xs n e child strips rest =
    rw child (absorb_first k i ps (dict j fs) xs n e strips rest)
first_item k i ps x xs n e child strips rest = pass_on k i ps x xs n e rest
