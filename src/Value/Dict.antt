-- ===== src/Value/Dict.antt =====
-- `dict` with its entries in insertion order: `d.get(k)`, `d[k] = v`, `del d[k]`, `{**a, **b}`.
use cositos.Base.{
  ◌≡◌, false, refl, ap, first, Option, none, some, List, [], ◌∷◌, arith, if◌then◌else◌,
}
use cositos.Value.{Key, key_eq, key_eq_iff, key_eq_refl, Value, Fields, end, field}

-- `d.get(k)`
unfoldable pub lookup : Key → Fields → Option Value
lookup k end = none
lookup k (field j v fs) = if key_eq j k then some v else lookup k fs

-- `d[k] = v`: an entry that is there keeps its place, a new one goes last.
unfoldable pub insert : Key → Value → Fields → Fields
insert k v end = field k v end
insert k v (field j w fs) = if key_eq j k then field j v fs else field j w (insert k v fs)

-- `del d[k]`
unfoldable pub remove : Key → Fields → Fields
remove k end = end
remove k (field j w fs) = if key_eq j k then fs else field j w (remove k fs)

-- `{**a, **b}`: the entries of `b` are written over a copy of `a`, in the order of `b`.
unfoldable pub merge : Fields → Fields → Fields
merge a end = a
merge a (field k v b) = merge (insert k v a) b

-- `list(d)`
unfoldable pub keys : Fields → List Key
keys end = []
keys (field k v fs) = k ∷ keys fs

-- No key stands twice: what holds of every Python dict.
abbrev pub Distinct : Fields → Type 0
Distinct end = Unit
Distinct (field k v fs) = (lookup k fs ≡ none) × Distinct fs

pub lookup-insert :
    (k j : Key) (v : Value) (fs : Fields)
    → lookup j (insert k v fs) ≡ (if key_eq k j then some v else lookup j fs)
unfolding lookup insert
lookup-insert k j v end = refl
lookup-insert k j v (field i w fs) =
    ground (arith, key_eq_iff k j, key_eq_iff i k, key_eq_iff i j, lookup-insert k j v fs)

pub lookup-remove :
    (k j : Key) (fs : Fields)
    → Distinct fs
    → lookup j (remove k fs) ≡ (if key_eq k j then none else lookup j fs)
unfolding lookup remove
lookup-remove k j end d = ground arith
lookup-remove k j (field i w fs) d =
    ground (arith, key_eq_iff k j, key_eq_iff i k, key_eq_iff i j, lookup-remove k j fs d.1, d.0)

pub insert-Distinct : (k : Key) (v : Value) (fs : Fields) → Distinct fs → Distinct (insert k v fs)
unfolding insert
insert-Distinct k v end d = (unfold lookup in refl, tt)
insert-Distinct k v (field i w fs) d =
    ground
      (arith, insert-Distinct k v fs d.1, lookup-insert k i v fs, key_eq_iff i k, key_eq_iff k i)

pub merge-Distinct : (a b : Fields) → Distinct a → Distinct (merge a b)
unfolding merge
merge-Distinct a end d = d
merge-Distinct a (field k v b) d = merge-Distinct (insert k v a) b (insert-Distinct k v a d)

-- The right operand wins, and every other key is the left operand's.
pub lookup-merge :
    (k : Key) (a b : Fields) → Distinct b → lookup k (merge a b) ≡ first (lookup k b) (lookup k a)
unfolding merge lookup
lookup-merge k a end d = refl
lookup-merge k a (field j v b) d =
    ground (arith, lookup-merge k (insert j v a) b d.1, lookup-insert j k v a, key_eq_iff j k, d.0)

-- Two lists of entries, one after the other.
unfoldable pub append : Fields → Fields → Fields
append end gs = gs
append (field k v fs) gs = field k v (append fs gs)

pub append-end : (fs : Fields) → append fs end ≡ fs
unfolding append
append-end end = refl
append-end (field k v fs) = ap (field k v) (append-end fs)

pub append_one :
    (fs : Fields) (k : Key) (v : Value) (gs : Fields)
    → append (append fs (field k v end)) gs ≡ append fs (field k v gs)
unfolding append
append_one end k v gs = refl
append_one (field j w fs) k v gs = ap (field j w) (append_one fs k v gs)

pub lookup-append_one :
    (j : Key) (fs : Fields) (k : Key) (v : Value)
    → key_eq k j ≡ false
    → lookup j fs ≡ none
    → lookup j (append fs (field k v end)) ≡ none
unfolding lookup append
lookup-append_one j end k v ne h = rw ne
lookup-append_one j (field i w fs) k v ne h = ground (arith, lookup-append_one j fs k v ne)

-- Writing or deleting an entry that no earlier entry has the key of.
pub insert-append :
    (fs : Fields) (k : Key) (v w : Value) (gs : Fields)
    → lookup k fs ≡ none
    → insert k w (append fs (field k v gs)) ≡ append fs (field k w gs)
unfolding insert lookup append
insert-append end k v w gs h = rw key_eq_refl
insert-append (field j x fs) k v w gs h = ground (arith, insert-append fs k v w gs)

pub remove-append :
    (fs : Fields) (k : Key) (v : Value) (gs : Fields)
    → lookup k fs ≡ none
    → remove k (append fs (field k v gs)) ≡ append fs gs
unfolding remove lookup append
remove-append end k v gs h = rw key_eq_refl
remove-append (field j x fs) k v gs h = ground (arith, remove-append fs k v gs)

-- No key of the second stands in the first.
abbrev pub Apart : Fields → Fields → Type 0
Apart fs end = Unit
Apart fs (field k v gs) = (lookup k fs ≡ none) × Apart fs gs

pub Apart-end : (gs : Fields) → Apart end gs
unfolding lookup
Apart-end end = tt
Apart-end (field k v gs) = (refl, Apart-end gs)

pub Apart-append_one :
    (fs : Fields) (k : Key) (v : Value) (gs : Fields)
    → lookup k gs ≡ none
    → Apart fs gs
    → Apart (append fs (field k v end)) gs
unfolding lookup
Apart-append_one fs k v end h a = tt
Apart-append_one fs k v (field j w gs) h a =
    ground (
      arith,
      Apart-append_one fs k v gs,
      lookup-append_one j fs k v,
      key_eq_iff j k,
      key_eq_iff k j,
    )

pub lookup-append :
    (k : Key) (fs gs : Fields) → lookup k (append fs gs) ≡ first (lookup k fs) (lookup k gs)
unfolding lookup append
lookup-append k end gs = refl
lookup-append k (field j v fs) gs = ground (arith, lookup-append k fs gs)

-- A new entry goes last.
pub insert_new :
    (k : Key) (v : Value) (fs : Fields)
    → lookup k fs ≡ none
    → insert k v fs ≡ append fs (field k v end)
unfolding insert lookup append
insert_new k v end h = refl
insert_new k v (field j w fs) h = ground (arith, insert_new k v fs)

pub append_assoc : (fs gs hs : Fields) → append (append fs gs) hs ≡ append fs (append gs hs)
unfolding append
append_assoc end gs hs = refl
append_assoc (field k v fs) gs hs = ap (field k v) (append_assoc fs gs hs)
