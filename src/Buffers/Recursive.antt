-- ===== src/Buffers/Recursive.antt =====
-- The recursive walk that the loop of `_separate` stands for: its errors, what it appends to the two
-- lists, and the clones that it makes.
use cositos.Base.{ℕ, suc, Option, none, some, List, [], ◌∷◌, ◌++◌, ltb, first, if◌then◌else◌}
use cositos.Value.{
  pos, Key, index, Address, Ident, ident_mem, Value, null, bool, int, str, opaque, bytes, seq, dict,
  Items, nil, cons, Fields, end, field,
}
use cositos.Errors.{Error, too_deep, cyclic, Result, ok, err}
use cositos.Buffers.{max_depth, store, extract_binary, clone_or, Out, record_buffer}

-- The first error of the walk, in the order of the entries, if there is one: of an entry at `key`
-- of a container at `path` and `depth`, whose ancestors and itself are `anc`.
unfoldable mutual
  pub fault : Address → List Ident → ℕ → Key → Value → Option Error
  fault path anc depth key (seq k i xs) =
      if ltb max_depth (suc depth)
      then some (too_deep path)
      else if ident_mem i anc
      then some (cyclic path)
      else fault_items (path ++ key ∷ []) (anc ++ i ∷ []) (suc depth) 0 xs
  fault path anc depth key (dict i fs) =
      if ltb max_depth (suc depth)
      then some (too_deep path)
      else if ident_mem i anc
      then some (cyclic path)
      else fault_fields (path ++ key ∷ []) (anc ++ i ∷ []) (suc depth) fs
  fault path anc depth key null = none
  fault path anc depth key (bool b) = none
  fault path anc depth key (int z) = none
  fault path anc depth key (str s) = none
  fault path anc depth key (opaque n) = none
  fault path anc depth key (bytes b) = none

  pub fault_items : Address → List Ident → ℕ → ℕ → Items → Option Error
  fault_items path anc depth n nil = none
  fault_items path anc depth n (cons x xs) =
      first (fault path anc depth (index (pos n)) x) (fault_items path anc depth (suc n) xs)

  pub fault_fields : Address → List Ident → ℕ → Fields → Option Error
  fault_fields path anc depth end = none
  fault_fields path anc depth (field k v fs) =
      first (fault path anc depth k v) (fault_fields path anc depth fs)

-- What the walk appends to the two lists.
unfoldable mutual
  pub note : Address → Key → Value → Out → Out
  note path key (seq k i xs) out = note_items (path ++ key ∷ []) 0 xs out
  note path key (dict i fs) out = note_fields (path ++ key ∷ []) fs out
  note path key (bytes b) out = record_buffer out (path ++ key ∷ []) b
  note path key null out = out
  note path key (bool b) out = out
  note path key (int z) out = out
  note path key (str s) out = out
  note path key (opaque n) out = out

  pub note_items : Address → ℕ → Items → Out → Out
  note_items path n nil out = out
  note_items path n (cons x xs) out = note_items path (suc n) xs (note path (index (pos n)) x out)

  pub note_fields : Address → Fields → Out → Out
  note_fields path end out = out
  note_fields path (field k v fs) out = note_fields path fs (note path k v out)

-- The clone of a container, if there is one, after a walk of an entry with a result of its own.
abbrev pub absorb : Value → Key → Option Value → Option Value → Option Value
absorb self key none c = c
absorb self key (some r) c = some (store (clone_or c self) key r)

-- The clone that the walk of a value makes, and the clone of the container `self` after the walk
-- of the entries that are left.
unfoldable mutual
  pub rebuild : Value → Option Value
  rebuild (seq k i xs) = rebuild_items (seq k i xs) 0 xs none
  rebuild (dict i fs) = rebuild_fields (dict i fs) fs none
  rebuild null = none
  rebuild (bool b) = none
  rebuild (int z) = none
  rebuild (str s) = none
  rebuild (opaque n) = none
  rebuild (bytes b) = none

  pub update : Value → Key → Value → Option Value → Option Value
  update self key (bytes b) c = some (extract_binary (clone_or c self) key)
  update self key (seq k i xs) c = absorb self key (rebuild_items (seq k i xs) 0 xs none) c
  update self key (dict i fs) c = absorb self key (rebuild_fields (dict i fs) fs none) c
  update self key null c = c
  update self key (bool b) c = c
  update self key (int z) c = c
  update self key (str s) c = c
  update self key (opaque n) c = c

  pub rebuild_items : Value → ℕ → Items → Option Value → Option Value
  rebuild_items self n nil c = c
  rebuild_items self n (cons x xs) c =
      rebuild_items self (suc n) xs (update self (index (pos n)) x c)

  pub rebuild_fields : Value → Fields → Option Value → Option Value
  rebuild_fields self end c = c
  rebuild_fields self (field k v fs) c = rebuild_fields self fs (update self k v c)

-- The result of a walk that may have met an error.
abbrev pub unless : Option Error → Result (Value × Out) → Result (Value × Out)
unless none r = r
unless (some e) r = err e

-- The clone, or the state itself where there is none.
abbrev pub or_self : Option Value → Value → Value
or_self none v = v
or_self (some c) v = c

-- The two checks that `_separate` makes of a container before it walks it.
abbrev pub entry_fault : Address → List Ident → ℕ → Ident → Option Error
entry_fault path ancestors depth i =
    if ltb max_depth depth
    then some (too_deep path)
    else if ident_mem i ancestors
    then some (cyclic path)
    else none

-- The recursive walk of a whole value.
unfoldable pub recursive : Value → Address → Out → List Ident → ℕ → Result (Value × Out)
recursive (seq k i xs) path out anc depth = unless (entry_fault path anc depth i) (
    unless (fault_items path (anc ++ i ∷ []) depth 0 xs)
      (ok (or_self (rebuild (seq k i xs)) (seq k i xs), note_items path 0 xs out)))
recursive (dict i fs) path out anc depth = unless (entry_fault path anc depth i) (
    unless (fault_fields path (anc ++ i ∷ []) depth fs)
      (ok (or_self (rebuild (dict i fs)) (dict i fs), note_fields path fs out)))
recursive v path out anc depth = ok (v, out)
