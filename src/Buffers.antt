-- ===== src/Buffers.antt =====
-- src/cositos/buffers.py: the split of a state into JSON and binary buffers, and its inverse.
--
-- `separate` is the loop of `_separate` on an explicit stack of frames, iteration by iteration;
-- `Walk` has the recursive walk that it stands for.
pub mod Recursive
pub mod Walk
pub mod Strip
pub mod Clone
pub mod Places
pub mod Removed
pub mod Put
pub mod Faults
pub mod Accepts
pub mod Stripped
pub mod Restore
pub mod Paired
pub mod RoundTrip
pub mod Inverse
pub mod Located
mod Examples
use cositos.Base.{
  ℕ, zero, suc, Bool, true, false, Option, none, some, List, [], ◌∷◌, ◌++◌, ltb, if◌then◌else◌,
}
use cositos.Value.{
  pos, Key, name, index, Address, Ident, object, fresh, ident_mem, SeqKind, list_kind, tuple_kind,
  Bytes, Value, null, bool, int, str, opaque, bytes, seq, dict, Items, nil, cons, Fields, end,
  field,
}
use cositos.Value.Dict.{insert, remove}
use cositos.Value.Seq.{set_item}
use cositos.Errors.{Error, too_deep, cyclic, no_fuel, Result, ok, err, ◌>>=◌}

-- `_MAX_DEPTH`
unfoldable pub max_depth : ℕ
max_depth = 500

-- What is left of an iterator: of `enumerate(substate)`, or of `iter(substate.items())`.
pub data Iterator : Type 0 where
  items : ℕ → Items → Iterator
  entries : Fields → Iterator

-- `_items`; it is called on containers only.
abbrev pub items_of : Value → Iterator
items_of (seq k i xs) = items 0 xs
items_of (dict i fs) = entries fs
items_of _ = entries end

-- `next(iterator)`, where `none` is StopIteration
abbrev pub next : Iterator → Option (Key × Value × Iterator)
next (items n nil) = none
next (items n (cons x xs)) = some (index (pos n), x, items (suc n) xs)
next (entries end) = none
next (entries (field k v fs)) = some (k, v, entries fs)

-- `_clone`: a new list or a new dict with the same entries
abbrev pub clone : Value → Value
clone (seq k i xs) = seq list_kind fresh xs
clone (dict i fs) = dict fresh fs
clone v = v

-- `clone[key] = result`, at a key that the iterator has just given, so that it is there
abbrev pub store : Value → Key → Value → Value
store (seq k i xs) (index (pos n)) v = seq k i (set_item xs n v)
store (dict i fs) k v = dict i (insert k v fs)
store v k w = v

-- `_extract_binary`
abbrev pub extract_binary : Value → Key → Value
extract_binary (dict i fs) k = dict i (remove k fs)
extract_binary v k = store v k null

-- `_Frame`
pub record Frame : Type 0 where
  pub state : Value
  pub ancestors : List Ident
  pub depth : ℕ
  pub iterator : Iterator
  pub clone : Option Value
  pub parent_key : Key
  pub path : Address

-- The two lists that the walk appends to.
pub record Out : Type 0 where
  pub paths : List Address
  pub buffers : List Bytes

abbrev pub record_buffer : Out → Address → Bytes → Out
record_buffer out p b = record { paths = out.paths ++ p ∷ []; buffers = out.buffers ++ b ∷ [] }

-- `if clone is None: clone = _clone(state)`
abbrev pub clone_or : Option Value → Value → Value
clone_or none v = clone v
clone_or (some c) v = c

-- Where the loop stands: at its next iteration, with the top of the stack first, or at its end.
pub data Loop : Type 0 where
  running : List Frame → Out → Loop
  done : Value → Out → Loop
  raised : Error → Loop

-- the branch of StopIteration: `state`, `clone` and `parent_key` are the finished frame's, and the
-- stack is what lies below it. Its result is not its state just if it has a clone.
abbrev pub finish : Value → Option Value → Key → List Frame → Out → Loop
finish state none key [] out = done state out
finish state (some c) key [] out = done c out
finish state none key (parent ∷ stack) out = running (parent ∷ stack) out
finish state (some c) key (parent ∷ stack) out =
    running
      (record parent { clone = some (store (clone_or parent.clone parent.state) key c) } ∷ stack)
      out

-- the branch of a container: the checks of depth and ancestors, then a new frame on the stack
abbrev pub descend : Frame → List Frame → Out → Key → Value → Ident → Loop
descend f stack out key value i =
    if ltb max_depth (suc f.depth)
    then raised (too_deep f.path)
    else if ident_mem i f.ancestors
    then raised (cyclic f.path)
    else running
        (record {
          state = value;
          ancestors = f.ancestors ++ i ∷ [];
          depth = suc f.depth;
          iterator = items_of value;
          clone = none;
          parent_key = key;
          path = f.path ++ key ∷ [];
        }
          ∷ f
          ∷ stack)
        out

-- what an iteration does with the value that the iterator gave
abbrev pub visit : Frame → List Frame → Out → Key → Value → Loop
visit f stack out key (bytes b) =
    running (record f { clone = some (extract_binary (clone_or f.clone f.state) key) } ∷ stack)
      (record_buffer out (f.path ++ key ∷ []) b)
visit f stack out key (seq k i xs) = descend f stack out key (seq k i xs) i
visit f stack out key (dict i fs) = descend f stack out key (dict i fs) i
visit f stack out key _ = running (f ∷ stack) out

-- one iteration of `while stack`
abbrev pub iterate : Frame → List Frame → Out → Loop
iterate f stack out = elim (next f.iterator) [
  | none ↦ finish f.state f.clone f.parent_key stack out
  | some (key, value, rest) ↦ visit (record f { iterator = rest }) stack out key value
]

-- `while stack` on fuel. The stack is never empty here:
-- the loop returns when it pops the last frame.
unfoldable pub run : ℕ → Loop → Result (Value × Out)
run n (done v out) = ok (v, out)
run n (raised e) = err e
run zero (running stack out) = err no_fuel
run (suc n) (running [] out) = err no_fuel
run (suc n) (running (f ∷ stack) out) = run n (iterate f stack out)

-- The number of iterations until a container's frame is popped, and `k` more. An entry takes one,
-- and the frame of a container among the entries as many as that has entries, and one for its pop.
unfoldable mutual
  pub cost : Value → ℕ → ℕ
  cost (seq k i xs) n = cost_items xs n
  cost (dict i fs) n = cost_fields fs n
  cost null n = n
  cost (bool b) n = n
  cost (int z) n = n
  cost (str s) n = n
  cost (opaque z) n = n
  cost (bytes b) n = n

  pub cost_items : Items → ℕ → ℕ
  cost_items nil n = suc n
  cost_items (cons x xs) n = suc (cost x (cost_items xs n))

  pub cost_fields : Fields → ℕ → ℕ
  cost_fields end n = suc n
  cost_fields (field k v fs) n = suc (cost v (cost_fields fs n))

-- the body of `_separate` once the state is known to be a container
start : Value → Ident → Address → Out → List Ident → ℕ → Loop
start substate i path out ancestors depth =
    if ltb max_depth depth
    then raised (too_deep path)
    else if ident_mem i ancestors
    then raised (cyclic path)
    else running
        (record {
          state = substate;
          ancestors = ancestors ++ i ∷ [];
          depth = depth;
          iterator = items_of substate;
          clone = none;
          parent_key = index (pos 0);
          path = path;
        }
          ∷ [])
        out

-- `_separate`, on as much fuel as the state has entries and containers
pub separate : Value → Address → Out → List Ident → ℕ → Result (Value × Out)
unfolding start
separate (seq k i xs) path out ancestors depth =
    run (cost (seq k i xs) 0) (start (seq k i xs) i path out ancestors depth)
separate (dict i fs) path out ancestors depth =
    run (cost (dict i fs) 0) (start (dict i fs) i path out ancestors depth)
separate v path out ancestors depth = ok (v, out)

-- What `remove_buffers` returns.
pub record Split : Type 0 where
  pub state : Value
  pub buffer_paths : List Address
  pub buffers : List Bytes

unfoldable pub remove_buffers : Value → Result Split
unfolding separate
remove_buffers state = do
  (stripped, out) ← separate state [] (record { paths = []; buffers = [] }) [] 0
  ok (record { state = stripped; buffer_paths = out.paths; buffers = out.buffers })
