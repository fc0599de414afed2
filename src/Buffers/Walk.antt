-- ===== src/Buffers/Walk.antt =====
-- The loop of `_separate` computes the recursive walk.
use cositos.Base.{
  ℕ, suc, ◌≡◌, refl, Option, none, some, List, [], ◌∷◌, ◌++◌, ltb, first, Bool-cases, inl, inr, ap,
  ◌∙◌,
}
use cositos.Value.{
  pos, Key, index, Address, Ident, ident_mem, Value, null, bool, int, str, opaque, bytes, seq, dict,
  Items, nil, cons, Fields, end, field,
}
use cositos.Errors.{Error, Result}
use cositos.Buffers.{
  max_depth, Iterator, items, entries, Frame, Out, running, done, finish, visit, run, cost,
  cost_items, cost_fields, separate,
}
use cositos.Buffers.Recursive.{
  fault, fault_items, fault_fields, note, note_items, note_fields, absorb, rebuild, update,
  rebuild_items, rebuild_fields, unless, or_self, recursive,
}

unless-first :
    (a b : Option Error) (r : Result (Value × Out)) → unless (first a b) r ≡ unless a (unless b r)
unless-first none b r = refl
unless-first (some e) b r = refl

finish-cons :
    (state : Value) (c : Option Value) (key : Key) (p : Frame) (stack : List Frame) (out : Out)
    → finish state c key (p ∷ stack) out
      ≡ running (record p { clone = absorb p.state key c p.clone } ∷ stack) out
finish-cons state none key p stack out = refl
finish-cons state (some r) key p stack out = refl

-- The frame that `descend` puts on the stack for a child.
abbrev child_frame : Frame → Key → Value → Ident → Iterator → Frame
child_frame f key value i it = record {
  state = value;
  ancestors = f.ancestors ++ i ∷ [];
  depth = suc f.depth;
  iterator = it;
  clone = none;
  parent_key = key;
  path = f.path ++ key ∷ [];
}

mutual
  unfolding run cost fault note rebuild

  walk :
      (f : Frame) (stack : List Frame) (out : Out) (key : Key) (v : Value) (k : ℕ)
      → run (cost v k) (visit f stack out key v)
        ≡ unless (fault f.path f.ancestors f.depth key v) (
            run k (
              running
                (record f { clone = update f.state key v f.clone } ∷ stack)
                (note f.path key v out)))
  walk f stack out key null k = refl
  walk f stack out key (bool b) k = refl
  walk f stack out key (int z) k = refl
  walk f stack out key (str s) k = refl
  walk f stack out key (opaque n) k = refl
  walk f stack out key (bytes b) k = refl
  walk f stack out key (seq s i xs) k = elim (Bool-cases (ltb max_depth (suc f.depth))) [
    | inl deep ↦ rw deep
    | inr shallow ↦ rw shallow (elim (Bool-cases (ident_mem i f.ancestors)) [
      | inl again ↦ rw again
      | inr new ↦ rw new (
          rw (walk_items (child_frame f key (seq s i xs) i (items 0 xs)) (f ∷ stack) out 0 xs k)
            (rw finish-cons))
    ])
  ]
  walk f stack out key (dict i fs) k = elim (Bool-cases (ltb max_depth (suc f.depth))) [
    | inl deep ↦ rw deep
    | inr shallow ↦ rw shallow (elim (Bool-cases (ident_mem i f.ancestors)) [
      | inl again ↦ rw again
      | inr new ↦ rw new (
          rw (walk_fields (child_frame f key (dict i fs) i (entries fs)) (f ∷ stack) out fs k)
            (rw finish-cons))
    ])
  ]

  walk_items :
      (f : Frame) (stack : List Frame) (out : Out) (n : ℕ) (xs : Items) (k : ℕ)
      → run (cost_items xs k) (running (record f { iterator = items n xs } ∷ stack) out)
        ≡ unless (fault_items f.path f.ancestors f.depth n xs) (
            run k (
              finish f.state
                (rebuild_items f.state n xs f.clone)
                f.parent_key
                stack
                (note_items f.path n xs out)))
  walk_items f stack out n nil k = refl
  walk_items f stack out n (cons x xs) k = rw unless-first (
      walk (record f { iterator = items (suc n) xs }) stack out (index (pos n)) x (cost_items xs k)
      ∙ ap (unless (fault f.path f.ancestors f.depth (index (pos n)) x)) (
          walk_items (record f { clone = update f.state (index (pos n)) x f.clone }) stack
            (note f.path (index (pos n)) x out) (suc n) xs k))

  walk_fields :
      (f : Frame) (stack : List Frame) (out : Out) (fs : Fields) (k : ℕ)
      → run (cost_fields fs k) (running (record f { iterator = entries fs } ∷ stack) out)
        ≡ unless (fault_fields f.path f.ancestors f.depth fs) (
            run k (
              finish f.state
                (rebuild_fields f.state fs f.clone)
                f.parent_key
                stack
                (note_fields f.path fs out)))
  walk_fields f stack out end k = refl
  walk_fields f stack out (field j v fs) k = rw unless-first (
      walk (record f { iterator = entries fs }) stack out j v (cost_fields fs k)
      ∙ ap (unless (fault f.path f.ancestors f.depth j v)) (
          walk_fields (record f { clone = update f.state j v f.clone }) stack (note f.path j v out)
            fs k))

finish-nil :
    (state : Value) (c : Option Value) (key : Key) (out : Out)
    → finish state c key [] out ≡ done (or_self c state) out
finish-nil state none key out = refl
finish-nil state (some r) key out = refl

abbrev root_frame : Value → Ident → Address → List Ident → ℕ → Iterator → Frame
root_frame v i path anc depth it = record {
  state = v;
  ancestors = anc ++ i ∷ [];
  depth = depth;
  iterator = it;
  clone = none;
  parent_key = index (pos 0);
  path = path;
}

-- The loop on the stack of frames always comes to its end on the fuel that it is given, and it
-- computes the recursive walk: the same result, the same two lists, and the same error where the
-- walk meets one, for every value, path, lists so far, ancestors and depth.
pub separate-eq-recursive :
    (v : Value) (path : Address) (out : Out) (anc : List Ident) (depth : ℕ)
    → separate v path out anc depth ≡ recursive v path out anc depth
unfolding separate run cost recursive rebuild
separate-eq-recursive (seq s i xs) path out anc depth = elim (Bool-cases (ltb max_depth depth)) [
  | inl deep ↦ rw deep
  | inr shallow ↦ rw shallow (elim (Bool-cases (ident_mem i anc)) [
    | inl again ↦ rw again
    | inr new ↦ rw new (
        rw (walk_items (root_frame (seq s i xs) i path anc depth (items 0 xs)) [] out 0 xs 0)
          (rw finish-nil))
  ])
]
separate-eq-recursive (dict i fs) path out anc depth = elim (Bool-cases (ltb max_depth depth)) [
  | inl deep ↦ rw deep
  | inr shallow ↦ rw shallow (elim (Bool-cases (ident_mem i anc)) [
    | inl again ↦ rw again
    | inr new ↦ rw new (
        rw (walk_fields (root_frame (dict i fs) i path anc depth (entries fs)) [] out fs 0)
          (rw finish-nil))
  ])
]
separate-eq-recursive null path out anc depth = refl
separate-eq-recursive _ path out anc depth = refl
