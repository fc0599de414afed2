-- ===== src/Buffers/Clone.antt =====
-- The clones of the recursive walk are the state without its binary values.
pub mod Lists
pub mod Dicts
use cositos.Base.{
  ℕ, zero, suc, ◌≡◌, refl, sym, ap, ◌∙◌, Bool, true, false, ◌||◌, Option, none, some, List, [], ◌∷◌,
  ◌++◌, if◌then◌else◌, Bool-cases, inl, inr, arith,
}
use cositos.Value.{
  pos, Key, index, Address, fresh, list_kind, Bytes, Value, null, bool, int, str, opaque, bytes,
  seq, dict, Items, nil, cons, Fields, end, field, SeqKind, Ident,
}
use cositos.Value.Dict
use cositos.Value.Dict.{lookup, Distinct, Apart}
use cositos.Value.Seq
use cositos.Value.Seq.{size, set_item, append, set_item-append, size-append_one, append_one}
use cositos.Buffers.Recursive.{absorb, rebuild, update, rebuild_items, rebuild_fields}
use cositos.Buffers.Strip.{
  holds, holds_items, holds_fields, in_seq, in_dict, strip, strip_items, strip_fields, Tidy,
  TidyItems, TidyFields, inner, strip_same,
}
use Lists.{cloned_list, StripsRest, ClonesAs, ClonesRest, step_item, first_item}
use Dicts.{cloned_dict, StripsEntries, ClonesEntries, step_entry, first_entry}
use cositos.Value.Dict.{Apart-end}

mutual
  unfolding rebuild strip holds Seq.append Dict.append

  clones : (v : Value) → Tidy v → ClonesAs v
  clones null t = refl
  clones (bool b) t = refl
  clones (int z) t = refl
  clones (str s) t = refl
  clones (opaque n) t = refl
  clones (bytes b) t = refl
  clones (seq k i xs) t =
      rw (clones_rest xs t k i nil 0 refl)
        (elim (Bool-cases (holds_items xs)) [ inl h ↦ rw h | inr h ↦ rw h ])
  clones (dict i fs) t =
      rw (clones_entries fs t.0 t.1 i end (Apart-end fs))
        (elim (Bool-cases (holds_fields fs)) [ inl h ↦ rw h | inr h ↦ rw h ])

  strips_rest : (xs : Items) → TidyItems xs → (self : Value) → StripsRest self xs
  strips_rest nil t self ps n e = refl
  strips_rest (cons x xs) t self ps n e =
      step_item self ps x xs n e (clones x t.0) (strips_rest xs t.1 self)

  clones_rest : (xs : Items) → TidyItems xs → ClonesRest xs
  clones_rest nil t k i ps n e = refl
  clones_rest (cons x xs) t k i ps n e =
      first_item k i ps x xs n e (clones x t.0) (strips_rest xs t.1) (clones_rest xs t.1)

  strips_entries :
      (fs : Fields) → Distinct fs → TidyFields fs → (self : Value) → StripsEntries self fs
  strips_entries end d t self ps a = refl
  strips_entries (field k v fs) d t self ps a =
      step_entry ps k fs d.0 a.1 self v a.0 (clones v t.0) (strips_entries fs d.1 t.1 self)

  clones_entries : (fs : Fields) → Distinct fs → TidyFields fs → ClonesEntries fs
  clones_entries end d t i ps a = refl
  clones_entries (field k v fs) d t i ps a =
      first_entry i ps k fs d.0 a.1 v a.0 (clones v t.0) (strips_entries fs d.1 t.1)
        (clones_entries fs d.1 t.1)

-- The walk makes a clone just of what holds a binary value inside, and the clone is that value
-- without its binary values.
pub rebuild-eq-strip : (v : Value) → Tidy v → rebuild v ≡ (if inner v then some (strip v) else none)
rebuild-eq-strip v t = clones v t
