-- ===== src/Buffers/RoundTrip.antt =====
-- `put_buffers` undoes `remove_buffers`.
pub mod Lists
pub mod Dicts
use cositos.Base.{
  ℕ, zero, suc, ◌+◌, ◌<◌, ◌≡◌, refl, sym, ap, ◌∙◌, Bool, true, false, ◌||◌, Option, none, some,
  List, [], ◌∷◌, ◌++◌, if◌then◌else◌, Bool-cases, inl, inr, arith, length, first,
}
use cositos.Value.{
  pos, Key, index, Address, fresh, list_kind, Bytes, Value, null, bool, int, str, opaque, bytes,
  seq, dict, Items, nil, cons, Fields, end, field, key_eq, key_eq_iff,
}
use cositos.Value.Dict
use cositos.Value.Dict.{
  lookup, insert, Distinct, Apart, lookup-append, Apart-append_one, insert_new, Apart-end,
}
use cositos.Value.Seq
use cositos.Value.Seq.{
  size, get_item?, append, append_one, size-append_one, set_item-append, position-append,
}
use cositos.Errors.{Result, ok, err, ◌>>=◌}
use cositos.Buffers.Strip.{
  holds, holds_items, holds_fields, in_dict, in_seq, strip, strip_items, strip_fields, Tidy,
  TidyItems, TidyFields,
}
use cositos.Buffers.Places.{
  beneath, beneath-append, places, places_items, places_fields, payloads, payloads_items,
  payloads_fields,
}
use cositos.Buffers.Restore.{restore, restore_items, restore_fields, binary_fields, binary_entry}
use cositos.Buffers.Removed.{unless_bytes}
use cositos.Buffers.Put.{put, put_buffers, assign}
use cositos.Buffers.Put.Below.{
  put_buffers-append, Deep, put_buffers-beneath, list_around, put-list_around, dict_around,
  put-dict_around,
}
use cositos.Buffers.Paired.{
  length-beneath, length-places, Deep-places_items, Deep-places_fields, nothing_items,
  nothing_fields,
}
use Lists.{Returns, RestoresRest, step_element}
use Dicts.{RestoresEntries, step_entry}

mutual
  unfolding strip restore places payloads Seq.append Dict.append put_buffers binary_fields

  returns : (v : Value) → Tidy v → Returns v
  returns null t = refl
  returns (bool b) t = refl
  returns (int z) t = refl
  returns (str s) t = refl
  returns (opaque n) t = refl
  returns (bytes b) t = refl
  returns (seq k i xs) t = elim (Bool-cases (holds_items xs)) [
    | inl h ↦ rw h (restores_rest xs t nil 0 refl)
    | inr h ↦ rw (h, (nothing_items 0 xs h).0, (nothing_items 0 xs h).1)
  ]
  returns (dict i fs) t = elim (Bool-cases (holds_fields fs)) [
    | inl h ↦ rw h (
        rw (Dict.append-end (strip_fields fs)) at
          (restores_entries fs t.0 t.1 end end (Apart-end fs) (Apart-end fs)))
    | inr h ↦ rw (h, (nothing_fields fs h).0, (nothing_fields fs h).1)
  ]

  restores_rest : (xs : Items) → TidyItems xs → RestoresRest xs
  restores_rest nil t ps n e = refl
  restores_rest (cons x xs) t ps n e =
      step_element ps x xs n e (returns x t.0) (restores_rest xs t.1)

  restores_entries : (fs : Fields) → Distinct fs → TidyFields fs → RestoresEntries fs
  restores_entries end d t ps bs a c = rw Dict.append-end
  restores_entries (field k v fs) d t ps bs a c =
      step_entry ps bs k fs d.0 a.0 c.0 a.1 c.1 (restores_entries fs d.1 t.1) v (returns v t.0)

-- Putting back what was taken out restores the value.
pub put_buffers-strip : (v : Value) → Tidy v → Returns v
put_buffers-strip v t = returns v t
