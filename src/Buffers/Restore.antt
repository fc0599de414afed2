-- ===== src/Buffers/Restore.antt =====
-- The value that `put_buffers` makes of what `remove_buffers` returns: the same, but that the
-- binary entries of a dict come last in it. `put-strip` is the loop, one entry after another.
use cositos.Base.{if◌then◌else◌}
use cositos.Value.{
  Key, fresh, list_kind, Value, null, bool, int, str, opaque, bytes, seq, dict, Items, nil, cons,
  Fields, end, field,
}
use cositos.Value.Dict
use cositos.Value.Dict.{lookup, insert, Distinct, Apart}
use cositos.Buffers.Strip.{holds_items, holds_fields, in_dict}

-- The binary entries of a dict.
abbrev pub binary_entry : Key → Value → Fields → Fields
binary_entry k (bytes b) fs = field k (bytes b) fs
binary_entry k v fs = fs

unfoldable pub binary_fields : Fields → Fields
binary_fields end = end
binary_fields (field k v fs) = binary_entry k v (binary_fields fs)

unfoldable mutual
  pub restore : Value → Value
  restore (seq k i xs) =
      if holds_items xs then seq list_kind fresh (restore_items xs) else seq k i xs
  restore (dict i fs) =
      if holds_fields fs
      then dict fresh (Dict.append (restore_fields fs) (binary_fields fs))
      else dict i fs
  restore null = null
  restore (bool b) = bool b
  restore (int z) = int z
  restore (str s) = str s
  restore (opaque n) = opaque n
  restore (bytes b) = bytes b

  pub restore_items : Items → Items
  restore_items nil = nil
  restore_items (cons x xs) = cons (restore x) (restore_items xs)

  -- the other entries
  pub restore_fields : Fields → Fields
  restore_fields end = end
  restore_fields (field k v fs) = in_dict k v (restore v) (restore_fields fs)
