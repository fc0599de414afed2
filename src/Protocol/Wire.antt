-- ===== src/Protocol/Wire.antt =====
-- What one end builds, the other end parses.
use cositos.Base.{◌≡◌, refl, List, [], ◌∷◌}
use cositos.Value.{Key, name, index, key_eq, Address, Value, int, str, seq, Items, nil, cons}
use cositos.Value.Dict.{lookup}
use cositos.Errors.{Result, ok, err, type_error, ◌>>=◌}
use cositos.Protocol.{
  key_value, address_items, address_list, paths_value, update_payload, build_custom, update, custom,
  parse_message,
}

-- The keys of a path in a message, as `obj[key]` takes them: a text or an integer.
abbrev pub value_key : Value → Result Key
value_key (str s) = ok (name s)
value_key (int z) = ok (index z)
value_key v = err type_error

abbrev pub items_address : Items → Result Address
items_address nil = ok []
items_address (cons x xs) = do k ← value_key x; a ← items_address xs; ok (k ∷ a)

abbrev pub value_address : Value → Result Address
value_address (seq s i xs) = items_address xs
value_address v = err type_error

abbrev pub list_addresses : Items → Result (List Address)
list_addresses nil = ok []
list_addresses (cons x xs) = do a ← value_address x; l ← list_addresses xs; ok (a ∷ l)

-- The paths that the loop of `put_buffers` goes through.
unfoldable pub value_paths : Value → Result (List Address)
value_paths (seq s i xs) = list_addresses xs
value_paths v = err type_error

value_key-key_value : (k : Key) → value_key (key_value k) ≡ ok k
value_key-key_value (name s) = refl
value_key-key_value (index z) = refl

pub items_address-address_items : (a : Address) → items_address (address_items a) ≡ ok a
items_address-address_items [] = refl
items_address-address_items (k ∷ a) = rw (value_key-key_value, items_address-address_items a)

list_addresses-address_list : (l : List Address) → list_addresses (address_list l) ≡ ok l
list_addresses-address_list [] = refl
list_addresses-address_list (a ∷ l) =
    rw (items_address-address_items a, list_addresses-address_list l)

pub value_paths-paths_value : (l : List Address) → value_paths (paths_value l) ≡ ok l
unfolding value_paths
value_paths-paths_value l = list_addresses-address_list l

pub parse_message-update_payload :
    (state : Value) (l : List Address)
    → parse_message (update_payload state l) ≡ update state (paths_value l)
unfolding parse_message update_payload lookup key_eq
parse_message-update_payload state l = refl

pub parse_message-build_custom :
    (content : Value) → parse_message (build_custom content) ≡ custom content
unfolding parse_message build_custom lookup key_eq
parse_message-build_custom content = refl
