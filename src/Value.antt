-- ===== src/Value.antt =====
-- Python values as a widget's state holds them, and the operations of `dict` and `list` that
-- cositos uses (src/cositos/buffers.py, protocol.py, serialize.py, lifecycle.py all work on them).
--
-- A container carries the identity of its object, which is what `id(...)` compares. `fresh` is the
-- identity of an object that the running call has made itself and that nothing else refers to: it
-- equals no other. A value is the tree that a walk of the object unfolds; an object that occurs
-- twice stands there twice, with the same identity. Below a repeated ancestor the walk never
-- looks, so a cyclic object is a finite tree too.
pub mod Keys
pub mod Dict
pub mod Seq
pub mod View
pub mod Equal
pub mod State
unfoldable pub use Keys.{key_eq}
pub use Keys.{ℤ, pos, negsuc, Key, name, index, Address, key_eq_iff, key_eq_refl}
use cositos.Base.{
  ℕ, zero, suc, ◌≡◌, refl, Bool, true, false, Option, none, some, List, [], ◌∷◌, ◌||◌, nat_eq,
  String, if◌then◌else◌,
}

pub data Ident : Type 0 where
  object : ℕ → Ident
  fresh : Ident

-- `id(x) in ancestors`
unfoldable pub ident_mem : Ident → List Ident → Bool
ident_mem fresh anc = false
ident_mem (object i) [] = false
ident_mem (object i) (fresh ∷ anc) = ident_mem (object i) anc
ident_mem (object i) (object j ∷ anc) = nat_eq i j || ident_mem (object i) anc

pub data SeqKind : Type 0 where
  list_kind tuple_kind : SeqKind

abbrev pub Bytes : Type 0
Bytes = List ℕ

-- `bytes` is any binary value (bytes, bytearray, memoryview), by its raw bytes; `opaque` is any
-- other leaf, such as a float.
mutual
  pub data Value : Type 0 where
    null : Value
    bool : Bool → Value
    int : ℤ → Value
    str : String → Value
    opaque : ℕ → Value
    bytes : Bytes → Value
    seq : SeqKind → Ident → Items → Value
    dict : Ident → Fields → Value

  pub data Items : Type 0 where
    nil : Items
    cons : Value → Items → Items

  -- the entries of a dict, in insertion order
  pub data Fields : Type 0 where
    end : Fields
    field : Key → Value → Fields → Fields
