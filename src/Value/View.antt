-- ===== src/Value/View.antt =====
-- What a value says, whatever the order of its dicts' entries, the identity of its objects, and
-- whether a sequence is a list or a tuple.
use cositos.Base.{ℕ, ◌≡◌, Bool, Option, none, some, [], refl, ◌∷◌, String}
use cositos.Value.{
  ℤ, pos, negsuc, Key, name, index, Address, Bytes, Value, null, bool, int, str, opaque, bytes, seq,
  dict, SeqKind, Ident, Items, Fields,
}
use cositos.Value.Dict.{lookup}
use cositos.Value.Seq.{get_item?}

pub data Shape : Type 0 where
  absent list mapping : Shape
  truth : Bool → Shape
  number : ℤ → Shape
  text : String → Shape
  other : ℕ → Shape
  binary : Bytes → Shape

abbrev pub shape : Value → Shape
shape null = absent
shape (bool b) = truth b
shape (int z) = number z
shape (str s) = text s
shape (opaque n) = other n
shape (bytes b) = binary b
shape (seq k i xs) = list
shape (dict i fs) = mapping

abbrev pub child : Value → Key → Option Value
child (dict i fs) k = lookup k fs
child (seq s i xs) (index (pos n)) = get_item? xs n
child v k = none

abbrev pub view_opt : (Value → Option Shape) → Option Value → Option Shape
view_opt look none = none
view_opt look (some v) = look v

-- The shape of what stands at an address, if anything does.
unfoldable pub view : Address → Value → Option Shape
view [] v = some (shape v)
view (k ∷ p) v = view_opt (view p) (child v k)

-- Two values say the same.
abbrev pub Same : Value → Value → Type 0
Same v w = (p : Address) → view p v ≡ view p w

-- Two lists whose elements say the same, and two dicts whose entries do.
pub seq-Same :
    (s r : SeqKind) (i j : Ident) (xs ys : Items)
    → ((p : Address) (n : ℕ)
        → view_opt (view p) (get_item? xs n) ≡ view_opt (view p) (get_item? ys n))
    → Same (seq s i xs) (seq r j ys)
unfolding view
seq-Same s r i j xs ys h [] = refl
seq-Same s r i j xs ys h (index (pos n) ∷ p) = h p n
seq-Same s r i j xs ys h (index (negsuc n) ∷ p) = refl
seq-Same s r i j xs ys h (name k ∷ p) = refl

pub dict-Same :
    (i j : Ident) (fs gs : Fields)
    → ((p : Address) (k : Key) → view_opt (view p) (lookup k fs) ≡ view_opt (view p) (lookup k gs))
    → Same (dict i fs) (dict j gs)
unfolding view
dict-Same i j fs gs h [] = refl
dict-Same i j fs gs h (k ∷ p) = h p k
