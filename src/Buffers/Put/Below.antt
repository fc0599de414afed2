-- ===== src/Buffers/Put/Below.antt =====
-- `put_buffers` on lists in parts, and below one key.
use cositos.Base.{◌≡◌, refl, sym, ◌∙◌, none, some, List, [], ◌∷◌, ◌++◌, arith, length}
use cositos.Value.{
  pos, Key, index, Address, Bytes, Value, bytes, seq, dict, Ident, Items, key_eq_refl, cons, Fields,
  field, SeqKind,
}
use cositos.Value.Dict
use cositos.Value.Dict.{lookup, lookup-append, insert-append}
use cositos.Value.Seq.{size, append, get_item?-append, set_item-append, position-append}
use cositos.Errors.{ok, ◌>>=◌, >>=_assoc, >>=_congr}
use cositos.Buffers.Places.{beneath}
use cositos.Buffers.Put.{get_item, with_child, put, put_buffers}

pub put_buffers-append :
    (s : Value) (ls ms : List Address) (bs ds : List Bytes)
    → length ls ≡ length bs
    → put_buffers s (ls ++ ms) (bs ++ ds) ≡ (put_buffers s ls bs >>= λ s'. put_buffers s' ms ds)
unfolding put_buffers
put_buffers-append s [] ms [] ds e = refl
put_buffers-append s [] ms (b ∷ bs) ds e = absurd (omega arith)
put_buffers-append s (l ∷ ls) ms [] ds e = absurd (omega arith)
put_buffers-append s (l ∷ ls) ms (b ∷ bs) ds e =
    >>=_congr (put s l (bytes b)) _ _ (λ s'. put_buffers-append s' ls ms bs ds (omega arith))
    ∙ sym (>>=_assoc (put s l (bytes b)) _ _)

-- No address is empty.
abbrev pub Deep : List Address → Type 0
Deep [] = Unit
Deep ([] ∷ ls) = ⊥
Deep ((k ∷ a) ∷ ls) = Deep ls

-- Putting into the element at `k` of a container, where `whole` is the container around it.
module _ (whole : Value → Value) (k : Key)
    (put_inside : (x : Value) (j : Key) (a : Address) (b : Value)
      → put (whole x) (k ∷ j ∷ a) b ≡ (put x (j ∷ a) b >>= λ y. ok (whole y))) where
  pub put_buffers-beneath :
      (x : Value) (ls : List Address) (bs : List Bytes)
      → Deep ls
      → put_buffers (whole x) (beneath (k ∷ []) ls) bs ≡ (put_buffers x ls bs >>= λ y. ok (whole y))
  unfolding put_buffers
  put_buffers-beneath x [] [] d = refl
  put_buffers-beneath x [] (b ∷ bs) d = refl
  put_buffers-beneath x ([] ∷ ls) bs d = absurd d
  put_buffers-beneath x ((j ∷ a) ∷ ls) [] d = refl
  put_buffers-beneath x ((j ∷ a) ∷ ls) (b ∷ bs) d =
      rw (put_inside x j a (bytes b), >>=_assoc, >>=_assoc)
        (>>=_congr (put x (j ∷ a) (bytes b)) _ _ (λ y. put_buffers-beneath y ls bs d))

-- The element of a list that stands behind `ps`.
module _ (s : SeqKind) (i : Ident) (ps xs : Items) where
  abbrev pub list_around : Value → Value
  list_around x = seq s i (append ps (cons x xs))

  pub put-list_around :
      (x : Value) (j : Key) (a : Address) (b : Value)
      → put (list_around x) (index (pos (size ps)) ∷ j ∷ a) b
        ≡ (put x (j ∷ a) b >>= λ y. ok (list_around y))
  unfolding put get_item with_child
  put-list_around x j a b =
      rw (position-append, get_item?-append)
        (>>=_congr (put x (j ∷ a) b) _ _ (λ y. rw set_item-append))

lookup_here : (k : Key) (x : Value) (fs : Fields) → lookup k (field k x fs) ≡ some x
unfolding lookup
lookup_here k x fs = rw key_eq_refl

-- The entry of a dict that stands behind `ps`.
module _ (i : Ident) (ps : Fields) (k : Key) (fs : Fields) (new : lookup k ps ≡ none) where
  abbrev pub dict_around : Value → Value
  dict_around x = dict i (Dict.append ps (field k x fs))

  pub put-dict_around :
      (x : Value) (j : Key) (a : Address) (b : Value)
      → put (dict_around x) (k ∷ j ∷ a) b ≡ (put x (j ∷ a) b >>= λ y. ok (dict_around y))
  unfolding put get_item with_child
  put-dict_around x j a b =
      rw (lookup-append, new, lookup_here k x fs)
        (>>=_congr (put x (j ∷ a) b) _ _ (λ y. rw (insert-append ps k x y fs new)))
