-- ===== src/Buffers/RoundTrip/Lists.antt =====
-- Putting the buffers of a list's elements back, one element after another.
use cositos.Base.{ℕ, suc, ◌≡◌, sym, ◌∙◌, [], ◌∷◌, ◌++◌}
use cositos.Value.{
  pos, index, fresh, list_kind, Bytes, Value, null, bytes, seq, dict, Items, nil, cons,
}
use cositos.Value.Seq.{size, append, append_one, size-append_one, set_item-append, position-append}
use cositos.Errors.{ok}
use cositos.Buffers.Strip.{in_seq, strip, strip_items}
use cositos.Buffers.Places.{beneath, places, places_items, payloads, payloads_items}
use cositos.Buffers.Restore.{restore, restore_items}
use cositos.Buffers.Removed.{unless_bytes}
use cositos.Buffers.Put.{put, put_buffers, assign}
use cositos.Buffers.Put.Below.{
  put_buffers-append, Deep, put_buffers-beneath, list_around, put-list_around,
}
use cositos.Buffers.Paired.{length-beneath, length-places, Deep-places_items, Deep-places_fields}

-- An element of a list, or an entry of a dict, that is not binary.
abbrev pub Restores : Value → Type 0
Restores x = put_buffers (strip x) (places x) (payloads x) ≡ ok (restore x)

-- The same of any value: a bare binary value stays where it is.
abbrev pub Returns : Value → Type 0
Returns x =
    put_buffers (strip x) (unless_bytes x (places x)) (unless_bytes x (payloads x)) ≡ ok (restore x)

-- One element: its buffers are put back behind the elements before it.
put_element :
    (ps : Items) (x : Value) (xs : Items)
    → Restores x
    → Deep (places x)
    → put_buffers
        (seq list_kind fresh (append ps (cons (strip x) xs)))
        (beneath (index (pos (size ps)) ∷ []) (places x))
        (payloads x)
      ≡ ok (seq list_kind fresh (append ps (cons (restore x) xs)))
put_element ps x xs back deep =
    put_buffers-beneath (list_around list_kind fresh ps xs) (index (pos (size ps)))
      (put-list_around list_kind fresh ps xs) (strip x) (places x) (payloads x) deep
    ∙ rw back

put_binary :
    (ps : Items) (b : Bytes) (xs : Items)
    → put_buffers
        (seq list_kind fresh (append ps (cons null xs)))
        ((index (pos (size ps)) ∷ []) ∷ [])
        (b ∷ [])
      ≡ ok (seq list_kind fresh (append ps (cons (bytes b) xs)))
unfolding put_buffers put assign
put_binary ps b xs = rw (position-append, set_item-append)

-- What the buffers of the elements that are left do to a list.
abbrev pub RestoresRest : Items → Type 0
RestoresRest xs =
    (ps : Items) (n : ℕ)
    → n ≡ size ps
    → put_buffers (seq list_kind fresh (append ps (strip_items xs))) (places_items n xs)
        (payloads_items xs)
      ≡ ok (seq list_kind fresh (append ps (restore_items xs)))

-- One element on, with the element's own part of the buffers done.
next_element :
    (ps : Items) (x s y : Value) (xs : Items) (n : ℕ)
    → n ≡ size ps
    → put_buffers
        (seq list_kind fresh (append ps (cons s (strip_items xs))))
        (beneath (index (pos n) ∷ []) (places x))
        (payloads x)
      ≡ ok (seq list_kind fresh (append ps (cons y (strip_items xs))))
    → RestoresRest xs
    → put_buffers
        (seq list_kind fresh (append ps (cons s (strip_items xs))))
        (beneath (index (pos n) ∷ []) (places x) ++ places_items (suc n) xs)
        (payloads x ++ payloads_items xs)
      ≡ ok (seq list_kind fresh (append ps (cons y (restore_items xs))))
next_element ps x s y xs n e own rest =
    put_buffers-append _ (beneath (index (pos n) ∷ []) (places x)) _ (payloads x) _
      (length-beneath (index (pos n) ∷ []) (places x) ∙ length-places x)
    ∙ rw own (
        rw (← append_one ps y (strip_items xs), ← append_one ps y (restore_items xs))
          (rest (append ps (cons y nil)) (suc n) (rw e (sym (size-append_one ps y)))))

pub step_element :
    (ps : Items) (x : Value) (xs : Items) (n : ℕ)
    → n ≡ size ps
    → Returns x
    → RestoresRest xs
    → put_buffers
        (seq list_kind fresh (append ps (cons (in_seq x (strip x)) (strip_items xs))))
        (beneath (index (pos n) ∷ []) (places x) ++ places_items (suc n) xs)
        (payloads x ++ payloads_items xs)
      ≡ ok (seq list_kind fresh (append ps (cons (restore x) (restore_items xs))))
step_element ps (bytes b) xs n e back rest =
    next_element ps (bytes b) null (restore (bytes b)) xs n e
      (rw e (unfold places payloads restore in put_binary ps b (strip_items xs))) rest
step_element ps (seq s i ys) xs n e back rest =
    next_element ps (seq s i ys) (strip (seq s i ys)) (restore (seq s i ys)) xs n e
      (rw e (
        put_element ps (seq s i ys) (strip_items xs) back
          (unfold places in Deep-places_items 0 ys)))
      rest
step_element ps (dict i fs) xs n e back rest =
    next_element ps (dict i fs) (strip (dict i fs)) (restore (dict i fs)) xs n e
      (rw e
        (put_element ps (dict i fs) (strip_items xs) back (unfold places in Deep-places_fields fs)))
      rest
step_element ps x xs n e back rest =
    next_element ps x (strip x) (restore x) xs n e
      (rw e (put_element ps x (strip_items xs) back (unfold places in tt))) rest
