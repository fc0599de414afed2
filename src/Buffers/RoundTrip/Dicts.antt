-- ===== src/Buffers/RoundTrip/Dicts.antt =====
-- Putting the buffers of a dict's entries back, one entry after another: an entry that was taken out
-- comes last.
use cositos.Base.{◌≡◌, refl, ◌∙◌, none, [], ◌∷◌, ◌++◌, arith}
use cositos.Value.{Key, fresh, Bytes, Value, bytes, seq, dict, Fields, end, field}
use cositos.Value.Dict
use cositos.Value.Dict.{
  lookup, insert, Distinct, Apart, lookup-append, Apart-append_one, insert_new, Apart-end,
}
use cositos.Errors.{ok}
use cositos.Buffers.Strip.{in_dict, strip, strip_fields}
use cositos.Buffers.Places.{beneath, places, places_fields, payloads, payloads_fields}
use cositos.Buffers.Restore.{restore, restore_fields, binary_fields, binary_entry}
use cositos.Buffers.Put.{put, put_buffers, assign}
use cositos.Buffers.Put.Below.{
  put_buffers-append, Deep, put_buffers-beneath, dict_around, put-dict_around,
}
use cositos.Buffers.Paired.{length-beneath, length-places, Deep-places_items, Deep-places_fields}
use cositos.Buffers.RoundTrip.Lists.{Restores, Returns}

put_entry :
    (ps : Fields) (k : Key) (x : Value) (fs : Fields)
    → lookup k ps ≡ none
    → Restores x
    → Deep (places x)
    → put_buffers
        (dict fresh (Dict.append ps (field k (strip x) fs)))
        (beneath (k ∷ []) (places x))
        (payloads x)
      ≡ ok (dict fresh (Dict.append ps (field k (restore x) fs)))
put_entry ps k x fs new back deep =
    put_buffers-beneath (dict_around fresh ps k fs new) k (put-dict_around fresh ps k fs new)
      (strip x) (places x) (payloads x) deep
    ∙ rw back

put_binary_entry :
    (k : Key) (b : Bytes) (fs : Fields)
    → lookup k fs ≡ none
    → put_buffers (dict fresh fs) ((k ∷ []) ∷ []) (b ∷ [])
      ≡ ok (dict fresh (Dict.append fs (field k (bytes b) end)))
unfolding put_buffers put assign
put_binary_entry k b fs new = rw (insert_new k (bytes b) fs new)

-- What the buffers of the entries that are left do to a dict.
abbrev pub RestoresEntries : Fields → Type 0
RestoresEntries fs =
    (ps bs : Fields)
    → Apart ps fs
    → Apart bs fs
    → put_buffers (dict fresh (Dict.append ps (Dict.append (strip_fields fs) bs)))
        (places_fields fs) (payloads_fields fs)
      ≡ ok (
          dict fresh
            (Dict.append ps (Dict.append (restore_fields fs) (Dict.append bs (binary_fields fs)))))

-- Stripping adds no key.
pub absent-strip : (k : Key) (fs : Fields) → lookup k fs ≡ none → lookup k (strip_fields fs) ≡ none
unfolding strip lookup
absent-strip k end h = refl
absent-strip k (field j (bytes b) fs) h = absent-strip k fs (ground arith)
absent-strip k (field j v fs) h = ground (arith, absent-strip k fs)

module _ (ps bs : Fields) (k : Key) (fs : Fields) (new : lookup k fs ≡ none)
    (new_ps : lookup k ps ≡ none) (new_bs : lookup k bs ≡ none) (apart_ps : Apart ps fs)
    (apart_bs : Apart bs fs) (rest : RestoresEntries fs) where
  absent : lookup k (Dict.append ps (Dict.append (strip_fields fs) bs)) ≡ none
  absent = rw (lookup-append, new_ps, lookup-append, absent-strip k fs new, new_bs)

  after_binary :
      (b : Bytes)
      → put_buffers
          (dict fresh (Dict.append ps (Dict.append (strip_fields fs) bs)))
          ((k ∷ []) ∷ places_fields fs)
          (b ∷ payloads_fields fs)
        ≡ ok (
            dict fresh (
              Dict.append ps (
                Dict.append
                  (restore_fields fs)
                  (Dict.append bs (field k (bytes b) (binary_fields fs))))))
  after_binary b =
      put_buffers-append _ ((k ∷ []) ∷ []) _ (b ∷ []) _ refl
      ∙ rw
          (
            put_binary_entry k b _ absent,
            Dict.append_assoc,
            Dict.append_assoc,
            ← Dict.append_one bs k (bytes b) (binary_fields fs),
          )
          (rest ps (Dict.append bs (field k (bytes b) end)) apart_ps
            (Apart-append_one bs k (bytes b) fs new apart_bs))

  after_entry :
      (x : Value)
      → Restores x
      → Deep (places x)
      → put_buffers
          (dict fresh (Dict.append ps (field k (strip x) (Dict.append (strip_fields fs) bs))))
          (beneath (k ∷ []) (places x) ++ places_fields fs)
          (payloads x ++ payloads_fields fs)
        ≡ ok (
            dict fresh (
              Dict.append ps (
                field k
                  (restore x)
                  (Dict.append (restore_fields fs) (Dict.append bs (binary_fields fs))))))
  after_entry x back deep =
      put_buffers-append _ (beneath (k ∷ []) (places x)) _ (payloads x) _
        (length-beneath (k ∷ []) (places x) ∙ length-places x)
      ∙ rw (put_entry ps k x (Dict.append (strip_fields fs) bs) new_ps back deep) (
          rw
            (
              ← Dict.append_one ps k (restore x) (Dict.append (strip_fields fs) bs),
              ← Dict.append_one ps k (restore x)
                  (Dict.append (restore_fields fs) (Dict.append bs (binary_fields fs))),
            )
            (rest (Dict.append ps (field k (restore x) end)) bs
              (Apart-append_one ps k (restore x) fs new apart_ps) apart_bs))

  pub step_entry :
      (x : Value)
      → Returns x
      → put_buffers
          (dict fresh (Dict.append ps (Dict.append (in_dict k x (strip x) (strip_fields fs)) bs)))
          (beneath (k ∷ []) (places x) ++ places_fields fs)
          (payloads x ++ payloads_fields fs)
        ≡ ok (
            dict fresh (
              Dict.append ps (
                Dict.append
                  (in_dict k x (restore x) (restore_fields fs))
                  (Dict.append bs (binary_entry k x (binary_fields fs))))))
  unfolding Dict.append
  step_entry (bytes b) back = unfold places payloads in after_binary b
  step_entry (seq s i ys) back =
      after_entry (seq s i ys) back (unfold places in Deep-places_items 0 ys)
  step_entry (dict i gs) back =
      after_entry (dict i gs) back (unfold places in Deep-places_fields gs)
  step_entry x back = after_entry x back (unfold places in tt)
