-- ===== src/Serialize/RoundTrip.antt =====
-- `load_model` after `dump_model`.
use cositos.Base.{◌≡◌, refl, ◌∙◌, List, [], ◌∷◌, length, String, arith}
use cositos.Value.{
  Ident, name, key_eq, Address, fresh, Bytes, Value, str, dict, Items, nil, cons, Fields, end,
  field,
}
use cositos.Value.Dict.{lookup, insert}
use cositos.Value.View.{Same}
use cositos.Errors.{ok}
use cositos.Buffers.Removed.{split_of}
use cositos.Buffers.Accepts.{IsAccepted, remove_buffers-IsAccepted}
use cositos.Buffers.Inverse.{put_buffers-remove_buffers}
use cositos.Buffers.Paired.{length-places}
use cositos.Buffers.Put.{get_item, put_buffers}
use cositos.Protocol.{get_or}
use cositos.Protocol.Wire.{items_address-address_items}
use cositos.Serialize.{
  Base64, buffer_entry, encode_buffers, decode_buffers, b64decode, with_buffers, dump_model,
  load_model,
}

-- What base64 is relied on for: a text that it has made decodes to the bytes it was made of.
abbrev pub IsLossless : Base64 → Type 0
IsLossless codec = (b : Bytes) → codec.decode (str (codec.encode b)) ≡ ok b

module _ (codec : Base64) (lossless : IsLossless codec) where
  b64decode-buffer_entry :
      (a : Address) (b : Bytes) → b64decode codec (buffer_entry codec a b) ≡ ok b
  unfolding b64decode get_item lookup key_eq
  b64decode-buffer_entry a b = lossless b

  decode_buffers-cons :
      (a : Address) (b : Bytes) (xs : Items) (ps : List Address) (bs : List Bytes)
      → decode_buffers codec xs ≡ ok (ps, bs)
      → decode_buffers codec (cons (buffer_entry codec a b) xs) ≡ ok (a ∷ ps, b ∷ bs)
  unfolding decode_buffers get_item lookup key_eq
  decode_buffers-cons a b xs ps bs e =
      rw (items_address-address_items a, b64decode-buffer_entry a b, e)

  -- Encoding as many buffers as there are paths returns, and decoding gives them back.
  pub decode_buffers-encode_buffers :
      (ps : List Address) (bs : List Bytes)
      → length ps ≡ length bs
      → (xs : Items) × (encode_buffers codec ps bs ≡ ok xs)
        × (decode_buffers codec xs ≡ ok (ps, bs))
  unfolding encode_buffers
  decode_buffers-encode_buffers [] [] e = (nil, refl, unfold decode_buffers in refl)
  decode_buffers-encode_buffers [] (b ∷ bs) e = cc e
  decode_buffers-encode_buffers (p ∷ ps) [] e = cc e
  decode_buffers-encode_buffers (p ∷ ps) (b ∷ bs) e =
      let (xs, enc, dec) = decode_buffers-encode_buffers ps bs (omega (arith, e)) in
      (cons (buffer_entry codec p b) xs, rw enc refl, decode_buffers-cons p b xs ps bs dec)

  -- A record of four entries, and of its buffers if there are any.
  abbrev record_of : Value → Value → Value → Value → Items → Value
  record_of a b c state xs = dict fresh (
      with_buffers codec xs (
        field (name "model_name") a (
          field (name "model_module") b
            (field (name "model_module_version") c (field (name "state") state end)))))

  load_model-record_of :
      (a b c state : Value) (xs : Items) (ps : List Address) (bs : List Bytes)
      → decode_buffers codec xs ≡ ok (ps, bs)
      → load_model codec (record_of a b c state xs) ≡ put_buffers state ps bs
  unfolding load_model get_item lookup insert key_eq
  load_model-record_of a b c state nil ps bs e = rw e
  load_model-record_of a b c state (cons x xs) ps bs e = rw e

  -- Dumping a model whose state is an accepted dict raises nothing, and neither does loading the
  -- record: the state that comes back says the same as the first, binary values and all.
  pub load_model-dump_model :
      (i : Ident) (fs : Fields) (version : String)
      → IsAccepted (dict i fs)
      → (r : Value) × (w : Value) × (dump_model codec (dict i fs) version ≡ ok r)
        × (load_model codec r ≡ ok w)
        × Same (dict i fs) w
  unfolding dump_model split_of
  load_model-dump_model i fs version h =
      let (w, back, same) = put_buffers-remove_buffers (dict i fs) h in
      let (xs, enc, dec) = decode_buffers-encode_buffers _ _ (length-places (dict i fs)) in
      (
        record_of (get_or fs (name "_model_name") (str "AnyModel"))
            (get_or fs (name "_model_module") (str "anywidget"))
            (get_or fs (name "_model_module_version") (str version)) (split_of (dict i fs)).state
            xs,
        w,
        rw (remove_buffers-IsAccepted (dict i fs) h, enc) refl,
        load_model-record_of _ _ _ _ xs _ _ dec
            ∙ (rw (remove_buffers-IsAccepted (dict i fs) h) at back),
        same,
      )
