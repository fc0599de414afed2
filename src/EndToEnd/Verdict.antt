-- ===== src/EndToEnd/Verdict.antt =====
-- When the check of the pinned document passes.
use cositos.Base.{ℕ, String, ◌≡◌, refl, ◌↔◌, true, Bool-cases, inl, inr, List, [], arith}
use cositos.Value.{key_eq, fresh, Value, dict, Fields, ident_mem}
use cositos.Value.Keys.{int_eq}
use cositos.Value.Dict.{lookup, insert}
use cositos.Value.Equal.{equal}
use cositos.Errors.{Result, ok, err}
use cositos.Buffers.{max_depth, remove_buffers, run, cost}
use cositos.Buffers.Put.{get_item, put_buffers}
use cositos.Serialize.{
  Base64, encode_buffers, decode_buffers, dump_model, load_model, dump_entries, dump_document,
  load_records, load_document,
}
use cositos.EndToEnd.{build_document, round_trip_failures, json_diff, exit_code_of, verify, main}

abbrev pub made_document : Result Value → Value
made_document (ok v) = v
made_document (err e) = dict fresh Fields.end

module _ (codec : Base64) (diff : Value → Value → List String) where
  built : build_document codec diff ≡ ok (made_document (build_document codec diff))
  unfolding build_document dump_document dump_entries dump_model encode_buffers remove_buffers run
      cost max_depth ident_mem lookup insert key_eq
  built = refl

  round_trips : round_trip_failures codec diff ≡ ok []
  unfolding round_trip_failures build_document dump_document dump_entries dump_model encode_buffers
      remove_buffers run cost max_depth ident_mem lookup insert key_eq load_document load_records
      load_model get_item decode_buffers put_buffers int_eq equal
  round_trips = refl

  ended :
      (expected doc : Value)
      → build_document codec diff ≡ ok doc
      → main codec diff expected ≡ ok (exit_code_of codec diff (json_diff codec diff expected doc))
  unfolding main verify
  ended expected doc e = rw (round_trips, e) refl

  exit_code_of-zero_iff :
      (expected doc : Value)
      → (exit_code_of codec diff (json_diff codec diff expected doc) ≡ 0)
        ↔ (equal expected doc ≡ true)
  unfolding json_diff
  exit_code_of-zero_iff expected doc = elim (Bool-cases (equal expected doc)) [
    | inl same ↦ rw same (λ h. refl, λ h. refl)
    | inr other ↦ rw other (λ h. ground (arith, h), λ h. ground (arith, h))
  ]

  -- The program returns, whatever the pinned document is, and its exit code is 0 just if the pinned
  -- document equals the one that the program makes.
  pub main-equal_iff :
      (expected : Value)
      → (n : ℕ) × (main codec diff expected ≡ ok n)
        × ((n ≡ 0) ↔ (equal expected (made_document (build_document codec diff)) ≡ true))
  main-equal_iff expected =
      let doc = made_document (build_document codec diff) in
      (_, ended expected doc built, exit_code_of-zero_iff expected doc)
