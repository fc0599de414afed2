-- ===== src/EndToEnd/Examples.antt =====
-- The check at a pinned document, and at another one.
use cositos.Base.{String, ◌≡◌, refl, List, [], ◌∷◌}
use cositos.Value.{pos, name, key_eq, ident_mem, fresh, Value, int, str, dict, end, field}
use cositos.Value.Keys.{int_eq}
use cositos.Value.Dict.{lookup, insert}
use cositos.Buffers.{max_depth, remove_buffers, run, cost}
use cositos.Buffers.Put.{get_item, put_buffers}
use cositos.Serialize.{
  encode_buffers, decode_buffers, dump_model, load_model, dump_entries, dump_document, load_records,
  load_document,
}
use cositos.Value.Equal.{equal}
use cositos.Errors.{ok}
use cositos.Serialize.Strokes.{codec}
use cositos.EndToEnd.{input_state, build_document, round_trip_failures, json_diff, verify, main}

abbrev diff : Value → Value → List String
diff v w = "-null" ∷ []

-- expected.json, whose entries stand in another order
abbrev pinned : Value
pinned = dict fresh (
    field (name "state")
      (dict fresh (
        field (name "counter")
          (dict fresh (
            field (name "model_module") (str "anywidget") (
              field (name "model_module_version") (str "~0.11.*") (
                field (name "model_name") (str "AnyModel")
                  (field (name "state") input_state end)))))
          end))
      (field (name "version_major") (int (pos 2)) (field (name "version_minor") (int (pos 0)) end)))

pinned_passes : main codec diff pinned ≡ ok 0
unfolding main verify json_diff round_trip_failures build_document dump_document dump_entries
    dump_model encode_buffers remove_buffers run cost max_depth ident_mem lookup insert key_eq
    load_document load_records load_model get_item decode_buffers put_buffers int_eq equal
pinned_passes = refl
