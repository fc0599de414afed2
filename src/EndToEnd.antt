-- ===== src/EndToEnd.antt =====
-- examples/e2e/python_e2e.py: the check of the pinned document. Base64, and what difflib makes of two
-- documents that differ, are parameters; the pinned document is an argument.
mod Verdict
mod Examples
use cositos.Base.{ℕ, String, Bool, true, false, ◌&&◌, List, [], ◌∷◌, ◌++◌, if◌then◌else◌}
use cositos.Value.{pos, Key, name, key_eq, fresh, Value, int, str, dict, end, field}
use cositos.Value.Equal.{equal}
use cositos.Errors.{type_error, Result, ok, err, ◌>>=◌}
use cositos.Protocol.{anywidget_module_version}
use cositos.Serialize.{Base64, ModelEntry, dump_document, load_document}

abbrev pub counter_id : String
counter_id = "counter"

abbrev pub input_state : Value
input_state = dict fresh (
    field (name "_esm")
      (str "export default { render({ model, el }) { el.textContent = model.get(\"value\"); } }")
      (field (name "value") (int (pos 42)) end))

-- `==` of what is loaded and what was saved
abbrev same_entries : List (Key × Value) → List ModelEntry → Bool
same_entries [] [] = true
same_entries ((k, v) ∷ ms) ((a, w) ∷ es) = key_eq k (name a) && (equal v w && same_entries ms es)
same_entries ms es = false

-- `load_document(doc)`
abbrev load_from : Base64 → Value → Result (List (Key × Value))
load_from codec (dict i fs) = load_document codec fs
load_from codec v = err type_error

module _ (codec : Base64) (diff : Value → Value → List String) where
  unfoldable pub build_document : Result Value
  build_document = dump_document codec ((counter_id, input_state) ∷ []) anywidget_module_version

  unfoldable pub round_trip_failures : Result (List String)
  round_trip_failures = do
    doc ← build_document
    loaded ← load_from codec doc
    ok (
        if same_entries loaded ((counter_id, input_state) ∷ [])
        then []
        else "round-trip law violated" ∷ [])

  -- `_json_diff`
  unfoldable pub json_diff : Value → Value → List String
  json_diff expected actual =
      if equal expected actual
      then []
      else "produced document diverges from expected.json:" ∷ diff expected actual

  unfoldable pub verify : Value → Result (List String)
  verify expected = do
    failures ← round_trip_failures
    doc ← build_document
    ok (failures ++ json_diff expected doc)

  abbrev pub exit_code_of : List String → ℕ
  exit_code_of [] = 0
  exit_code_of (failure ∷ failures) = 1

  -- `main`, given the pinned document: its exit code
  unfoldable pub main : Value → Result ℕ
  main expected = do failures ← verify expected; ok (exit_code_of failures)
