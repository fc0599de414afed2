-- ===== src/Serialize/Examples.antt =====
-- The theorems on documents at a concrete document, with a small codec for bytes.
use cositos.Base.{none, some, ◌≡◌, refl, List, [], ◌∷◌, arith, ◌↔◌}
use cositos.Value.{
  name, key_eq, Key, object, fresh, ident_mem, Value, str, bytes, seq, list_kind, dict, nil, cons,
  Fields, end, field,
}
use cositos.Value.Dict.{lookup}
use cositos.Errors.{ok}
use cositos.Buffers.{max_depth}
use cositos.Buffers.Faults.{height}
use cositos.Buffers.Accepts.{IsAccepted}
use cositos.Serialize.{ModelEntry, dump_document, load_document}
use cositos.Serialize.References.{model_ref, check_references}
use cositos.Serialize.Documents.{IsValid, Loaded, load_document-dump_document, dump_document-ok_iff}
use cositos.Serialize.References.Named.{Names, Dangles, EachHasIds, check_references-Dangles}
use cositos.Serialize.References.{
  raise_dangling, dangling, referenced_ids, missing_ids, insert_sorted, insert_holder,
}
use cositos.Errors.{value_error, err}
use cositos.Base.{String}
use cositos.Serialize.Complete.{AllResolved, check_references-dump_document}
use cositos.Serialize.Strokes.{codec, codec-IsLossless}

-- A model with an image and a list that holds another.
abbrev picture : Fields
picture = field (name "_model_name") (str "PictureModel") (
    field (name "img") (bytes (2 ∷ 0 ∷ []))
      (field (name "rows") (seq list_kind (object 2) (cons (bytes (1 ∷ [])) nil)) end))

abbrev box : Fields
box = field (name "children") (seq list_kind (object 4) (cons (str "IPY_MODEL_a") nil)) end

picture-IsAccepted : IsAccepted (dict (object 1) picture)
unfolding height max_depth ident_mem lookup key_eq
picture-IsAccepted = record { tidy = ground arith; shallow = omega arith; acyclic = ground arith }

box-IsAccepted : IsAccepted (dict (object 3) box)
unfolding height max_depth ident_mem lookup key_eq
box-IsAccepted = record { tidy = ground arith; shallow = omega arith; acyclic = ground arith }

abbrev models : List ModelEntry
models = ("a", dict (object 1) picture) ∷ ("b", dict (object 3) box) ∷ []

load_document-dump_document_example :
    (doc : Fields) × (ms : List (Key × Value)) × (dump_document codec models "~0.9.*"
      ≡ ok (dict fresh doc))
    × (load_document codec doc ≡ ok ms)
    × Loaded models ms
load_document-dump_document_example =
    load_document-dump_document codec codec-IsLossless "~0.9.*" models
      ((refl, refl, (refl, refl, tt))) (picture-IsAccepted, (box-IsAccepted, tt))

-- Two models of one id.
abbrev twins : List ModelEntry
twins = ("a", dict (object 3) box) ∷ ("a", dict (object 3) box) ∷ []

dump_document-ok_iff_example :
    ((doc : Value) × (dump_document codec twins "~0.9.*" ≡ ok doc)) ↔ IsValid twins
dump_document-ok_iff_example =
    dump_document-ok_iff codec codec-IsLossless "~0.9.*" twins
      (box-IsAccepted, (box-IsAccepted, tt))

-- A document of which one model holds the other.
abbrev saved_models : Fields
saved_models =
    field (name "a") (dict fresh (field (name "state") (dict fresh end) end))
      (field (name "b") (dict fresh (field (name "state") (dict fresh box) end)) end)

abbrev saved_document : Fields
saved_document = field (name "state") (dict fresh saved_models) end

-- The `$` of the source's regular expression also matches before a last newline.
newline_reference : model_ref "IPY_MODEL_a\n" ≡ some "a"
unfolding model_ref
newline_reference = refl

inner_newline : model_ref "IPY_MODEL_a\nb" ≡ none
unfolding model_ref
inner_newline = refl

-- The model that `b` refers to is missing.
abbrev torn_models : Fields
torn_models =
    field (name "c") (dict fresh (field (name "state") (dict fresh end) end))
      (field (name "b") (dict fresh (field (name "state") (dict fresh box) end)) end)

abbrev torn_document : Fields
torn_document = field (name "state") (dict fresh torn_models) end

check_references-Dangles_example :
    (hs : List (String × List String)) × (check_references torn_document ≡ raise_dangling hs)
    × ((holder rid : String) → Names holder rid hs ↔ Dangles holder rid torn_models torn_models)
    × EachHasIds hs
    × ((check_references torn_document ≡ ok tt)
        ↔ ((holder rid : String) → ¬ Dangles holder rid torn_models torn_models))
unfolding lookup key_eq
check_references-Dangles_example = check_references-Dangles torn_document torn_models fresh refl tt

torn_message :
    check_references torn_document
    ≡ err (value_error "dangling IPY_MODEL references (missing models): b -> a")
unfolding check_references dangling referenced_ids model_ref missing_ids insert_sorted insert_holder
    lookup key_eq
torn_message = refl

-- The second model refers to the first.
check_references-dump_document_example :
    (doc : Fields) × (dump_document codec models "~0.9.*" ≡ ok (dict fresh doc))
    × ((check_references doc ≡ ok tt) ↔ AllResolved models models)
check_references-dump_document_example =
    check_references-dump_document codec codec-IsLossless "~0.9.*" models
      ((refl, refl, (refl, refl, tt))) (picture-IsAccepted, (box-IsAccepted, tt))
