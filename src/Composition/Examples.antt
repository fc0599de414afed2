-- ===== src/Composition/Examples.antt =====
-- The document of the composition has every model that its container refers to.
use cositos.Base.{◌≡◌, refl}
use cositos.Value.{key_eq, ident_mem}
use cositos.Value.Dict.{lookup, insert}
use cositos.Errors.{ok, ◌>>=◌}
use cositos.Buffers.{max_depth, remove_buffers, run, cost}
use cositos.Serialize.{encode_buffers, dump_model, dump_entries, dump_document}
use cositos.Serialize.References.{
  model_ref, referenced_ids, missing_ids, insert_sorted, dangling, check_references,
}
use cositos.Serialize.Strokes.{codec}
use cositos.Composition.{tree_document, fields_in}

resolved : (tree_document codec >>= λ doc. fields_in doc >>= check_references) ≡ ok tt
unfolding dump_document dump_entries dump_model encode_buffers remove_buffers run cost max_depth
    ident_mem lookup insert key_eq check_references dangling missing_ids referenced_ids model_ref
    insert_sorted
resolved = refl
