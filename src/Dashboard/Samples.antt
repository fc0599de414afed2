-- ===== src/Dashboard/Samples.antt =====
-- A small dashboard, with a catalog of one companion.
use cositos.Base.{String, List, [], ◌∷◌, arith}
use cositos.Value.{pos, name, key_eq, ident_mem, fresh, Value, null, int, str, dict, end, field}
use cositos.Value.Dict.{lookup}
use cositos.Errors.{Result, ok, err}
use cositos.Buffers.{max_depth}
use cositos.Serialize.Strokes.{codec}
use cositos.Buffers.Accepts.{IsAccepted}
use cositos.Buffers.Faults.{height}
use cositos.Serialize.{ModelEntry}
use cositos.Controls.{Identity, identity_fields, Spec}
use cositos.Dashboard.{Setting, Dashboard, new_dashboard}

abbrev pub identity : Identity
identity = record {
  model_name = str "M";
  model_module = str "@jupyter-widgets/controls";
  model_module_version = str "2.0.0";
  view_name = str "V";
  view_module = str "@jupyter-widgets/controls";
  view_module_version = str "2.0.0";
}

abbrev pub spec : Spec
spec = record {
  identity = identity;
  default_state = field (name "layout") null end;
  companions = record { key = "layout"; identity = identity } ∷ [];
}

abbrev pub to_text : Value → String
to_text (int (pos n)) = "some number"
to_text (str s) = s
to_text v = "no number"

abbrev pub setting : Setting
setting = record {
  to_text = to_text;
  rendering = record { dumps = λ v. "{}"; dumps_indented = λ v. "{}"; format = λ s v. s };
  codec = codec;
  slider_spec = spec;
  dropdown_spec = spec;
  vbox_spec = spec;
  download_button_esm = "export default {}";
}

abbrev pub some_dashboard : Result Dashboard → Dashboard
some_dashboard (ok d) = d
some_dashboard (err e) = record {
  options = [];
  value = null;
  index = null;
  slider_entries = [];
  dropdown_entries = [];
  slider_id = "";
  slider_state = end;
  dropdown_id = "";
  dropdown_state = end;
}

abbrev pub dashboard : Dashboard
dashboard =
    some_dashboard
      (new_dashboard setting ("low" ∷ "high" ∷ []) (int (pos 25)) (int (pos 0)) "s" "d")

pub identity-IsAccepted : IsAccepted (dict fresh (identity_fields identity))
unfolding lookup key_eq height max_depth ident_mem
identity-IsAccepted = record { tidy = ground arith; shallow = omega arith; acyclic = ground arith }

abbrev pub some_entries : Result (List ModelEntry) → List ModelEntry
some_entries (ok es) = es
some_entries (err e) = []
