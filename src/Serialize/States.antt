-- ===== src/Serialize/States.antt =====
-- Saving and loading a model, as an operation on what states say.
use cositos.Base.{String, ◌≡◌, sym, ap, ◌∙◌, ◌↔◌}
use cositos.Value.{Ident, Value, dict, Fields}
use cositos.Value.View.{Same}
use cositos.Value.State.{State, said, said-Same_iff}
use cositos.Errors.{Result, ok, ◌>>=◌}
use cositos.Buffers.Accepts.{IsAccepted}
use cositos.Serialize.{Base64, dump_model, load_model}
use cositos.Serialize.RoundTrip.{IsLossless, load_model-dump_model}

module _ (codec : Base64) (lossless : IsLossless codec) (version : String) where
  -- What the state says that comes back of a model that is saved and loaded.
  abbrev pub reload : Value → Result State
  reload v = dump_model codec v version >>= load_model codec >>= λ w. ok (said w)

  reload-said :
      (i : Ident) (fs : Fields)
      → IsAccepted (dict i fs)
      → reload (dict i fs) ≡ ok (said (dict i fs))
  reload-said i fs h =
      let (r, w, dumps, loads, same) = load_model-dump_model codec lossless i fs version h in
      rw (dumps, loads) (ap ok (sym ((said-Same_iff (dict i fs) w).1 same)))

  -- Saving and loading an accepted dict returns, and is the identity on states by what they say; so
  -- what comes back of two of them is one state just if the two say the same.
  pub reload-State :
      (i j : Ident) (fs gs : Fields)
      → IsAccepted (dict i fs)
      → IsAccepted (dict j gs)
      → (reload (dict i fs) ≡ ok (said (dict i fs)))
        × ((reload (dict i fs) ≡ reload (dict j gs)) ↔ Same (dict i fs) (dict j gs))
  reload-State i j fs gs h h' =
      let one = reload-said i fs h in
      let two = reload-said j gs h' in
      let iff = said-Same_iff (dict i fs) (dict j gs) in
      (one, (λ e. iff.0 (inner_path (sym one ∙ e ∙ two)), λ s. one ∙ ap ok (iff.1 s) ∙ sym two))
    where
      inner_path : {s t : State} → ok s ≡ ok t → s ≡ t
      inner_path p = cc p
