-- ===== src/Backends/Examples.antt =====
-- The orchestrator over a log of the tasks that were run, on a machine without Rscript.
use text.Mathlib.Text.{◌==◌}
use cositos.Base.{
  ℕ, zero, suc, String, ◌≡◌, refl, ◌↔◌, Option, none, some, List, [], ◌∷◌, ◌++◌, if◌then◌else◌,
  true,
}
use cositos.Value.{ℤ, pos}
use cositos.Value.Keys.{int_eq}
use cositos.Backends.{
  Language, run_language, run_languages, orchestrate, format_summary, contains, tail_of,
}
use cositos.Value.{
  Value, name, str, seq, dict, list_kind, fresh, Items, nil, cons, end, field, key_eq,
}
use cositos.Value.Dict.{lookup}
use cositos.Errors.{ok, runtime_error, err}
use cositos.Errors
use cositos.Buffers.Put.{get_item}
use cositos.Backends.Program.{task_names, defined_tasks, main}
use cositos.Backends.Verdict.{names_of_results, names_of, world_after, AllPass, orchestrate-AllPass}

abbrev which : String → Option String
which s = if s == "Rscript" then none else some s

-- The task of clojure prints nothing that counts, and the task of julia ends with 3.
abbrev run_process : List String → List String → ℤ × String × String × List String
run_process (m ∷ r ∷ task ∷ []) log =
    if task == "e2e-python"
    then (pos 0, "OK python", "", log ++ task ∷ [])
    else (if task == "e2e-clojure"
        then (pos 0, "OK clojur", " e ", log ++ task ∷ [])
        else (pos 3, "", " boom ", log ++ task ∷ []))
run_process _ log = (pos 0, "", "", log)

abbrev digit : ℕ → String
digit zero = "0"
digit (suc zero) = "1"
digit (suc (suc n)) = "2"

abbrev defined : List String
defined = "e2e-python" ∷ "e2e-julia" ∷ "e2e-r" ∷ "e2e-clojure" ∷ []

abbrev task_list : List String → Items
task_list [] = nil
task_list (t ∷ ts) = cons (dict fresh (field (name "name") (str t) end)) (task_list ts)

abbrev loads : String → Errors.Result Value
loads s = ok (seq list_kind fresh (task_list defined))

main_test : main digit which run_process loads [] ≡ (
  ok (
    "\ne2e-all summary:\n-------------------\n  python   OK\n  julia    FAIL  (boom)\n  csharp   SKIP  (e2e-csharp not implemented yet)\n  r        SKIP  (no Rscript)\n  clojure  FAIL  (OK clojur e)\n-> 1 OK, 2 SKIP, 2 FAIL",
    1,
  ),
  "e2e-python" ∷ "e2e-julia" ∷ "e2e-clojure" ∷ [],
)
unfolding main orchestrate run_languages run_language format_summary contains tail_of int_eq
    defined_tasks task_names get_item lookup key_eq
main_test = refl

abbrev quiet : String → List String → ℤ × String × List String
quiet task log = (pos 0, "OK python", log ++ task ∷ [])

abbrev two : List Language
two =
    record { language_name = "python"; runtime = "uv"; task = "e2e-python" }
    ∷ record { language_name = "r"; runtime = "Rscript"; task = "e2e-r" }
    ∷ []

orchestrate-AllPass_example :
    (names_of_results (orchestrate which (λ _. true) quiet two []).0.0 ≡ names_of two)
    × ((orchestrate which (λ _. true) quiet two []).1 ≡ world_after which (λ _. true) quiet two [])
    × (◌≡◌ {A = ℕ} (orchestrate which (λ _. true) quiet two []).0.1 0
        ↔ AllPass which (λ _. true) quiet two [])
orchestrate-AllPass_example = orchestrate-AllPass which (λ _. true) quiet two []
