-- ===== src/Backends/Program.antt =====
-- The main program of scripts/e2e_all.py. Processes are a parameter, and so is `json.loads`. A process
-- that is run with `check=True` and ends with another code than 0 raises; so does an element of the
-- output that has no name or whose name cannot stand in a set.
use Prim.Native.String.{◌++◌ as text_append}
use cositos.Base.{ℕ, String, Bool, false, ◌||◌, Option, List, [], ◌∷◌, if◌then◌else◌}
use cositos.Value.{ℤ, pos, name, Value, seq, dict, Items, nil, cons, end}
use cositos.Value.Keys.{int_eq}
use cositos.Errors.{type_error, runtime_error, Result, ok, err, ◌>>=◌}
use cositos.Buffers.Put.{get_item}
use cositos.Protocol.{is_text}
use cositos.Backends.{Language, orchestrate, format_summary}

-- `LANGUAGES`
abbrev languages : List Language
languages =
    record { language_name = "python"; runtime = "uv"; task = "e2e-python" }
    ∷ record { language_name = "julia"; runtime = "julia"; task = "e2e-julia" }
    ∷ record { language_name = "csharp"; runtime = "dotnet"; task = "e2e-csharp" }
    ∷ record { language_name = "r"; runtime = "Rscript"; task = "e2e-r" }
    ∷ record { language_name = "clojure"; runtime = "clojure"; task = "e2e-clojure" }
    ∷ []

-- `t in defined`
abbrev is_member : String → List Value → Bool
is_member s [] = false
is_member s (t ∷ ts) = is_text t s || is_member s ts

-- an element of a set
abbrev hashed : Value → Result Value
hashed (dict i fs) = err type_error
hashed (seq k i xs) = err type_error
hashed v = ok v

-- `{t["name"] for t in tasks}`, with repetitions
unfoldable pub task_names : Items → Result (List Value)
task_names nil = ok []
task_names (cons t ts) = do
  v ← get_item t (name "name")
  task_name ← hashed v
  rest ← task_names ts
  ok (task_name ∷ rest)

-- the loop over what `json.loads` returned
abbrev names_in : Value → Result (List Value)
names_in (seq k i tasks) = task_names tasks
names_in (dict i end) = ok []
names_in v = err type_error

module _ {W : Type 0} (to_text : ℕ → String) (which : String → Option String)
    (run : List String → W → ℤ × String × String × W) (loads : String → Result Value) where
  -- `run args` is the return code, the standard output and the error output of a process.
  abbrev run_mise_task : String → W → ℤ × String × W
  run_mise_task task w =
      let (returncode, stdout, stderr, w') = run ("mise" ∷ "run" ∷ task ∷ []) w in
      (returncode, text_append stdout stderr, w')

  -- `_defined_tasks`
  unfoldable pub defined_tasks : W → Result (List Value) × W
  defined_tasks w =
      let (returncode, stdout, stderr, w') = run ("mise" ∷ "tasks" ∷ "ls" ∷ "--json" ∷ []) w in
      (
        (if int_eq returncode (pos 0)
            then (loads stdout >>= names_in)
            else err (runtime_error "CalledProcessError")),
        w',
      )

  -- `main`, behind `_defined_tasks`
  abbrev with_tasks : Result (List Value) × W → Result (String × ℕ) × W
  with_tasks (err e, w) = (err e, w)
  with_tasks (ok defined, w) =
      let ((results, exit_code), w') =
        orchestrate which (λ t. is_member t defined) run_mise_task languages w in
      (ok (format_summary to_text results, exit_code), w')

  -- `main`: what it prints, and its exit code
  unfoldable pub main : W → Result (String × ℕ) × W
  main w = with_tasks (defined_tasks w)
