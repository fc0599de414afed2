-- ===== src/Audit.antt =====
-- scripts/coverage_audit.py: which directories the manifest must declare, and what is wrong with the
-- declarations. What git, the file system and the tool answer are parameters, one answer for each
-- directory; messages are the cases of `Problem`, and a note about a missing tool is not kept.
mod Consistency
mod Examples
use text.Mathlib.Text.{◌==◌}
use Prim.Native.Char.{Char, code}
use Prim.Native.Nat.{Ordering}
use Prim.Native.String.{compare}
use cositos.Base.{
  ℕ, String, Bool, true, false, not, ◌&&◌, ◌||◌, Option, none, some, List, [], ◌∷◌, ◌++◌, nat_eq,
  if◌then◌else◌,
}
use cositos.Serialize.References.{insert_sorted}

abbrev text_in : String → List String → Bool
text_in s [] = false
text_in s (t ∷ ts) = s == t || text_in s ts

-- `NON_CORE`
abbrev non_core : List String
non_core =
    "docs" ∷ "examples" ∷ "tests" ∷ "fixtures" ∷ "openspec" ∷ "front" ∷ "scripts" ∷ "node_modules"
    ∷ "target" ∷ []

-- An entry of the repository's root, with the exit code of `git check-ignore` on it, if git runs.
pub record Entry : Type 0 where
  pub entry_name : String
  pub is_dir : Bool
  pub git_code : Option ℕ

-- A declared directory: whether its flags are set, whether it has an `exempt` key, whether it is on
-- disk, and the tool's answer, which is missing without the tool: the number of its files, if the
-- answer is JSON.
pub record Core : Type 0 where
  pub pretender : Bool
  pub espectacular : Bool
  pub exempt : Bool
  pub exists : Bool
  pub answer : Option (Option ℕ)

-- `pretender_parses_files`, of the tool's answer
abbrev pretender_parses_files : Option (Option ℕ) → Option Bool
pretender_parses_files none = none
pretender_parses_files (some none) = some false
pretender_parses_files (some (some n)) = some (not (nat_eq n 0))

-- `_is_gitignored`, of the exit code
abbrev pub is_gitignored : Option ℕ → Bool
is_gitignored none = false
is_gitignored (some n) = nat_eq n 0

abbrev is_hidden : String → Bool
is_hidden String.[] = false
is_hidden (String.◌∷◌ c s) = nat_eq (code c) 46

abbrev pub is_backend : Entry → Bool
is_backend e =
    e.is_dir
    && not (is_hidden e.entry_name)
    && not (text_in e.entry_name non_core)
    && not (is_gitignored e.git_code)

-- `discover_backend_dirs`, sorted
unfoldable discover_backend_dirs : List Entry → List String
discover_backend_dirs [] = []
discover_backend_dirs (e ∷ es) =
    let rest = discover_backend_dirs es in
    if is_backend e then insert_sorted e.entry_name rest else rest

-- `d.split("/")[0]`
abbrev first_part : String → String
first_part String.[] = String.[]
first_part (String.◌∷◌ c s) =
    let rest = first_part s in if nat_eq (code c) 47 then String.[] else String.◌∷◌ c rest

abbrev declared : List (String × Core) → List String
declared [] = []
declared ((d, c) ∷ cores) = first_part d ∷ declared cores

pub data Problem : Type 0 where
  undeclared stale unbound no_op : String → Problem

-- the first loop
abbrev undeclared_dirs : List String → List String → List Problem
undeclared_dirs [] ds = []
undeclared_dirs (n ∷ ns) ds =
    let rest = undeclared_dirs ns ds in if text_in n ds then rest else undeclared n ∷ rest

abbrev is_no_op : Core → Bool
is_no_op c = elim (pretender_parses_files c.answer) [ none ↦ false | some b ↦ c.pretender && not b ]

-- the body of the second loop
abbrev core_problems : String → Core → List Problem
core_problems n c =
    if not c.exists
    then stale n ∷ []
    else (if not (c.pretender || c.espectacular) && not c.exempt then unbound n ∷ [] else [])
      ++ (if is_no_op c then no_op n ∷ [] else [])

-- `sorted(cores.items())`. No name stands twice.
abbrev insert_core : String × Core → List (String × Core) → List (String × Core)
insert_core c [] = c ∷ []
insert_core c (d ∷ ds) =
    let rest = insert_core c ds in
    elim (compare c.0 d.0) [ Ordering.gt ↦ d ∷ rest | _ ↦ c ∷ d ∷ ds ]

abbrev sorted_cores : List (String × Core) → List (String × Core)
sorted_cores [] = []
sorted_cores (c ∷ cs) = insert_core c (sorted_cores cs)

abbrev declared_problems : List (String × Core) → List Problem
declared_problems [] = []
declared_problems ((n, c) ∷ cores) = core_problems n c ++ declared_problems cores

unfoldable problems : List Entry → List (String × Core) → List Problem
problems entries cores =
    undeclared_dirs (discover_backend_dirs entries) (declared cores)
    ++ declared_problems (sorted_cores cores)

abbrev exit_code : List Problem → ℕ
exit_code [] = 0
exit_code (p ∷ ps) = 1

-- `main`, of a manifest that may be missing, with its exit code
unfoldable main : List Entry → Option (List (String × Core)) → ℕ
main entries none = 1
main entries (some cores) = exit_code (problems entries cores)
