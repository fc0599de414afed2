-- ===== src/Backends.antt =====
-- scripts/e2e_all.py: runs the example of every language and sums up. What is on the PATH, which
-- tasks are defined and what a task does are parameters; a task changes the world, `W`, and returns.
-- So is Python's `str` of a number. Backends/Program: the main program, over processes.
mod Verdict
mod Program
mod Examples
use Prim.Native.Nat.{max}
use Prim.Native.Char.{Char, char, code}
use Prim.Native.String.{◌++◌ as text_append}
use text.Mathlib.Text.{◌==◌}
use cositos.Base.{
  ℕ, zero, suc, ◌+◌, ◌-◌, String, Bool, true, false, not, ◌&&◌, ◌||◌, Option, none, some, List, [],
  ◌∷◌, ◌++◌, ltb, nat_eq, if◌then◌else◌,
}
use cositos.Value.{ℤ, pos}
use cositos.Value.Keys.{int_eq}

pub data Outcome : Type 0 where
  ok skip fail : Outcome

-- `task` is the name of the task that runs the example.
pub record Language : Type 0 where
  pub language_name : String
  pub runtime : String
  pub task : String

pub record Result : Type 0 where
  pub language : String
  pub outcome : Outcome
  pub detail : String

-- The number of characters of a text, and what is left behind the first few.
abbrev length_of : String → ℕ
length_of String.[] = 0
length_of (String.◌∷◌ c s) = suc (length_of s)

abbrev drop_chars : ℕ → String → String
drop_chars zero s = s
drop_chars (suc n) String.[] = String.[]
drop_chars (suc n) (String.◌∷◌ c s) = drop_chars n s

abbrev begins : String → String → Bool
begins String.[] s = true
begins (String.◌∷◌ c p) String.[] = false
begins (String.◌∷◌ c p) (String.◌∷◌ d s) = nat_eq (code c) (code d) && begins p s

-- `needle in output`
unfoldable contains : String → String → Bool
contains needle String.[] = begins needle String.[]
contains needle (String.◌∷◌ c s) = begins needle (String.◌∷◌ c s) || contains needle s

-- The characters that `str.strip` takes off.
abbrev is_space : ℕ → Bool
is_space n =
    (ltb 8 n && ltb n 14)
    || (ltb 27 n && ltb n 33)
    || nat_eq n 133
    || nat_eq n 160
    || nat_eq n 5760
    || (ltb 8191 n && ltb n 8203)
    || nat_eq n 8232
    || nat_eq n 8233
    || nat_eq n 8239
    || nat_eq n 8287
    || nat_eq n 12288

abbrev strip_left : String → String
strip_left String.[] = String.[]
strip_left (String.◌∷◌ c s) =
    let rest = strip_left s in if is_space (code c) then rest else String.◌∷◌ c s

-- A space in front of nothing goes.
abbrev unless_space : Char → String → String
unless_space c String.[] = if is_space (code c) then String.[] else String.◌∷◌ c String.[]
unless_space c (String.◌∷◌ d s) = String.◌∷◌ c (String.◌∷◌ d s)

abbrev strip_right : String → String
strip_right String.[] = String.[]
strip_right (String.◌∷◌ c s) = unless_space c (strip_right s)

abbrev detail_chars : ℕ
detail_chars = 500

-- `output.strip()[-_DETAIL_CHARS:]`
unfoldable tail_of : String → String
tail_of output =
    let stripped = strip_right (strip_left output) in
    drop_chars (length_of stripped - detail_chars) stripped

abbrev no_runtime : Language → Result
no_runtime lang = record {
  language = lang.language_name;
  outcome = skip;
  detail = text_append "no " lang.runtime;
}

abbrev no_task : Language → Result
no_task lang = record {
  language = lang.language_name;
  outcome = skip;
  detail = text_append lang.task " not implemented yet";
}

-- a run that returned 0 and printed the marker
abbrev has_passed : Language → ℤ → String → Bool
has_passed lang returncode output =
    int_eq returncode (pos 0) && contains (text_append "OK " lang.language_name) output

abbrev ran : Language → ℤ → String → Result
ran lang returncode output =
    if has_passed lang returncode output
    then record { language = lang.language_name; outcome = ok; detail = "" }
    else record { language = lang.language_name; outcome = fail; detail = tail_of output }

abbrev is_fail : Outcome → Bool
is_fail fail = true
is_fail _ = false

abbrev any_fail : List Result → Bool
any_fail [] = false
any_fail (r ∷ rs) = is_fail r.outcome || any_fail rs

module _ {W : Type 0} (which : String → Option String) (task_exists : String → Bool)
    (run_task : String → W → ℤ × String × W) where
  unfoldable run_language : Language → W → Result × W
  run_language lang w = elim (which lang.runtime) [
    | none ↦ (no_runtime lang, w)
    | some path ↦
        if not (task_exists lang.task)
        then (no_task lang, w)
        else (let (returncode, output, w') = run_task lang.task w in
            (ran lang returncode output, w'))
  ]

  -- the comprehension over the languages
  unfoldable run_languages : List Language → W → List Result × W
  run_languages [] w = ([], w)
  run_languages (lang ∷ langs) w =
      let (r, w') = run_language lang w in let (rs, w'') = run_languages langs w' in (r ∷ rs, w'')

  unfoldable orchestrate : List Language → W → (List Result × ℕ) × W
  orchestrate langs w =
      let (results, w') = run_languages langs w in
      ((results, if any_fail results then 1 else 0), w')

abbrev outcome_text : Outcome → String
outcome_text ok = "OK"
outcome_text skip = "SKIP"
outcome_text fail = "FAIL"

abbrev concat : List String → String
concat [] = ""
concat (s ∷ ss) = text_append s (concat ss)

-- `"\n".join(lines)`
abbrev lines_of : List String → String
lines_of [] = ""
lines_of (s ∷ []) = s
lines_of (s ∷ ss) = concat (s ∷ "\n" ∷ lines_of ss ∷ [])

abbrev repeated : ℕ → String → String
repeated zero s = ""
repeated (suc n) s = text_append s (repeated n s)

-- `s.ljust(width)`
abbrev padded : ℕ → String → String
padded width s = text_append s (repeated (width - length_of s) " ")

-- `max(..., default=4)` of the lengths of the names
abbrev widest : ℕ → List Result → ℕ
widest n [] = n
widest n (r ∷ rs) = widest (max n (length_of r.language)) rs

abbrev width_of : List Result → ℕ
width_of [] = 4
width_of (r ∷ rs) = widest (length_of r.language) rs

abbrev same_outcome : Outcome → Outcome → Bool
same_outcome ok ok = true
same_outcome skip skip = true
same_outcome fail fail = true
same_outcome _ _ = false

abbrev count_of : Outcome → List Result → ℕ
count_of o [] = 0
count_of o (r ∷ rs) =
    let rest = count_of o rs in if same_outcome r.outcome o then suc rest else rest

abbrev suffix_of : String → String
suffix_of String.[] = ""
suffix_of (String.◌∷◌ c s) = concat ("  (" ∷ String.◌∷◌ c s ∷ ")" ∷ [])

abbrev result_lines : ℕ → List Result → List String
result_lines width [] = []
result_lines width (r ∷ rs) =
    concat
      ("  " ∷ padded width r.language ∷ "  " ∷ outcome_text r.outcome ∷ suffix_of r.detail ∷ [])
    ∷ result_lines width rs

-- `format_summary`, where `str` is Python's of a number
unfoldable format_summary : (ℕ → String) → List Result → String
format_summary str results =
    let width = width_of results in
    lines_of (
      ("" ∷ "e2e-all summary:" ∷ repeated (width + 12) "-" ∷ result_lines width results)
      ++ concat (
          "-> "
          ∷ str (count_of ok results)
          ∷ " OK, "
          ∷ str (count_of skip results)
          ∷ " SKIP, "
          ∷ str (count_of fail results)
          ∷ " FAIL"
          ∷ [])
        ∷ [])
