-- ===== src/Backends/Verdict.antt =====
-- What the exit code and the results of the orchestrator say.
use mathlib.Core.Path.{subst}
use cositos.Base.{
  ℕ, String, ◌≡◌, refl, ap, ◌∙◌, ◌↔◌, Bool, true, false, ◌||◌, Option, none, some, List, [], ◌∷◌,
  if◌then◌else◌, arith,
}
use cositos.Value.{ℤ}
use cositos.Backends.{
  Language, Result, has_passed, is_fail, any_fail, run_language, run_languages, orchestrate,
}

abbrev pub names_of_results : List Result → List String
names_of_results [] = []
names_of_results (r ∷ rs) = r.language ∷ names_of_results rs

abbrev pub names_of : List Language → List String
names_of [] = []
names_of (l ∷ ls) = l.language_name ∷ names_of ls

both_false :
    {P Q : Type 0} (a b : Bool) → (a ≡ false) ↔ P → (b ≡ false) ↔ Q → ((a || b) ≡ false) ↔ (P × Q)
both_false true b p q = (λ h. ground arith, λ (x, _). p.1 x)
both_false false b p q = (λ h. (p.0 refl, q.0 h), λ (_, y). q.1 y)

code_zero : (b : Bool) → ◌≡◌ {A = ℕ} (if b then 1 else 0) 0 ↔ (b ≡ false)
code_zero true = (λ h. ground arith, λ h. ground arith)
code_zero false = (λ _. refl, λ _. refl)

module _ {W : Type 0} (which : String → Option String) (task_exists : String → Bool)
    (run_task : String → W → ℤ × String × W) where
  -- A language whose runtime and task are there.
  abbrev pub can_run : Language → Bool
  can_run l = elim (which l.runtime) [ none ↦ false | some path ↦ task_exists l.task ]

  -- The world after the tasks of the languages that can run, one after the other.
  abbrev pub world_after : List Language → W → W
  world_after [] w = w
  world_after (l ∷ ls) w = world_after ls (if can_run l then (run_task l.task w).2 else w)

  -- Each of these tasks, in the world that those before it have left, returns 0 and prints its marker.
  abbrev pub AllPass : List Language → W → Type 0
  AllPass [] w = Unit
  AllPass (l ∷ ls) w =
      (can_run l ≡ true → has_passed l (run_task l.task w).0 (run_task l.task w).1 ≡ true)
      × AllPass ls (if can_run l then (run_task l.task w).2 else w)

  one_world :
      (l : Language) (w : W)
      → (run_language which task_exists run_task l w).1
        ≡ (if can_run l then (run_task l.task w).2 else w)
  unfolding run_language
  one_world l w = ground arith

  one_name :
      (l : Language) (w : W)
      → (run_language which task_exists run_task l w).0.language ≡ l.language_name
  unfolding run_language
  one_name l w = ground arith

  one_pass :
      (l : Language) (w : W)
      → (is_fail (run_language which task_exists run_task l w).0.outcome ≡ false)
        ↔ (can_run l ≡ true → has_passed l (run_task l.task w).0 (run_task l.task w).1 ≡ true)
  unfolding run_language
  one_pass l w = grind arith

  fails_none :
      (ls : List Language) (w : W)
      → (any_fail (run_languages which task_exists run_task ls w).0 ≡ false) ↔ AllPass ls w
  unfolding run_languages
  fails_none [] w = (λ _. tt, λ _. refl)
  fails_none (l ∷ ls) w =
      let one = one_pass l w in
      let rest = fails_none ls (run_language which task_exists run_task l w).1 in
      let world = one_world l w in
      both_false _ _ one (
        subst
          (λ v.
            (any_fail
                (run_languages which task_exists run_task ls
                  (run_language which task_exists run_task l w).1).0
              ≡ false)
            ↔ AllPass ls v)
          world rest)

  names_kept :
      (ls : List Language) (w : W)
      → names_of_results (run_languages which task_exists run_task ls w).0 ≡ names_of ls
  unfolding run_languages
  names_kept [] w = refl
  names_kept (l ∷ ls) w =
      (let first = one_name l w in
        let rest = names_kept ls (run_language which task_exists run_task l w).1 in cc)

  world_reached :
      (ls : List Language) (w : W)
      → (run_languages which task_exists run_task ls w).1 ≡ world_after ls w
  unfolding run_languages
  world_reached [] w = refl
  world_reached (l ∷ ls) w =
      world_reached ls (run_language which task_exists run_task l w).1
      ∙ ap (world_after ls) (one_world l w)

  -- Whatever fails, the orchestrator reports on the languages in their order and has run the task of
  -- every language whose runtime and task are there; its exit code is 0 just when each of these tasks
  -- returned 0 and printed its marker.
  pub orchestrate-AllPass :
      (ls : List Language) (w : W)
      → (names_of_results (orchestrate which task_exists run_task ls w).0.0 ≡ names_of ls)
        × ((orchestrate which task_exists run_task ls w).1 ≡ world_after ls w)
        × (((orchestrate which task_exists run_task ls w).0.1 ≡ 0) ↔ AllPass ls w)
  unfolding orchestrate
  orchestrate-AllPass ls w = (
    names_kept ls w,
    world_reached ls w,
    (let code = code_zero (any_fail (run_languages which task_exists run_task ls w).0) in
        let pass = fails_none ls w in (λ h. pass.0 (code.0 h), λ h. code.1 (pass.1 h))),
  )
