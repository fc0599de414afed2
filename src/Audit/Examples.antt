-- ===== src/Audit/Examples.antt =====
-- A test of the audit.
use cositos.Base.{◌↔◌, All, ◌≡◌, refl, true, false, none, some, List, [], ◌∷◌, String}
use cositos.Serialize.References.{insert_sorted}
use cositos.Audit.Consistency.{IsDeclared, AllConsistent, main-zero_iff}
use cositos.Audit.{Entry, Core, problems, discover_backend_dirs, main, undeclared, no_op}

abbrev entries : List Entry
entries =
    record { entry_name = "src"; is_dir = true; git_code = some 1 }
    ∷ record { entry_name = "julia"; is_dir = true; git_code = some 1 }
    ∷ record { entry_name = "docs"; is_dir = true; git_code = some 1 }
    ∷ record { entry_name = ".git"; is_dir = true; git_code = none }
    ∷ []

abbrev cores : List (String × Core)
cores =
    (
      "src/cositos",
      record {
        pretender = true;
        espectacular = false;
        exempt = false;
        exists = true;
        answer = some (some 0);
      },
    )
    ∷ []

problems_found : problems entries cores ≡ undeclared "julia" ∷ no_op "src/cositos" ∷ []
unfolding problems discover_backend_dirs insert_sorted
problems_found = refl

no_manifest : main entries none ≡ 1
unfolding main
no_manifest = refl

main-zero_iff_example :
    (main entries (some cores) ≡ 0) ↔ (All (IsDeclared cores) entries × AllConsistent cores)
main-zero_iff_example = main-zero_iff entries cores
