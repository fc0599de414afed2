-- ===== src/Audit/Consistency.antt =====
-- When the audit's exit code is 0.
use Prim.Native.Nat.{Ordering}
use Prim.Native.String.{compare}
use cositos.Base.{
  String, ◌≡◌, refl, ◌↔◌, true, false, ◌||◌, Bool-cases, inl, inr, some, List, [], ◌∷◌, ◌++◌, All,
  arith,
}
use cositos.Serialize.References.Sorted.{All-insert_sorted}
use cositos.Audit.{
  Entry, Core, Problem, text_in, is_backend, discover_backend_dirs, declared, undeclared_dirs,
  is_no_op, core_problems, insert_core, sorted_cores, declared_problems, problems, exit_code, main,
}

-- A declaration of a directory that is there, has a binding or a reason for none, and whose tool, if
-- it runs, finds files.
abbrev pub IsConsistent : Core → Type 0
IsConsistent c =
    (c.exists ≡ true) × ((c.pretender || c.espectacular) || c.exempt ≡ true) × (is_no_op c ≡ false)

abbrev pub AllConsistent : List (String × Core) → Type 0
AllConsistent [] = Unit
AllConsistent ((n, c) ∷ cores) = IsConsistent c × AllConsistent cores

abbrev pub IsDeclared : List (String × Core) → Entry → Type 0
IsDeclared cores e = is_backend e ≡ true → text_in e.entry_name (declared cores) ≡ true

both : {A : Type 0} (xs ys : List A) → (xs ++ ys ≡ []) ↔ ((xs ≡ []) × (ys ≡ []))
both [] ys = (λ h. (refl, h), λ h. h.1)
both (x ∷ xs) ys = (λ h. cc h, λ h. cc h.0)

core_problems-nil : (n : String) (c : Core) → (core_problems n c ≡ []) ↔ IsConsistent c
core_problems-nil n c = ground arith

All-discover_backend_dirs :
    (P : String → Type 0) (entries : List Entry)
    → All P (discover_backend_dirs entries)
      ↔ All (λ e. is_backend e ≡ true → P e.entry_name) entries
unfolding discover_backend_dirs
All-discover_backend_dirs P [] = (λ h. h, λ h. h)
All-discover_backend_dirs P (e ∷ es) = elim (Bool-cases (is_backend e)) [
  | inl found ↦
      let rest = All-discover_backend_dirs P es in
      let here = All-insert_sorted P e.entry_name (discover_backend_dirs es) in
      rw found
        (λ h. let (p, ps) = here.0 h in (λ b. p, rest.0 ps), λ h. here.1 (h.0 refl, rest.1 h.1))
  | inr other ↦
      let rest = All-discover_backend_dirs P es in
      rw other (λ h. (λ b. cc b, rest.0 h), λ h. rest.1 h.1)
]

undeclared_dirs-nil :
    (ns ds : List String) → (undeclared_dirs ns ds ≡ []) ↔ All (λ n. text_in n ds ≡ true) ns
undeclared_dirs-nil [] ds = (λ h. tt, λ h. refl)
undeclared_dirs-nil (n ∷ ns) ds = elim (Bool-cases (text_in n ds)) [
  | inl there ↦
      rw there
        (λ h. (refl, (undeclared_dirs-nil ns ds).0 h), λ h. (undeclared_dirs-nil ns ds).1 h.1)
  | inr missing ↦ rw missing (λ h. cc h, λ h. cc h.0)
]

core_placed :
    Ordering
    → String × Core
    → String × Core
    → List (String × Core)
    → List (String × Core)
    → List (String × Core)
core_placed Ordering.lt c d ds us = c ∷ d ∷ ds
core_placed Ordering.eq c d ds us = c ∷ d ∷ ds
core_placed Ordering.gt c d ds us = d ∷ us

core_placed-nil :
    (o : Ordering) (c d : String × Core) (ds us : List (String × Core))
    → (declared_problems us ≡ []) ↔ ((core_problems c.0 c.1 ≡ []) × (declared_problems ds ≡ []))
    → (declared_problems (core_placed o c d ds us) ≡ [])
      ↔ ((core_problems c.0 c.1 ≡ []) × (declared_problems (d ∷ ds) ≡ []))
unfolding core_placed
core_placed-nil Ordering.lt c d ds us rest = both (core_problems c.0 c.1) _
core_placed-nil Ordering.eq c d ds us rest = both (core_problems c.0 c.1) _
core_placed-nil Ordering.gt c d ds us rest =
    let first = both (core_problems d.0 d.1) (declared_problems us) in
    let second = both (core_problems d.0 d.1) (declared_problems ds) in
    (
      λ h.
          let (here, later) = first.0 h in
          let (mine, others) = rest.0 later in (mine, second.1 (here, others)),
      λ h. let (here, later) = second.0 h.1 in first.1 (here, rest.1 (h.0, later)),
    )

insert_core-placed :
    (c d : String × Core) (ds : List (String × Core))
    → insert_core c (d ∷ ds) ≡ core_placed (compare c.0 d.0) c d ds (insert_core c ds)
unfolding core_placed
insert_core-placed c d ds = ground arith

insert_core-nil :
    (c : String × Core) (ds : List (String × Core))
    → (declared_problems (insert_core c ds) ≡ [])
      ↔ ((core_problems c.0 c.1 ≡ []) × (declared_problems ds ≡ []))
insert_core-nil c [] = both (core_problems c.0 c.1) []
insert_core-nil c (d ∷ ds) =
    rw (insert_core-placed c d ds)
      (core_placed-nil (compare c.0 d.0) c d ds (insert_core c ds) (insert_core-nil c ds))

sorted_cores-AllConsistent :
    (cores : List (String × Core))
    → (declared_problems (sorted_cores cores) ≡ []) ↔ AllConsistent cores
sorted_cores-AllConsistent [] = (λ h. tt, λ h. refl)
sorted_cores-AllConsistent ((n, c) ∷ cores) = (
  λ h.
      let (here, rest) = (insert_core-nil (n, c) (sorted_cores cores)).0 h in
      ((core_problems-nil n c).0 here, (sorted_cores-AllConsistent cores).0 rest),
  λ h.
      (insert_core-nil (n, c) (sorted_cores cores)).1
        ((core_problems-nil n c).1 h.0, (sorted_cores-AllConsistent cores).1 h.1),
)

exit_code-zero : (ps : List Problem) → (exit_code ps ≡ 0) ↔ (ps ≡ [])
exit_code-zero [] = (λ h. refl, λ h. refl)
exit_code-zero (p ∷ ps) = (λ h. absurd (omega (arith, h)), λ h. cc h)

-- The audit of a manifest ends with exit code 0 just if every directory of the root that ought to be
-- covered is declared, and every declaration is consistent with what is on disk and with what the
-- tool finds.
pub main-zero_iff :
    (entries : List Entry) (cores : List (String × Core))
    → (main entries (some cores) ≡ 0) ↔ (All (IsDeclared cores) entries × AllConsistent cores)
unfolding main problems
main-zero_iff entries cores =
    let parts =
      both (undeclared_dirs (discover_backend_dirs entries) (declared cores))
        (declared_problems (sorted_cores cores)) in
    let dirs = undeclared_dirs-nil (discover_backend_dirs entries) (declared cores) in
    let found = All-discover_backend_dirs (λ n. text_in n (declared cores) ≡ true) entries in
    let code = exit_code-zero (
      undeclared_dirs (discover_backend_dirs entries) (declared cores)
      ++ declared_problems (sorted_cores cores)) in
    (
      λ h.
          let (none_missing, none_wrong) = parts.0 (code.0 h) in
          (found.0 (dirs.0 none_missing), (sorted_cores-AllConsistent cores).0 none_wrong),
      λ h. code.1 (parts.1 (dirs.1 (found.1 h.0), (sorted_cores-AllConsistent cores).1 h.1)),
    )
