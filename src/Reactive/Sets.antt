-- ===== src/Reactive/Sets.antt =====
-- Membership in the sets of objects, and what is written at one number.
use cositos.Base.{
  ℕ, ◌≡◌, refl, sym, ◌∙◌, true, false, Bool-cases, ◌||◌, ◌⊎◌, inl, inr, List, [], ◌∷◌, ◌++◌, nat_eq,
  nat_eq_iff, arith,
}
use mathlib.Core.Path.{subst}
use cositos.Reactive.{is_in, pop, add, discard, set_at, unsubscribe, Graph}

-- Two numbers differ if something holds of one of them only.
pub apart {ℓ} : (P : ℕ → Type ℓ) (m n : ℕ) → P m → (P n → ⊥) → nat_eq m n ≡ false
apart P m n p q = elim (Bool-cases (nat_eq m n)) [
  | inl same ↦ elim (q (subst P ((nat_eq_iff m n).0 same) p)) [ ]
  | inr other ↦ other
]

pub is_in-append : (r : ℕ) (xs ys : List ℕ) → is_in r (xs ++ ys) ≡ (is_in r xs || is_in r ys)
is_in-append r [] ys = refl
is_in-append r (x ∷ xs) ys = ground (arith, is_in-append r xs ys)

-- No element stands twice.
abbrev pub IsOnce : List ℕ → Type 0
IsOnce [] = Unit
IsOnce (x ∷ xs) = (is_in x xs ≡ false) × IsOnce xs

pub IsOnce-append_one :
    (n : ℕ) (xs : List ℕ) → IsOnce xs → is_in n xs ≡ false → IsOnce (xs ++ (n ∷ []))
IsOnce-append_one n [] once new = (refl, tt)
IsOnce-append_one n (x ∷ xs) once new = (
  is_in-append x xs (n ∷ []) ∙ ground (arith, once.0, new),
  IsOnce-append_one n xs once.1 (ground (arith, new)),
)

pub pop-is_in : (r : ℕ) (ms : List ℕ) → is_in r (pop ms) ≡ true → is_in r ms ≡ true
pop-is_in r [] h = h
pop-is_in r (m ∷ ms) h = ground (arith, h)

pub is_in-add : (r c : ℕ) (ms : List ℕ) → is_in r ms ≡ true → is_in r (add c ms) ≡ true
is_in-add r c ms h = ground (arith, h)

pub is_in-add_self : (c : ℕ) (ms : List ℕ) → is_in c (add c ms) ≡ true
is_in-add_self c ms = ground arith

pub is_in-discard :
    (r n : ℕ) (ms : List ℕ) → nat_eq r n ≡ false → is_in r ms ≡ true → is_in r (discard n ms) ≡ true
is_in-discard r n [] d h = h
is_in-discard r n (m ∷ ms) d h = ground (arith, d, h, is_in-discard r n ms)

pub discard-is_in : (r n : ℕ) (ms : List ℕ) → is_in r (discard n ms) ≡ true → is_in r ms ≡ true
discard-is_in r n [] h = h
discard-is_in r n (m ∷ ms) h = ground (arith, h, discard-is_in r n ms)

-- One more element in the set at one number.
pub is_in-set_at :
    (r m n c : ℕ) (subs : ℕ → List ℕ)
    → is_in r (subs m) ≡ true
    → is_in r (set_at n (add c (subs n)) subs m) ≡ true
is_in-set_at r m n c subs h = elim (Bool-cases (nat_eq m n)) [
  | inl same ↦
      rw same
        (is_in-add r c (subs n) (subst (λ x. is_in r (subs x) ≡ true) ((nat_eq_iff m n).0 same) h))
  | inr other ↦ rw other h
]

pub is_in-set_at_self :
    (n c : ℕ) (subs : ℕ → List ℕ) → is_in c (set_at n (add c (subs n)) subs n) ≡ true
is_in-set_at_self n c subs = rw ((nat_eq_iff n n).1 refl) (is_in-add_self c (subs n))

pub set_at-is_in :
    (r m n c : ℕ) (subs : ℕ → List ℕ)
    → is_in r (set_at n (add c (subs n)) subs m) ≡ true
    → (r ≡ c) ⊎ (is_in r (subs m) ≡ true)
set_at-is_in r m n c subs h = elim (Bool-cases (is_in r (subs m))) [
  | inl there ↦ inr there
  | inr new ↦ elim (Bool-cases (nat_eq m n)) [
    | inl same ↦
        let new' = subst (λ x. is_in r (subs x) ≡ false) ((nat_eq_iff m n).0 same) new in
        let h' = rw same at h in inl ((nat_eq_iff r c).0 (ground (arith, h', new')))
    | inr other ↦ let h' = rw other at h in cc (new, h')
  ]
]

module _ {V : Type 0} (g : Graph V) where
  pub is_in-unsubscribe :
      (r n j : ℕ) (ms : List ℕ) (subs : ℕ → List ℕ)
      → nat_eq r n ≡ false
      → is_in r (subs j) ≡ true
      → is_in r (unsubscribe g n ms subs j) ≡ true
  is_in-unsubscribe r n j [] subs d h = h
  is_in-unsubscribe r n j (m ∷ ms) subs d h =
      is_in-unsubscribe r n j ms (set_at m (discard n (subs m)) subs) d
        (elim (Bool-cases (nat_eq j m)) [
          | inl same ↦ rw same (
              is_in-discard r n (subs m) d
                (subst (λ x. is_in r (subs x) ≡ true) ((nat_eq_iff j m).0 same) h))
          | inr other ↦ rw other h
        ])

  pub unsubscribe-is_in :
      (r n j : ℕ) (ms : List ℕ) (subs : ℕ → List ℕ)
      → is_in r (unsubscribe g n ms subs j) ≡ true
      → is_in r (subs j) ≡ true
  unsubscribe-is_in r n j [] subs h = h
  unsubscribe-is_in r n j (m ∷ ms) subs h =
      let there = unsubscribe-is_in r n j ms (set_at m (discard n (subs m)) subs) h in
      elim (Bool-cases (nat_eq j m)) [
        | inl same ↦
            subst (λ x. is_in r (subs x) ≡ true) (sym ((nat_eq_iff j m).0 same))
              (discard-is_in r n (subs m) (rw same at there))
        | inr other ↦ rw other at there
      ]
