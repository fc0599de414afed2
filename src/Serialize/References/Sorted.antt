-- ===== src/Serialize/References/Sorted.antt =====
-- What is in a list after `insert_sorted`.
use Prim.Native.Nat.{Ordering}
use Prim.Native.String.{compare}
use mathlib.Core.Path.{subst}
use text.Mathlib.TextEquality.{path_by_compare}
use cositos.Base.{String, ◌≡◌, refl, sym, ◌∙◌, ◌↔◌, ◌⊎◌, inl, inr, List, [], ◌∷◌, All, arith}
use cositos.Serialize.References.{insert_sorted}
use cositos.Serialize.References.Resolved.{In}

-- One more text in a sorted list, by where it goes.
placed : (o : Ordering) (s t : String) (ts us : List String) → List String
placed Ordering.lt s t ts us = s ∷ t ∷ ts
placed Ordering.eq s t ts us = t ∷ ts
placed Ordering.gt s t ts us = t ∷ us

placed-All :
    (P : String → Type 0) (o : Ordering) (s t : String) (ts us : List String)
    → compare s t ≡ o
    → All P us ↔ (P s × All P ts)
    → All P (placed o s t ts us) ↔ (P s × All P (t ∷ ts))
unfolding placed
placed-All P Ordering.lt s t ts us e rest = (λ h. h, λ h. h)
placed-All P Ordering.eq s t ts us e rest =
    (λ h. (subst P (sym (path_by_compare s t e)) h.0, h), λ h. h.1)
placed-All P Ordering.gt s t ts us e rest =
    (λ h. let (p, ps) = rest.0 h.1 in (p, (h.0, ps)), λ h. (h.1.0, rest.1 (h.0, h.1.1)))

insert_sorted-placed :
    (s t : String) (ts : List String)
    → insert_sorted s (t ∷ ts) ≡ placed (compare s t) s t ts (insert_sorted s ts)
unfolding insert_sorted placed
insert_sorted-placed s t ts = ground arith

pub All-insert_sorted :
    (P : String → Type 0) (s : String) (ts : List String)
    → All P (insert_sorted s ts) ↔ (P s × All P ts)
All-insert_sorted P s [] = unfold insert_sorted in (λ h. h, λ h. h)
All-insert_sorted P s (t ∷ ts) =
    rw (insert_sorted-placed s t ts)
      (placed-All P (compare s t) s t ts (insert_sorted s ts) refl (All-insert_sorted P s ts))

placed-In :
    (o : Ordering) (r s t : String) (ts us : List String)
    → compare s t ≡ o
    → In r us ↔ ((s ≡ r) ⊎ In r ts)
    → In r (placed o s t ts us) ↔ ((s ≡ r) ⊎ In r (t ∷ ts))
unfolding placed
placed-In Ordering.lt r s t ts us e rest = (λ h. h, λ h. h)
placed-In Ordering.eq r s t ts us e rest =
    (λ h. inr h, λ h. elim h [ inl here ↦ inl (sym (path_by_compare s t e) ∙ here) | inr i ↦ i ])
placed-In Ordering.gt r s t ts us e rest = (
  λ h. elim h [
    | inl here ↦ inr (inl here)
    | inr i ↦ elim (rest.0 i) [ inl here ↦ inl here | inr j ↦ inr (inr j) ]
  ],
  λ h. elim h [
    | inl here ↦ inr (rest.1 (inl here))
    | inr i ↦ elim i [ inl here ↦ inl here | inr j ↦ inr (rest.1 (inr j)) ]
  ],
)

pub In-insert_sorted :
    (r s : String) (ts : List String) → In r (insert_sorted s ts) ↔ ((s ≡ r) ⊎ In r ts)
In-insert_sorted r s [] = unfold insert_sorted in (λ h. h, λ h. h)
In-insert_sorted r s (t ∷ ts) =
    rw (insert_sorted-placed s t ts)
      (placed-In (compare s t) r s t ts (insert_sorted s ts) refl (In-insert_sorted r s ts))
