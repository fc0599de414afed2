-- ===== src/Buffers/Removed.antt =====
-- What `remove_buffers` returns, by structural recursion on the state.
use cositos.Base.{
  ◌≡◌, refl, false, Option, none, some, List, [], ◌∷◌, Bool-cases, Option-cases, inl, inr,
}
use cositos.Value.{fresh, object, Ident, ident_mem, Value, null, bytes, seq, dict}
use cositos.Errors.{Error, Result, ok, err}
use cositos.Buffers.{Split, remove_buffers, max_depth}
use cositos.Buffers.Recursive.{fault_items, fault_fields, rebuild, or_self, recursive}
use cositos.Buffers.Walk.{separate-eq-recursive}
use cositos.Buffers.Strip.{strip, inner, Tidy, strip_same}
use cositos.Buffers.Clone.{rebuild-eq-strip}
use cositos.Buffers.Places.{beneath-nil, places, payloads, noted_items, noted_fields}

-- A bare binary value is no container, and `remove_buffers` leaves it where it is.
abbrev pub unless_bytes {ℓ} : {A : Type ℓ} → Value → List A → List A
unless_bytes (bytes b) l = []
unless_bytes v l = l

unfoldable pub split_of : Value → Split
split_of v = record {
  state = strip v;
  buffer_paths = unless_bytes v (places v);
  buffers = unless_bytes v (payloads v);
}

-- The first error of the walk of a whole value.
unfoldable pub fault_of : Value → Option Error
fault_of (seq k i xs) = fault_items [] (i ∷ []) 0 0 xs
fault_of (dict i fs) = fault_fields [] (i ∷ []) 0 fs
fault_of v = none

abbrev pub unless_fault {ℓ} : {A : Type ℓ} → Option Error → A → Result A
unless_fault none a = ok a
unless_fault (some e) a = err e

or_self-strip : (v : Value) → Tidy v → or_self (rebuild v) v ≡ strip v
or_self-strip v t =
    rw (rebuild-eq-strip v t)
      (elim (Bool-cases (inner v)) [ inl h ↦ rw h | inr h ↦ rw (h, strip_same v h) ])

not_ident_mem-nil : (i : Ident) → ident_mem i [] ≡ false
unfolding ident_mem
not_ident_mem-nil (object n) = refl
not_ident_mem-nil fresh = refl

-- `remove_buffers` of a value whose dicts have distinct keys: the first error of the walk if there
-- is one, and otherwise the value without its binary values, their addresses, and their bytes.
pub remove_buffers-eq-split_of :
    (v : Value) → Tidy v → remove_buffers v ≡ unless_fault (fault_of v) (split_of v)
unfolding remove_buffers recursive fault_of split_of places payloads max_depth
remove_buffers-eq-split_of (seq k i xs) t =
    rw
      (
        separate-eq-recursive,
        not_ident_mem-nil i,
        or_self-strip (seq k i xs) t,
        noted_items [] 0 xs,
      )
      (rw beneath-nil (elim (Option-cases (fault_items [] (i ∷ []) 0 0 xs)) [
        | inl fine ↦ rw fine
        | inr (e, bad) ↦ rw bad
      ]))
remove_buffers-eq-split_of (dict i fs) t =
    rw (separate-eq-recursive, not_ident_mem-nil i, or_self-strip (dict i fs) t, noted_fields [] fs)
      (rw beneath-nil (elim (Option-cases (fault_fields [] (i ∷ []) 0 fs)) [
        | inl fine ↦ rw fine
        | inr (e, bad) ↦ rw bad
      ]))
remove_buffers-eq-split_of null t = unfold strip in refl
remove_buffers-eq-split_of _ t = unfold strip in refl
