-- ===== src/Buffers/Paired.antt =====
-- The addresses and the bytes of a value come in pairs, an address inside a container is not empty,
-- and where nothing is binary there are none.
use cositos.Base.{ℕ, suc, ◌+◌, ◌≡◌, refl, ap, Bool, false, ◌||◌, List, [], ◌∷◌, ◌++◌, arith, length}
use cositos.Value.{
  pos, Key, index, Address, Value, null, bool, int, str, opaque, bytes, seq, dict, Items, nil, cons,
  Fields, end, field,
}
use cositos.Buffers.Strip.{holds, holds_items, holds_fields}
use cositos.Buffers.Places.{
  beneath, places, places_items, places_fields, payloads, payloads_items, payloads_fields,
}
use cositos.Buffers.Put.Below.{Deep}

pub length-beneath : (p : Address) (ls : List Address) → length (beneath p ls) ≡ length ls
length-beneath p [] = refl
length-beneath p (l ∷ ls) = ap suc (length-beneath p ls)

length-append {ℓ} : {A : Type ℓ} (xs ys : List A) → length (xs ++ ys) ≡ length xs + length ys
length-append [] ys = omega arith
length-append (x ∷ xs) ys = omega (arith, length-append xs ys)

-- There is one buffer for each address.
mutual
  unfolding places payloads

  pub length-places : (v : Value) → length (places v) ≡ length (payloads v)
  length-places null = refl
  length-places (bool b) = refl
  length-places (int z) = refl
  length-places (str s) = refl
  length-places (opaque n) = refl
  length-places (bytes b) = refl
  length-places (seq k i xs) = length-places_items 0 xs
  length-places (dict i fs) = length-places_fields fs

  pub length-places_items :
      (n : ℕ) (xs : Items) → length (places_items n xs) ≡ length (payloads_items xs)
  length-places_items n nil = refl
  length-places_items n (cons x xs) = omega (
    arith,
    length-append (beneath (index (pos n) ∷ []) (places x)) (places_items (suc n) xs),
    length-append (payloads x) (payloads_items xs),
    length-beneath (index (pos n) ∷ []) (places x),
    length-places x,
    length-places_items (suc n) xs,
  )

  pub length-places_fields : (fs : Fields) → length (places_fields fs) ≡ length (payloads_fields fs)
  length-places_fields end = refl
  length-places_fields (field k v fs) = omega (
    arith,
    length-append (beneath (k ∷ []) (places v)) (places_fields fs),
    length-append (payloads v) (payloads_fields fs),
    length-beneath (k ∷ []) (places v),
    length-places v,
    length-places_fields fs,
  )

Deep-beneath : (k : Key) (ls ms : List Address) → Deep ms → Deep (beneath (k ∷ []) ls ++ ms)
Deep-beneath k [] ms d = d
Deep-beneath k (l ∷ ls) ms d = Deep-beneath k ls ms d

pub Deep-places_items : (n : ℕ) (xs : Items) → Deep (places_items n xs)
unfolding places
Deep-places_items n nil = tt
Deep-places_items n (cons x xs) = Deep-beneath _ (places x) _ (Deep-places_items (suc n) xs)

pub Deep-places_fields : (fs : Fields) → Deep (places_fields fs)
unfolding places
Deep-places_fields end = tt
Deep-places_fields (field k v fs) = Deep-beneath k (places v) _ (Deep-places_fields fs)

-- Where nothing is binary there is nothing to put back.
or_false : (a b : Bool) → (a || b) ≡ false → (a ≡ false) × (b ≡ false)
or_false a b h = ground arith

mutual
  unfolding holds places payloads

  nothing : (v : Value) → holds v ≡ false → (places v ≡ []) × (payloads v ≡ [])
  nothing null h = (refl, refl)
  nothing (bool b) h = (refl, refl)
  nothing (int z) h = (refl, refl)
  nothing (str s) h = (refl, refl)
  nothing (opaque n) h = (refl, refl)
  nothing (bytes b) h = cc
  nothing (seq k i xs) h = nothing_items 0 xs h
  nothing (dict i fs) h = nothing_fields fs h

  pub nothing_items :
      (n : ℕ) (xs : Items)
      → holds_items xs ≡ false
      → (places_items n xs ≡ []) × (payloads_items xs ≡ [])
  nothing_items n nil h = (refl, refl)
  nothing_items n (cons x xs) h =
      let (a, b) = or_false (holds x) (holds_items xs) h in
      let (p, q) = nothing x a in let (r, s) = nothing_items (suc n) xs b in (rw (p, r), rw (q, s))

  pub nothing_fields :
      (fs : Fields) → holds_fields fs ≡ false → (places_fields fs ≡ []) × (payloads_fields fs ≡ [])
  nothing_fields end h = (refl, refl)
  nothing_fields (field k v fs) h =
      let (a, b) = or_false (holds v) (holds_fields fs) h in
      let (p, q) = nothing v a in let (r, s) = nothing_fields fs b in (rw (p, r), rw (q, s))
