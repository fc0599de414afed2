-- ===== src/Serialize/References/Written.antt =====
-- The references that a program writes: which model such a text names, and where in a dict it
-- stands.
use Prim.Native.Char.{code}
use Prim.Native.String.{◌++◌ as text_append}
use mathlib.Core.Path.{subst}
use text.Mathlib.TextLemmas.{nil-append, cons-append}
use cositos.Base.{String, ◌≡◌, ◌≢◌, refl, false, inl, inr, some, arith, Bool-cases, nat_eq_iff}
use cositos.Value.{Key, key_eq, key_eq_iff, key_eq_refl, Value, Fields, end, field}
use cositos.Value.Dict.{lookup, Distinct}
use cositos.Serialize.References.{behind, is_newline, line, some_line, model_ref}
use cositos.Serialize.References.Resolved.{RefersTo, SomeField}

-- No character of the text ends a line.
abbrev pub IsOneLine : String → Type 0
IsOneLine String.[] = Unit
IsOneLine (String.◌∷◌ c s) = (is_newline c ≡ false) × IsOneLine s

pub append-IsOneLine : (s t : String) → IsOneLine s → IsOneLine t → IsOneLine (text_append s t)
append-IsOneLine String.[] t h g = rw nil-append g
append-IsOneLine (String.◌∷◌ c s) t h g = rw cons-append (h.0, append-IsOneLine s t h.1 g)

line-IsOneLine : (s : String) → IsOneLine s → line s ≡ some s
line-IsOneLine String.[] h = refl
line-IsOneLine (String.◌∷◌ c String.[]) h = rw h.0 refl
line-IsOneLine (String.◌∷◌ c (String.◌∷◌ d s)) h =
    rw (h.0, line-IsOneLine (String.◌∷◌ d s) h.1) refl

some_line-IsOneLine : (s : String) → IsOneLine s → s ≢ "" → some_line s ≡ some s
some_line-IsOneLine String.[] h n = elim (n refl) [ ]
some_line-IsOneLine (String.◌∷◌ c s) h n = rw (h.0, line-IsOneLine s h.1) refl

behind-append : (p s : String) → behind p (text_append p s) ≡ some s
behind-append String.[] s = rw nil-append refl
behind-append (String.◌∷◌ c p) s =
    rw (cons-append, (nat_eq_iff (code c) (code c)).1 refl) (behind-append p s)

-- The text that a program writes for a model whose id is a line names that model.
pub model_ref_lem :
    (a : String) → IsOneLine a → a ≢ "" → model_ref (text_append "IPY_MODEL_" a) ≡ some a
unfolding model_ref
model_ref_lem a h n = rw (behind-append "IPY_MODEL_" a) (some_line-IsOneLine a h n)

-- A dict refers to what one of its entries refers to.
pub SomeField-lookup :
    (rid : String) (fs : Fields)
    → Distinct fs
    → SomeField rid fs
    → (k : Key) × (v : Value) × (lookup k fs ≡ some v) × RefersTo rid v
unfolding lookup
SomeField-lookup rid end d r = elim r [ ]
SomeField-lookup rid (field j w fs) d r = elim r [
  | inl here ↦ (j, w, rw key_eq_refl refl, here)
  | inr later ↦
      let (k, v, found, refers) = SomeField-lookup rid fs d.1 later in
      (k, v, ground (arith, found, d.0, key_eq_iff j k), refers)
]

same_value : {v w : Value} → some w ≡ some v → v ≡ w
same_value e = cc e

pub lookup-SomeField :
    (rid : String) (k : Key) (v : Value) (fs : Fields)
    → lookup k fs ≡ some v
    → RefersTo rid v
    → SomeField rid fs
unfolding lookup
lookup-SomeField rid k v end found r = cc found
lookup-SomeField rid k v (field j w fs) found r = elim (Bool-cases (key_eq j k)) [
  | inl here ↦ inl (subst (RefersTo rid) (same_value (rw here at found)) r)
  | inr other ↦ inr (lookup-SomeField rid k v fs (rw other at found) r)
]
