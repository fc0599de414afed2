-- ===== src/Serialize/Raw.antt =====
-- `_as_bytes` and `_b64encode` of src/cositos/serialize.py, over any kind of memoryview. Elsewhere a
-- binary value is its raw bytes, which is what they make of it.
use cositos.Base.{String, ◌≡◌, refl, ap}
use cositos.Value.{Bytes}
use cositos.Errors.{Error, type_error, Result, ok, err, ◌>>=◌}
use cositos.Serialize.{Base64}

-- `mv.cast("B")` and `mv.tobytes()`
pub record Views (V : Type 0) : Type 0 where
  pub cast_bytes : V → Result V
  pub tobytes : V → Bytes

-- What the documentation of memoryview says: a cast raises nothing but a TypeError, and keeps the bytes.
record AreRaw {V : Type 0} (views : Views V) : Type 0 where
  cast_keeps : (v u : V) → views.cast_bytes v ≡ ok u → views.tobytes u ≡ views.tobytes v
  cast_raises : (v : V) (e : Error) → views.cast_bytes v ≡ err e → e ≡ type_error

module _ {V : Type 0} (views : Views V) where
  -- `_as_bytes`, behind the cast
  abbrev cast_or_copy : Result V → V → Result Bytes
  cast_or_copy (ok flat) mv = ok (views.tobytes flat)
  cast_or_copy (err type_error) mv = ok (views.tobytes mv)
  cast_or_copy (err e) mv = err e

  unfoldable as_bytes : V → Result Bytes
  as_bytes mv = cast_or_copy (views.cast_bytes mv) mv

  -- `_b64encode`
  unfoldable b64encode : Base64 → V → Result String
  b64encode codec mv = do b ← as_bytes mv; ok (codec.encode b)

  cast_or_copy-raw :
      (r : Result V) (mv : V)
      → AreRaw views
      → views.cast_bytes mv ≡ r
      → cast_or_copy r mv ≡ ok (views.tobytes mv)
  cast_or_copy-raw (ok u) mv raw e = ap ok (raw.cast_keeps mv u e)
  cast_or_copy-raw (err x) mv raw e = rw (raw.cast_raises mv x e) refl

  -- Whether a view can be cast or not, `_b64encode` returns the base64 of its raw bytes.
  b64encode-raw :
      (codec : Base64) (mv : V)
      → AreRaw views
      → b64encode codec mv ≡ ok (codec.encode (views.tobytes mv))
  unfolding b64encode as_bytes
  b64encode-raw codec mv raw = rw (cast_or_copy-raw (views.cast_bytes mv) mv raw refl) refl
