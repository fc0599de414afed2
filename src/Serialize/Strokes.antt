-- ===== src/Serialize/Strokes.antt =====
-- A codec that stands for base64 where one is needed to compute, and why it is lossless.
use Prim.Native.Char.{char}
use cositos.Base.{ℕ, zero, suc, ◌+◌, String, ◌≡◌, refl, ap, ◌∙◌, [], ◌∷◌, arith}
use cositos.Value.{Bytes, Value, str}
use cositos.Errors.{Result, ok, err, type_error}
use cositos.Serialize.{Base64}
use cositos.Serialize.RoundTrip.{IsLossless}

-- A byte as that many strokes, and a mark behind them.
abbrev strokes : ℕ → String → String
strokes zero s = String.◌∷◌ (char 1 tt) s
strokes (suc n) s = String.◌∷◌ (char 0 tt) (strokes n s)

abbrev to_strokes : Bytes → String
to_strokes [] = String.[]
to_strokes (b ∷ bs) = strokes b (to_strokes bs)

abbrev count_strokes : String → ℕ → Bytes
count_strokes String.[] k = []
count_strokes (String.◌∷◌ (char zero p) s) k = count_strokes s (suc k)
count_strokes (String.◌∷◌ (char (suc n) p) s) k = k ∷ count_strokes s 0

abbrev from_strokes : Value → Result Bytes
from_strokes (str s) = ok (count_strokes s 0)
from_strokes v = err type_error

abbrev pub codec : Base64
codec = record { encode = to_strokes; decode = from_strokes }

count_strokes-strokes :
    (n k : ℕ) (s : String) → count_strokes (strokes n s) k ≡ (n + k) ∷ count_strokes s 0
count_strokes-strokes zero k s = ap (λ m. m ∷ count_strokes s 0) (omega arith)
count_strokes-strokes (suc n) k s =
    count_strokes-strokes n (suc k) s ∙ ap (λ m. m ∷ count_strokes s 0) (omega arith)

count_strokes-to_strokes : (bs : Bytes) → count_strokes (to_strokes bs) 0 ≡ bs
count_strokes-to_strokes [] = refl
count_strokes-to_strokes (b ∷ bs) =
    rw (count_strokes-strokes b 0 (to_strokes bs), count_strokes-to_strokes bs)
      (ap (λ m. m ∷ bs) (omega arith))

pub codec-IsLossless : IsLossless codec
codec-IsLossless bs = ap ok (count_strokes-to_strokes bs)
