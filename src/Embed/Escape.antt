-- ===== src/Embed/Escape.antt =====
-- What `_escape_script` leaves in a text.
use Prim.Native.Char.{Char, code}
use cositos.Base.{
  ℕ, String, ◌≡◌, refl, ap, true, false, List, [], ◌∷◌, ◌&&◌, nat_eq_iff, Bool-cases, inl, inr,
  arith,
}
use cositos.Embed.{
  code_in, starts, script_word, end_word, comment_word, opens, dangerous, escaped_less,
  escape_script,
}

-- Nowhere in the text does the pattern match.
abbrev pub IsUnmatched : String → Type 0
IsUnmatched String.[] = Unit
IsUnmatched (String.◌∷◌ c s) = (dangerous c s ≡ false) × IsUnmatched s

-- Classes without `<` and the backslash.
abbrev Plain : List (List ℕ) → Type 0
Plain [] = Unit
Plain (cs ∷ p) = (code_in 60 cs ≡ false) × (code_in 92 cs ≡ false) × Plain p

less_code : (c : Char) (s : String) → dangerous c s ≡ true → code c ≡ 60
less_code c s h = ground (arith, h, nat_eq_iff (code c) 60)

-- What a text starts with, the escaped text starts with, and the other way round.
starts-escape_script :
    (p : List (List ℕ)) (s : String) → Plain p → starts p (escape_script s) ≡ starts p s
unfolding escape_script
starts-escape_script [] s q = refl
starts-escape_script (cs ∷ p) String.[] q = refl
starts-escape_script (cs ∷ p) (String.◌∷◌ c s) q = elim (Bool-cases (dangerous c s)) [
  | inl hit ↦ rw (hit, less_code c s hit, q.0, q.1) refl
  | inr miss ↦ rw miss (ap (λ b. code_in (code c) cs && b) (starts-escape_script p s q.2))
]

opens-escape_script : (s : String) → opens (escape_script s) ≡ opens s
opens-escape_script s = rw (
  starts-escape_script script_word s (ground arith),
  starts-escape_script end_word s (ground arith),
  starts-escape_script comment_word s (ground arith),
)

-- The escape in front of such a text.
IsUnmatched-escaped_less : (s : String) → IsUnmatched s → IsUnmatched (escaped_less s)
IsUnmatched-escaped_less s h = (refl, (refl, (refl, (refl, (refl, (refl, h))))))

unmatched : (s : String) → IsUnmatched (escape_script s)
unfolding escape_script
unmatched String.[] = tt
unmatched (String.◌∷◌ c s) = elim (Bool-cases (dangerous c s)) [
  | inl hit ↦ rw hit (IsUnmatched-escaped_less (escape_script s) (unmatched s))
  | inr miss ↦ rw miss (rw opens-escape_script miss, unmatched s)
]

kept : (s : String) → IsUnmatched s → escape_script s ≡ s
unfolding escape_script
kept String.[] h = refl
kept (String.◌∷◌ c s) h = rw h.0 (ap (String.◌∷◌ c) (kept s h.1))

-- In a text that `_escape_script` returns the pattern matches nowhere, and a text in which it matches
-- nowhere comes back itself.
pub escape_script-IsUnmatched :
    (s : String) → IsUnmatched (escape_script s) × (IsUnmatched s → escape_script s ≡ s)
escape_script-IsUnmatched s = (unmatched s, kept s)
