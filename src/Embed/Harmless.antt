-- ===== src/Embed/Harmless.antt =====
-- What `_escape_script` keeps out of a script element, said without its pattern: the tags are spelled
-- out and letters are compared as HTML does, without regard to ASCII case.
use Prim.Native.Char.{Char, code}
use Prim.Native.String.{◌++◌ as text_append}
use cositos.Base.{
  ℕ, String, ◌≡◌, ◌<◌, refl, Bool, true, false, List, [], ◌∷◌, ◌&&◌, ◌||◌, ◌⊎◌, nat_eq, nat_eq_iff,
  Bool-cases, inl, inr, arith, if◌then◌else◌, ltb, ◌+◌,
}
use cositos.Embed.{
  code_in, starts, script_word, end_word, comment_word, opens, dangerous, escape_script,
}
use cositos.Embed.Read.{unrolled}
use cositos.Embed.Escape.{IsUnmatched, escape_script-IsUnmatched}

-- A capital ASCII letter as the small one, any other character as it is.
abbrev lowered : ℕ → ℕ
lowered n = if ltb 64 n && ltb n 91 then n + 32 else n

-- The text begins with the word, in letters of any case.
abbrev begins : List ℕ → String → Bool
begins [] s = true
begins (n ∷ ns) String.[] = false
begins (n ∷ ns) (String.◌∷◌ c s) = nat_eq (lowered (code c)) n && begins ns s

-- The letters of `script`
abbrev script : List ℕ
script = 115 ∷ 99 ∷ 114 ∷ 105 ∷ 112 ∷ 116 ∷ []

-- `script`, `/script` or `!--` at the start of a text
abbrev names_script : String → Bool
names_script s = begins script s || begins (47 ∷ script) s || begins (33 ∷ 45 ∷ 45 ∷ []) s

-- Nowhere in the text does `<script`, `</script` or `<!--` stand, in letters of any case.
abbrev pub IsHarmless : String → Type 0
IsHarmless String.[] = Unit
IsHarmless (String.◌∷◌ c s) = (code c ≡ 60 → names_script s ≡ false) × IsHarmless s

abbrev pub IsAscii : String → Type 0
IsAscii String.[] = Unit
IsAscii (String.◌∷◌ c s) = (code c < 128) × IsAscii s

-- The second text is the first, with some of its `<` written as `\u003c`.
abbrev pub Replaced : String → String → Type 0
Replaced String.[] t = t ≡ String.[]
Replaced (String.◌∷◌ c s) t =
    (u : String) × Replaced s u
    × ((t ≡ String.◌∷◌ c u) ⊎ ((code c ≡ 60) × (t ≡ text_append "\\u003c" u)))

-- Each class has the character in its capital and small form, and no other ASCII character.
abbrev Agree : List ℕ → List (List ℕ) → Type 0
Agree [] [] = Unit
Agree (n ∷ ns) (cs ∷ p) =
    ((x : ℕ) → nat_eq (lowered x) n ≡ true → code_in x cs ≡ true)
    × ((x : ℕ) → x < 128 → code_in x cs ≡ true → nat_eq (lowered x) n ≡ true)
    × Agree ns p
Agree _ _ = ⊥

script-Agree : Agree script script_word
script-Agree = (
  λ x h. ground arith,
  λ x l h. ground arith,
  (
    λ x h. ground arith,
    λ x l h. ground arith,
    (
      λ x h. ground arith,
      λ x l h. ground arith,
      (
        λ x h. ground arith,
        λ x l h. ground arith,
        (
          λ x h. ground arith,
          λ x l h. ground arith,
          (λ x h. ground arith, λ x l h. ground arith, tt),
        ),
      ),
    ),
  ),
)

end-Agree : Agree (47 ∷ script) end_word
end-Agree = (λ x h. ground arith, λ x l h. ground arith, script-Agree)

comment-Agree : Agree (33 ∷ 45 ∷ 45 ∷ []) comment_word
comment-Agree = (
  λ x h. ground arith,
  λ x l h. ground arith,
  (λ x h. ground arith, λ x l h. ground arith, (λ x h. ground arith, λ x l h. ground arith, tt)),
)

both : (a b : Bool) → a ≡ true → b ≡ true → (a && b) ≡ true
both a b h k = rw (h, k) refl

split : (a b : Bool) → (a && b) ≡ true → (a ≡ true) × (b ≡ true)
split a b h = ground arith

-- What begins with the word, begins with its classes.
begins-starts :
    (w : List ℕ) (p : List (List ℕ)) (s : String)
    → Agree w p
    → begins w s ≡ true
    → starts p s ≡ true
begins-starts [] [] s a h = refl
begins-starts [] (cs ∷ p) s a h = elim a [ ]
begins-starts (n ∷ ns) [] s a h = elim a [ ]
begins-starts (n ∷ ns) (cs ∷ p) String.[] a h = cc h
begins-starts (n ∷ ns) (cs ∷ p) (String.◌∷◌ c s) a h =
    let (here, rest) = split (nat_eq (lowered (code c)) n) (begins ns s) h in
    both (code_in (code c) cs) (starts p s) (a.0 (code c) here) (begins-starts ns p s a.2 rest)

-- And the other way round, in ASCII.
starts-begins :
    (w : List ℕ) (p : List (List ℕ)) (s : String)
    → Agree w p
    → IsAscii s
    → starts p s ≡ true
    → begins w s ≡ true
starts-begins [] [] s a ascii h = refl
starts-begins [] (cs ∷ p) s a ascii h = elim a [ ]
starts-begins (n ∷ ns) [] s a ascii h = elim a [ ]
starts-begins (n ∷ ns) (cs ∷ p) String.[] a ascii h = cc h
starts-begins (n ∷ ns) (cs ∷ p) (String.◌∷◌ c s) a ascii h =
    let (here, rest) = split (code_in (code c) cs) (starts p s) h in
    both (nat_eq (lowered (code c)) n) (begins ns s) (a.1 (code c) ascii.0 here)
      (starts-begins ns p s a.2 ascii.1 rest)

names_script-opens : (s : String) → names_script s ≡ true → opens s ≡ true
names_script-opens s h =
    let one = begins-starts script script_word s script-Agree in
    let two = begins-starts (47 ∷ script) end_word s end-Agree in
    let three = begins-starts (33 ∷ 45 ∷ 45 ∷ []) comment_word s comment-Agree in ground arith

opens-names_script : (s : String) → IsAscii s → opens s ≡ true → names_script s ≡ true
opens-names_script s ascii h =
    let one = starts-begins script script_word s script-Agree ascii in
    let two = starts-begins (47 ∷ script) end_word s end-Agree ascii in
    let three = starts-begins (33 ∷ 45 ∷ 45 ∷ []) comment_word s comment-Agree ascii in ground arith

less_sign : (c : Char) (s : String) → dangerous c s ≡ true → code c ≡ 60
less_sign c s h = ground (arith, h, nat_eq_iff (code c) 60)

-- Where the pattern does not match, no tag stands.
no_match : (c : Char) (s : String) → dangerous c s ≡ false → code c ≡ 60 → names_script s ≡ false
no_match c s miss e = elim (Bool-cases (names_script s)) [
  | inl hit ↦
      let matches = names_script-opens s hit in
      let less = (nat_eq_iff (code c) 60).1 e in
      cc (miss, both (nat_eq (code c) 60) (opens s) less matches)
  | inr none_there ↦ none_there
]

IsUnmatched-IsHarmless : (s : String) → IsUnmatched s → IsHarmless s
IsUnmatched-IsHarmless String.[] h = tt
IsUnmatched-IsHarmless (String.◌∷◌ c s) h = (no_match c s h.0, IsUnmatched-IsHarmless s h.1)

-- In ASCII, where no tag stands the pattern does not match.
IsHarmless-IsUnmatched : (s : String) → IsAscii s → IsHarmless s → IsUnmatched s
IsHarmless-IsUnmatched String.[] ascii h = tt
IsHarmless-IsUnmatched (String.◌∷◌ c s) ascii h = (
  elim (Bool-cases (dangerous c s)) [
    | inl hit ↦
        let there = opens-names_script s ascii.1 (split (nat_eq (code c) 60) (opens s) hit).1 in
        cc (there, h.0 (less_sign c s hit))
    | inr miss ↦ miss
  ],
  IsHarmless-IsUnmatched s ascii.1 h.1,
)

replaced : (s : String) → Replaced s (escape_script s)
unfolding escape_script
replaced String.[] = refl
replaced (String.◌∷◌ c s) = (
  escape_script s,
  replaced s,
  elim (Bool-cases (dangerous c s)) [
    | inl hit ↦ rw (hit, unrolled "\\u003c" (escape_script s)) (inr (less_sign c s hit, refl))
    | inr miss ↦ rw miss (inl refl)
  ],
)

-- A text that `_escape_script` returns has no `<script`, `</script` or `<!--` anywhere, in letters of
-- any ASCII case, so that in a script element it can neither end the element nor open another. It is
-- the text that was given with some of its `<` written as `\u003c`; and a text of ASCII characters
-- that has none of the three comes back itself.
pub escape_script-IsHarmless :
    (s : String)
    → IsHarmless (escape_script s)
      × Replaced s (escape_script s)
      × (IsAscii s → IsHarmless s → escape_script s ≡ s)
escape_script-IsHarmless s =
    let (unmatched, stays) = escape_script-IsUnmatched s in
    (
      IsUnmatched-IsHarmless (escape_script s) unmatched,
      replaced s,
      λ ascii h. stays (IsHarmless-IsUnmatched s ascii h),
    )
