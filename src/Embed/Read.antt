-- ===== src/Embed/Read.antt =====
-- What a reader of the page finds: the texts of its script elements.
use Prim.Native.Char.{Char, char, code}
use Prim.Native.String.{◌++◌ as text_append}
use text.Mathlib.TextLemmas.{nil-append, cons-append}
use cositos.Base.{
  ℕ, String, ◌≡◌, refl, ap, ◌∙◌, Bool, true, false, not, ◌&&◌, nat_eq, List, [], ◌∷◌, if◌then◌else◌,
  arith,
}
use cositos.Embed.{code_in, starts, script_word, end_word, is_less}
use cositos.Embed.Escape.{IsUnmatched}

-- Where a reader stands: outside of script elements, in a start tag, or in an element's text.
pub data Place : Type 0 where
  outside : Place
  tag : Place
  body : Place

-- One more character of the text that the list begins with.
abbrev push : Char → List String → List String
push c [] = String.◌∷◌ c String.[] ∷ []
push c (t ∷ ts) = String.◌∷◌ c t ∷ ts

-- The texts of the script elements, in order. An element begins at `<script`, its text behind the
-- next `>`, and ends at `</script`, in letters of any case.
unfoldable pub scripts : Place → String → List String
scripts outside String.[] = []
scripts outside (String.◌∷◌ c s) =
    let skipped = scripts outside s in
    let entered = scripts tag s in if is_less c && starts script_word s then entered else skipped
scripts tag String.[] = []
scripts tag (String.◌∷◌ c s) =
    let skipped = scripts tag s in
    let entered = scripts body s in if nat_eq (code c) 62 then entered else skipped
scripts body String.[] = "" ∷ []
scripts body (String.◌∷◌ c s) =
    let left = scripts outside s in
    let more = scripts body s in if is_less c && starts end_word s then "" ∷ left else push c more

-- No character of the text has the code.
abbrev pub has_no : ℕ → String → Bool
has_no n String.[] = true
has_no n (String.◌∷◌ c s) = not (nat_eq (code c) n) && has_no n s

pub skip_outside :
    (p s : String) → has_no 60 p ≡ true → scripts outside (text_append p s) ≡ scripts outside s
unfolding scripts
skip_outside String.[] s h = rw nil-append refl
skip_outside (String.◌∷◌ c p) s h = rw cons-append (ground (arith, skip_outside p s, h))

pub skip_tag : (p s : String) → has_no 62 p ≡ true → scripts tag (text_append p s) ≡ scripts tag s
unfolding scripts
skip_tag String.[] s h = rw nil-append refl
skip_tag (String.◌∷◌ c p) s h = rw cons-append (ground (arith, skip_tag p s, h))

abbrev HasNoNewline : List (List ℕ) → Type 0
HasNoNewline [] = Unit
HasNoNewline (cs ∷ p) = (code_in 10 cs ≡ false) × HasNoNewline p

-- Behind a line's end, nothing that is looked for goes on.
starts-newline :
    (p : List (List ℕ)) (t s : String)
    → HasNoNewline p
    → starts p (text_append t (String.◌∷◌ (char 10 tt) s)) ≡ starts p t
starts-newline [] t s h = refl
starts-newline (cs ∷ p) String.[] s h = rw (nil-append, h.0) refl
starts-newline (cs ∷ p) (String.◌∷◌ c t) s h = rw (cons-append, starts-newline p t s h.1) refl

-- A text in front of another, character by character.
abbrev pub onto : String → String → String
onto String.[] s = s
onto (String.◌∷◌ c p) s = String.◌∷◌ c (onto p s)

pub unrolled : (p s : String) → text_append p s ≡ onto p s
unrolled String.[] s = nil-append s
unrolled (String.◌∷◌ c p) s = rw cons-append (ap (String.◌∷◌ c) (unrolled p s))

abbrev newline : Char
newline = char 10 tt

-- A text in front of the one that the list begins with.
abbrev pushed : String → List String → List String
pushed String.[] ts = ts
pushed (String.◌∷◌ c t) ts = push c (pushed t ts)

pushed-cons : (t u : String) (ts : List String) → pushed t (u ∷ ts) ≡ text_append t u ∷ ts
pushed-cons String.[] u ts = rw nil-append refl
pushed-cons (String.◌∷◌ c t) u ts = rw (pushed-cons t u ts, cons-append) refl

-- A text without a match in an element, up to a line's end.
body_unmatched :
    (t s : String)
    → IsUnmatched t
    → scripts body (text_append t (String.◌∷◌ newline s))
      ≡ pushed t (scripts body (String.◌∷◌ newline s))
unfolding scripts
body_unmatched String.[] s h = rw nil-append refl
body_unmatched (String.◌∷◌ c t) s h =
    let known = starts-newline end_word t s (ground arith) in
    rw cons-append (rw (known, body_unmatched t s h.1) (ground (arith, h.0)))

-- A text without a match in an element, up to its end.
body_closed :
    (t s : String)
    → IsUnmatched t
    → scripts body (text_append t (text_append "\n</script>" s))
      ≡ text_append t "\n" ∷ scripts outside s
unfolding scripts
body_closed t s h =
    rw (unrolled "\n</script>" s)
      (body_unmatched t (onto "</script>" s) h ∙ pushed-cons t "\n" (scripts outside s))

-- What a reader finds of a text in an element of its own.
abbrev pub shown : String → String
shown t = String.◌∷◌ newline (text_append t "\n")

pub block :
    (mimetype t s : String)
    → has_no 62 mimetype ≡ true
    → IsUnmatched t
    → scripts outside (
        text_append "<script type=\"" (
          text_append mimetype (text_append "\">\n" (text_append t (text_append "\n</script>" s)))))
      ≡ shown t ∷ scripts outside s
unfolding scripts
block mimetype t s h g =
    let rest = text_append t (text_append "\n</script>" s) in
    rw (unrolled "<script type=\"") (
      skip_tag mimetype (text_append "\">\n" rest) h
      ∙ rw (unrolled "\">\n" rest) (ap (push newline) (body_closed t s g)))
