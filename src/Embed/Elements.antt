-- ===== src/Embed/Elements.antt =====
-- Pieces of text that are joined, and script elements that only have a source.
use Prim.Native.String.{◌++◌ as text_append}
use text.Mathlib.TextLemmas.{nil-append, append_assoc}
use cositos.Base.{String, ◌≡◌, refl, ap, ◌∙◌, true, List, [], ◌∷◌}
use cositos.Embed.Page.{concat}
use cositos.Embed.Read.{outside, scripts, has_no, skip_tag, unrolled}

-- texts in front of another
abbrev pub all_onto : List String → String → String
all_onto [] s = s
all_onto (t ∷ ts) s = text_append t (all_onto ts s)

pub concat-append : (ts : List String) (s : String) → text_append (concat ts) s ≡ all_onto ts s
concat-append [] s = nil-append s
concat-append (t ∷ ts) s = append_assoc t (concat ts) s ∙ ap (text_append t) (concat-append ts s)

-- An element with a source and no text.
pub sourced :
    (url s : String)
    → has_no 62 url ≡ true
    → scripts outside (
        text_append "<script src=\""
          (text_append url (text_append "\" crossorigin=\"anonymous\"></script>" s)))
      ≡ "" ∷ scripts outside s
unfolding scripts
sourced url s h =
    let rest = text_append "\" crossorigin=\"anonymous\"></script>" s in
    rw (unrolled "<script src=\"")
      (skip_tag url rest h ∙ rw (unrolled "\" crossorigin=\"anonymous\"></script>" s) refl)

pub sourced_line :
    (url s : String)
    → has_no 62 url ≡ true
    → scripts outside (
        text_append "<script src=\""
          (text_append url (text_append "\" crossorigin=\"anonymous\"></script>\n" s)))
      ≡ "" ∷ scripts outside s
unfolding scripts
sourced_line url s h =
    let rest = text_append "\" crossorigin=\"anonymous\"></script>\n" s in
    rw (unrolled "<script src=\"")
      (skip_tag url rest h ∙ rw (unrolled "\" crossorigin=\"anonymous\"></script>\n" s) refl)

pub after_newline : (s : String) → scripts outside (text_append "\n" s) ≡ scripts outside s
unfolding scripts
after_newline s = rw (unrolled "\n" s) refl
