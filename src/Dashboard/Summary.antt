-- ===== src/Dashboard/Summary.antt =====
-- The summary widget of the dashboard keeps up with the controls.
use Prim.Native.String.{◌++◌ as text_append}
use mathlib.Core.Path.{subst}
use cositos.Base.{
  All, ◌≡◌, refl, inl, inr, get_elem?, String, Bool-cases, Option, none, some, Option-cases, List,
  [], ◌∷◌,
}
use cositos.Value.{pos, negsuc, name, Value, null, int, bool, str, opaque, bytes, seq, dict, Fields}
use cositos.Value.Dict.{lookup}
use cositos.Errors.{Result, ok, err, ◌>>=◌}
use cositos.Lifecycle.{open_phase}
use cositos.Shell.{Transport}
use cositos.Widget.{Widget, send_state_widget}
use cositos.Value.Equal.{equal}
use cositos.Dashboard.{
  Setting, Dashboard, selection, label_at, summary_text, summary_fields, get_summary_state,
}
use cositos.Dashboard.Sending.{IsDisplay, text_of, sent, shown_text}
use cositos.Dashboard.Wiring.{Wired, render, set_slider_state, set_dropdown_state}

-- A state that the slider or the dropdown sends.
pub data Change : Type 0 where
  slider_moved dropdown_moved : Fields → Change

abbrev pub IsIndex : Option Value → Type 0
IsIndex (some (int z)) = Unit
IsIndex (some null) = Unit
IsIndex (some v) = ⊥
IsIndex none = Unit

-- An index, if there is one, is a whole number or None.
abbrev pub HasIndex : Change → Type 0
HasIndex (slider_moved state) = Unit
HasIndex (dropdown_moved state) = IsIndex (lookup (name "index") state)

selected_label :
    (options : List String) (v : Value)
    → IsIndex (some v)
    → (label : String) × (selection options v ≡ ok label)
selected_label options null i = ("(none)", refl)
selected_label options (int (negsuc n)) i = ("(none)", refl)
selected_label options (int (pos n)) i = elim (Option-cases (get_elem? options n)) [
  | inl out ↦ ("(none)", rw (out, label_at) refl)
  | inr (label, there) ↦ (label, rw (there, label_at) refl)
]
selected_label options (bool b) i = elim i [ ]
selected_label options (str s) i = elim i [ ]
selected_label options (opaque n) i = elim i [ ]
selected_label options (bytes b) i = elim i [ ]
selected_label options (seq s j xs) i = elim i [ ]
selected_label options (dict j fs) i = elim i [ ]

module _ {T : Type 0} (g : Setting) (tr : Transport T) where
  -- The dashboard after a change, whether or not the call raised.
  abbrev pub change : Change → Wired T → Wired T
  change (slider_moved state) x = (set_slider_state g tr state x).1
  change (dropdown_moved state) x = (set_dropdown_state g tr state x).1

  abbrev pub changes : List Change → Wired T → Wired T
  changes [] x = x
  changes (c ∷ cs) x = changes cs (change c x)

module _ {T : Type 0} (g : Setting) (tr : Transport T) (shown : T → Option Value) where
  -- The summary widget is open, and its other end shows the text of the dashboard as it is.
  abbrev pub Shows : Dashboard → Option (Widget T Fields) → Type 0
  Shows d none = ⊥
  Shows d (some w) =
      (w.shell.phase ≡ open_phase)
      × ((text : String) × (summary_text g d ≡ ok text)
          × (text_of (shown w.shell.transport) ≡ some (str text)))

  abbrev pub IsUpToDate : Wired T → Type 0
  IsUpToDate x = Shows x.dashboard x.summary_widget

  abbrev text_with : Dashboard → String → String
  text_with d label =
      text_append "value=" (text_append (g.to_text d.value) (text_append ", selection=" label))

  -- The text exists just if the index names an option or none.
  text_there :
      (d : Dashboard) (label : String)
      → selection d.options d.index ≡ ok label
      → (text : String) × (summary_text g d ≡ ok text)
  unfolding summary_text
  text_there d label e = (text_with d label, rw e refl)

  label_of :
      (r : Result String) (text : String) (f : String → String)
      → (r >>= λ label. ok (f label)) ≡ ok text
      → (label : String) × (r ≡ ok label)
  label_of (ok label) text f e = (label, refl)
  label_of (err e') text f e = cc e

  label_there :
      (d : Dashboard) (text : String)
      → summary_text g d ≡ ok text
      → (label : String) × (selection d.options d.index ≡ ok label)
  unfolding summary_text
  label_there d text e = label_of _ text _ e

  module _ (display : IsDisplay tr shown) where
    summary_state :
        (d : Dashboard) (text : String)
        → summary_text g d ≡ ok text
        → get_summary_state g d ≡ ok (summary_fields text)
    unfolding get_summary_state
    summary_state d text e = rw e refl

    -- After `_render`, if there is a text to render.
    rendered :
        (x : Wired T) (w : Widget T Fields) (text : String)
        → w.shell.phase ≡ open_phase
        → summary_text g x.dashboard ≡ ok text
        → IsUpToDate (render g tr (record x { summary_widget = some w })).1
    unfolding render send_state_widget
    rendered x w text o e =
        rw (summary_state x.dashboard text e, sent tr shown display text w.shell o)
          (o, (text, e, shown_text tr shown display text w.shell))

    -- The dashboard moves on to one whose text exists.
    moved :
        (o : Option (Widget T Fields)) (x : Wired T) (d : Dashboard) (label : String)
        → Shows x.dashboard o
        → selection d.options d.index ≡ ok label
        → IsUpToDate (render g tr (record x { dashboard = d; summary_widget = o })).1
    moved none x d label shows e = elim shows [ ]
    moved (some w) x d label (open_now, (text, now, there)) e =
        let (text', e') = text_there d label e in
        rendered (record x { dashboard = d }) w text' open_now e'

    indexed :
        (x : Wired T)
        → IsUpToDate x
        → (label : String) × (selection x.dashboard.options x.dashboard.index ≡ ok label)
    indexed x up = of_widget x.summary_widget up
      where
        of_widget :
            (o : Option (Widget T Fields))
            → Shows x.dashboard o
            → (label : String) × (selection x.dashboard.options x.dashboard.index ≡ ok label)
        of_widget none shows = elim shows [ ]
        of_widget (some w) (open_now, (text, now, there)) = label_there x.dashboard text now

    change-IsUpToDate :
        (c : Change) (x : Wired T) → HasIndex c → IsUpToDate x → IsUpToDate (change g tr c x)
    unfolding set_slider_state set_dropdown_state
    change-IsUpToDate (slider_moved state) x i up =
        elim (Option-cases (lookup (name "value") state)) [
          | inl out ↦ rw (out, change) up
          | inr (v, there) ↦ elim (Bool-cases (equal v x.dashboard.value)) [
            | inl same ↦ rw (there, same, change) up
            | inr new ↦
                let (label, e) = indexed x up in
                rw (there, new, change)
                  (moved x.summary_widget x (record x.dashboard { value = v }) label up e)
          ]
        ]
    change-IsUpToDate (dropdown_moved state) x i up =
        elim (Option-cases (lookup (name "index") state)) [
          | inl out ↦ rw (out, change) up
          | inr (v, there) ↦ elim (Bool-cases (equal v x.dashboard.index)) [
            | inl same ↦ rw (there, same, change) up
            | inr new ↦
                let (label, e) = selected_label x.dashboard.options v (subst IsIndex there i) in
                rw (there, new, change)
                  (moved x.summary_widget x (record x.dashboard { index = v }) label up e)
          ]
        ]

    -- Whatever the slider and the dropdown send, as long as an index is a whole number or None, the
    -- other end of the summary shows the text of the dashboard as it is, if it did before; that holds
    -- also where a call raises because the download button cannot be told.
    pub changes-IsUpToDate :
        (cs : List Change) (x : Wired T)
        → All HasIndex cs
        → IsUpToDate x
        → IsUpToDate (changes g tr cs x)
    changes-IsUpToDate [] x i up = up
    changes-IsUpToDate (c ∷ cs) x (i, is) up =
        changes-IsUpToDate cs (change g tr c x) is (change-IsUpToDate c x i up)
