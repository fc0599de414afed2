-- ===== src/Dashboard/Snapshot.antt =====
-- What a static snapshot of the dashboard shows of a control after it has moved.
use Prim.Native.String.{◌++◌ as text_append}
use cositos.Base.{
  ◌≡◌, refl, ap, ◌∙◌, String, Option-cases, Bool-cases, inl, inr, List, [], ◌∷◌, ◌++◌,
}
use cositos.Value.{name, fresh, Items, dict, Fields, end}
use cositos.Value.Dict.{lookup}
use cositos.Errors.{Result, ok, err, ◌>>=◌}
use cositos.Serialize.{ModelEntry}
use cositos.Shell.{Transport, and_then}
use cositos.Controls.{Spec, box, flattened, child_refs}
use cositos.Value.Equal.{equal}
use cositos.Dashboard.{
  Setting, Dashboard, summary_id, download_id, get_summary_state, get_download_state, build_entries,
}
use cositos.Dashboard.Wiring.{
  Wired, render, set_slider_state, set_dropdown_state, push_download, push_summary,
}
use cositos.Dashboard.Summary.{Change, slider_moved, dropdown_moved, change, changes}

-- What a dashboard is made with, apart from the value and the index.
abbrev pub Made : Type 0
Made = List ModelEntry × List ModelEntry × String

abbrev pub made : Dashboard → Made
made d = (d.slider_entries, d.dropdown_entries, d.slider_id)

module _ {T : Type 0} (g : Setting) (tr : Transport T) where
  after_push :
      (o : Result (Unit {0}) × Wired T)
      → made (and_then o (push_download g tr)).1.dashboard ≡ made o.1.dashboard
  after_push (ok u, x) = refl
  after_push (err e, x) = refl

  rendered-made : (x : Wired T) → made (render g tr x).1.dashboard ≡ made x.dashboard
  unfolding render
  rendered-made x = after_push (push_summary g tr x)

  change-made : (c : Change) (x : Wired T) → made (change g tr c x).dashboard ≡ made x.dashboard
  unfolding set_slider_state set_dropdown_state
  change-made (slider_moved state) x = elim (Option-cases (lookup (name "value") state)) [
    | inl out ↦ rw (out, change) refl
    | inr (v, there) ↦ elim (Bool-cases (equal v x.dashboard.value)) [
      | inl same ↦ rw (there, same, change) refl
      | inr new ↦
          rw (there, new, change)
            (rendered-made (record x { dashboard = record x.dashboard { value = v } }))
    ]
  ]
  change-made (dropdown_moved state) x = elim (Option-cases (lookup (name "index") state)) [
    | inl out ↦ rw (out, change) refl
    | inr (v, there) ↦ elim (Bool-cases (equal v x.dashboard.index)) [
      | inl same ↦ rw (there, same, change) refl
      | inr new ↦
          rw (there, new, change)
            (rendered-made (record x { dashboard = record x.dashboard { index = v } }))
    ]
  ]

  changes-made :
      (cs : List Change) (x : Wired T) → made (changes g tr cs x).dashboard ≡ made x.dashboard
  changes-made [] x = refl
  changes-made (c ∷ cs) x = changes-made cs (change g tr c x) ∙ change-made c x

of_refs :
    (r : Result Items) (f : Items → List ModelEntry) (rest entries : List ModelEntry)
    → (r >>= λ refs. ok (f refs ++ rest)) ≡ ok entries
    → (own : List ModelEntry) × (entries ≡ own ++ rest)
of_refs (ok refs) f rest entries e = (f refs, cc e)
of_refs (err x) f rest entries e = cc e

boxed :
    (spec : Spec) (children : List (List ModelEntry)) (hex : String) (entries : List ModelEntry)
    → box spec children end hex ≡ ok entries
    → (own : List ModelEntry) × (entries ≡ own ++ flattened children)
unfolding box
boxed spec children hex entries e = of_refs (child_refs children) _ (flattened children) entries e

abbrev of_made : Made → Fields → Fields → List ModelEntry
of_made (slider_entries, dropdown_entries, slider_id) summary download =
    slider_entries
    ++ (dropdown_entries
        ++ (text_append slider_id "-summary", dict fresh summary)
          ∷ (text_append slider_id "-download", dict fresh download)
          ∷ [])

-- What stands below the box: slider, dropdown, summary and download.
abbrev pub shown_entries : Dashboard → Fields → Fields → List ModelEntry
shown_entries d summary download = of_made (made d) summary download

module _ (g : Setting) where
  of_states :
      (r r' : Result Fields) (d : Dashboard) (hex : String) (entries : List ModelEntry)
      → (do
        summary ← r
        download ← r'
        box g.vbox_spec
            (d.slider_entries
              ∷ d.dropdown_entries
              ∷ ((summary_id d, dict fresh summary) ∷ [])
              ∷ ((download_id d, dict fresh download) ∷ [])
              ∷ [])
            end
            hex)
        ≡ ok entries
      → (own : List ModelEntry) × (summary download : Fields) × (r ≡ ok summary)
        × (r' ≡ ok download)
        × (entries ≡ own ++ shown_entries d summary download)
  of_states (ok summary) (ok download) d hex entries e =
      let (own, same) = boxed g.vbox_spec _ hex entries e in
      (own, summary, download, refl, refl, same)
  of_states (ok summary) (err x) d hex entries e = cc e
  of_states (err x) r d hex entries e = cc e

  snapshot :
      (d : Dashboard) (hex : String) (entries : List ModelEntry)
      → build_entries g d hex ≡ ok entries
      → (own : List ModelEntry) × (summary download : Fields) × (get_summary_state g d ≡ ok summary)
        × (get_download_state g d ≡ ok download)
        × (entries ≡ own ++ shown_entries d summary download)
  unfolding build_entries
  snapshot d hex entries e = of_states _ _ d hex entries e

module _ {T : Type 0} (g : Setting) (tr : Transport T) where
  -- A snapshot that is made after any changes shows the summary and the download as they are after
  -- them, but the entries of the slider and the dropdown as they were before them.
  pub build_entries-changes :
      (cs : List Change) (x : Wired T) (hex : String) (entries : List ModelEntry)
      → build_entries g (changes g tr cs x).dashboard hex ≡ ok entries
      → (own : List ModelEntry) × (summary download : Fields) × (get_summary_state g
            (changes g tr cs x).dashboard
          ≡ ok summary)
        × (get_download_state g (changes g tr cs x).dashboard ≡ ok download)
        × (entries ≡ own ++ shown_entries x.dashboard summary download)
  build_entries-changes cs x hex entries e =
      let (own, summary, download, told, offered, same) =
        snapshot g (changes g tr cs x).dashboard hex entries e in
      (
        own,
        summary,
        download,
        told,
        offered,
        same ∙ ap (λ m. own ++ of_made m summary download) (changes-made g tr cs x),
      )
