-- ===== src/Dashboard/Opened.antt =====
-- After `wire`, every widget of the dashboard is open.
use cositos.Base.{
  ℕ, suc, ◌≡◌, refl, ap, ◌∙◌, Bool-cases, inl, inr, Option, none, some, List, [], ◌∷◌, length,
  nat_eq, nat_eq_iff, arith,
}
use cositos.Value.{Fields}
use cositos.Errors.{Result, ok, err}
use cositos.Lifecycle.{open_phase}
use cositos.Shell.{Call, Transport, and_then, open_shell}
use cositos.Shell.Opened.{open_shell-ok}
use cositos.Widget.{Widget, on_shell, sync_id, open_widget}
use cositos.Serialize.{ModelEntry}
use cositos.Dashboard.{
  Setting, Dashboard, companion_entries, get_slider_state, get_dropdown_state, get_summary_state,
}
use cositos.Dashboard.Wiring.{
  Wired, state_host, fields_of, with_state, opened_with, open_slider, open_dropdown, open_summary,
  wire_download, wire_companions, with_widgets, companion_list, cons_opened, fresh_widget, open_all,
  wire,
}

module _ {T : Type 0} where
  abbrev pub IsOpen : Option (Widget T Fields) → Type 0
  IsOpen none = ⊥
  IsOpen (some w) = w.shell.phase ≡ open_phase

  abbrev pub AllOpen : List (Widget T Fields) → Type 0
  AllOpen [] = Unit
  AllOpen (w ∷ ws) = (w.shell.phase ≡ open_phase) × AllOpen ws

  -- A widget that is asked for is open, and there is one if a transport for it is given.
  abbrev pub OpenIf : Option T → Option (Widget T Fields) → Type 0
  OpenIf none o = Unit
  OpenIf (some t) o = IsOpen o

  -- One open widget for each entry, if transports for them are given.
  abbrev pub AllOpenIf : Option (List T) → List ModelEntry → List (Widget T Fields) → Type 0
  AllOpenIf none entries ws = Unit
  AllOpenIf (some ts) entries ws = (length ws ≡ length entries) × AllOpen ws

-- A chain of two calls that returns: both have.
and_then-ok :
    {S : Type 0} (o : Result (Unit {0}) × S) (f : Call S)
    → (and_then o f).0 ≡ ok tt
    → (o.0 ≡ ok tt) × ((f o.1).0 ≡ ok tt) × ((and_then o f).1 ≡ (f o.1).1)
and_then-ok (ok tt, s) f e = (refl, e, refl)
and_then-ok (err x, s) f e = cc e

module _ {T : Type 0} (g : Setting) (tr : Transport T) where
  open_widget-phase :
      (w : Widget T Fields)
      → (open_widget tr state_host w).0 ≡ ok tt
      → (open_widget tr state_host w).1.shell.phase ≡ open_phase
  unfolding open_widget
  open_widget-phase w e =
      let (returned, synced, same) =
        and_then-ok (on_shell tr state_host (open_shell tr state_host) w) (sync_id tr state_host)
          e in
      ap (λ x. x.shell.phase) same ∙ open_shell-ok tr state_host w.shell returned

  with_state-phase :
      (state : Result Fields) (w : Widget T Fields)
      → (with_state g tr state (open_widget tr state_host) w).0 ≡ ok tt
      → (with_state g tr state (open_widget tr state_host) w).1.shell.phase ≡ open_phase
  with_state-phase (ok fs) w e =
      open_widget-phase (record w { shell = record w.shell { host = fs } }) e
  with_state-phase (err x) w e = cc e

  cons_opened-AllOpen :
      (o : Result (Unit {0}) × Widget T Fields) (o' : Result (Unit {0}) × List (Widget T Fields))
      (ws : List (Widget T Fields)) (n : ℕ)
      → (o.0 ≡ ok tt → o.1.shell.phase ≡ open_phase)
      → (o'.0 ≡ ok tt → (length o'.1 ≡ n) × AllOpen o'.1)
      → (cons_opened g tr o o' ws).0 ≡ ok tt
      → (length (cons_opened g tr o o' ws).1 ≡ suc n) × AllOpen (cons_opened g tr o o' ws).1
  cons_opened-AllOpen (ok tt, w) o' ws n one rest e =
      let (long, all) = rest e in (ap suc long, (one refl, all))
  cons_opened-AllOpen (err x, w) o' ws n one rest e = cc e

  open_all-AllOpen :
      (entries : List ModelEntry) (ts : List T)
      → length ts ≡ length entries
      → (open_all g tr entries (companion_list g tr entries ts)).0 ≡ ok tt
      → (length (open_all g tr entries (companion_list g tr entries ts)).1 ≡ length entries)
        × AllOpen (open_all g tr entries (companion_list g tr entries ts)).1
  open_all-AllOpen [] ts e h = (refl, tt)
  open_all-AllOpen (entry ∷ entries) [] e h = ground (arith, e)
  open_all-AllOpen ((a, v) ∷ entries) (t ∷ ts) e h =
      cons_opened-AllOpen _ _ _ (length entries)
        (with_state-phase (fields_of v) (fresh_widget g tr t a))
        (open_all-AllOpen entries ts (omega (arith, e))) h

  abbrev IsThere : Option (Widget T Fields) → Type 0
  IsThere none = ⊥
  IsThere (some w) = Unit

  opened_with-IsOpen :
      (state : Result Fields) (o : Option (Widget T Fields))
      → IsThere o
      → (opened_with g tr state o).0 ≡ ok tt
      → IsOpen (opened_with g tr state o).1
  opened_with-IsOpen state none i e = elim i [ ]
  opened_with-IsOpen state (some w) i e = with_state-phase state w e

  -- A call after another one, if both return.
  stage :
      (P Q : Wired T → Type 0) (o : Result (Unit {0}) × Wired T) (f : Call (Wired T))
      → (o.0 ≡ ok tt → P o.1)
      → ((y : Wired T) → P y → (f y).0 ≡ ok tt → Q (f y).1)
      → (and_then o f).0 ≡ ok tt
      → Q (and_then o f).1
  stage P Q (ok tt, y) f before step e = step y (before refl) e
  stage P Q (err x, y) f before step e = cc e

  -- How far `wire` has come.
  abbrev SliderOpen : Dashboard → Wired T → Type 0
  SliderOpen d y =
      (y.dashboard ≡ d)
      × IsOpen y.slider_widget
      × IsThere y.dropdown_widget
      × IsThere y.summary_widget

  abbrev DropdownOpen : Dashboard → Wired T → Type 0
  DropdownOpen d y =
      (y.dashboard ≡ d)
      × IsOpen y.slider_widget
      × IsOpen y.dropdown_widget
      × IsThere y.summary_widget

  abbrev SummaryOpen : Dashboard → Wired T → Type 0
  SummaryOpen d y =
      (y.dashboard ≡ d)
      × IsOpen y.slider_widget
      × IsOpen y.dropdown_widget
      × IsOpen y.summary_widget

  abbrev DownloadOpen : Dashboard → Option T → Wired T → Type 0
  DownloadOpen d dl y = SummaryOpen d y × OpenIf dl y.download_widget

  abbrev pub EachOpen : Dashboard → Option T → Option (List T) → Wired T → Type 0
  EachOpen d dl cs y =
      IsOpen y.slider_widget
      × IsOpen y.dropdown_widget
      × IsOpen y.summary_widget
      × OpenIf dl y.download_widget
      × AllOpenIf cs (companion_entries d) y.companion_widgets

  download-DownloadOpen :
      (d : Dashboard) (dl : Option T) (y : Wired T)
      → SummaryOpen d y
      → (wire_download g tr dl y).0 ≡ ok tt
      → DownloadOpen d dl (wire_download g tr dl y).1
  download-DownloadOpen d none y p e = (p, tt)
  download-DownloadOpen d (some t) y p e = (p, opened_with-IsOpen _ (some _) tt e)

  companions-EachOpen :
      (d : Dashboard) (dl : Option T) (cs : Option (List T)) (y : Wired T)
      → DownloadOpen d dl y
      → (wire_companions g tr cs y).0 ≡ ok tt
      → EachOpen d dl cs (wire_companions g tr cs y).1
  companions-EachOpen d dl none y ((same, s, p, q), o) e = (s, p, q, o, tt)
  companions-EachOpen d dl (some ts) y ((same, s, p, q), o) e =
      elim (Bool-cases (nat_eq (length ts) (length (companion_entries y.dashboard)))) [
        | inl equal ↦
            let (long, all) =
              open_all-AllOpen (companion_entries y.dashboard) ts ((nat_eq_iff _ _).0 equal)
                (rw (equal, wire_companions) at e) in
            rw (equal, wire_companions)
              (s, p, q, o, (long ∙ ap (λ z. length (companion_entries z)) same, all))
        | inr other ↦ cc (rw (other, wire_companions) at e)
      ]

  -- If `wire` returns, whatever the transports do, then the slider, the dropdown and the summary are
  -- open, and so is the download button if it has a transport; and if the companions have
  -- transports, there is one widget for each companion, and it is open.
  pub wire-EachOpen :
      (a b c : T) (cs : Option (List T)) (dl : Option T) (x : Wired T)
      → (wire g tr a b c cs dl x).0 ≡ ok tt
      → EachOpen x.dashboard dl cs (wire g tr a b c cs dl x).1
  unfolding wire
  wire-EachOpen a b c cs dl x =
      let d = x.dashboard in
      let sliders = open_slider g tr (with_widgets g tr a b c x) in
      let dropdowns = and_then sliders (open_dropdown g tr) in
      let summaries = and_then dropdowns (open_summary g tr) in
      let downloads = and_then summaries (wire_download g tr dl) in
      stage (DownloadOpen d dl) (EachOpen d dl cs) downloads (wire_companions g tr cs)
        (stage (SummaryOpen d) (DownloadOpen d dl) summaries (wire_download g tr dl)
          (stage (DropdownOpen d) (SummaryOpen d) dropdowns (open_summary g tr)
            (stage (SliderOpen d) (DropdownOpen d) sliders (open_dropdown g tr)
              (λ e. (
                refl,
                opened_with-IsOpen (ok (get_slider_state d))
                    (with_widgets g tr a b c x).slider_widget tt e,
                tt,
                tt,
              ))
              (λ y (same, s, p, q) e. (
                same,
                s,
                opened_with-IsOpen (ok (get_dropdown_state y.dashboard)) y.dropdown_widget p e,
                q,
              )))
            (λ y (same, s, p, q) e. (
              same,
              s,
              p,
              opened_with-IsOpen (get_summary_state g y.dashboard) y.summary_widget q e,
            )))
          (download-DownloadOpen d dl))
        (companions-EachOpen d dl cs)
