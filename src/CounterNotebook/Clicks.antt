-- ===== src/CounterNotebook/Clicks.antt =====
-- The state of the kernel after clicks in the page.
use cositos.Base.{ℕ, zero, suc, ◌+◌, ◌≡◌, refl, ap, ◌∙◌, Bool, true, Option, some, [], arith}
use cositos.Value.{Ident, name, key_eq, ident_mem, pos, Value, int, str, dict, Fields}
use cositos.Protocol.Wire.{value_paths}
use cositos.Buffers.Put.{put_buffers}
use cositos.Buffers.{max_depth, remove_buffers, run, cost}
use cositos.Value.Dict.{lookup, insert, remove, merge, lookup-merge, Distinct}
use cositos.Errors.{Result, ok, err}
use cositos.Protocol.{
  CommOpen, update, parse_message, paths_value, build_comm_open, anywidget_module_version,
  immutable_fields, model_identity, view_identity,
}
use cositos.Lifecycle.{merged_state, open_phase, full_state}
use cositos.Shell.Hosted.{open_shell-host}
use cositos.Shell.{
  on_transport, Call, Transport, Host, Shell, and_then, adopt_id, start_listening, exec_one,
  exec_effect, exec_list, execute_with, execute, open_shell, handle_inbound, new_shell,
  bundle_after,
}
use cositos.Shell.Inbound.{handle_inbound-react}
use cositos.Widget.{repr_mimebundle, bundle_and_sync, new_widget}
use cositos.Shell
use cositos.Jupyter.{CommPackage, CommTransport, comm_transport}
use cositos.Jupyter.Listening.{Handles, hears, open_shell-hears}
use cositos.CounterNotebook.{
  counter_state, counter_host, read_count, changed, clicked, CounterWidget, counter_widget, display,
  clicks, esm,
}

-- What `save_changes()` is documented to send: an update of what has changed.
abbrev pub Saves : (Fields → Value) → Type 0
Saves save_changes =
    (fs : Fields)
    → (i : Ident) × (parse_message (save_changes fs) ≡ update (dict i fs) (paths_value []))

abbrev message_of : Result CommOpen → CommOpen
message_of (ok m) = m
message_of (err e) = record { payload = str ""; buffers = []; metadata = str "" }

abbrev opening : Result CommOpen
opening = build_comm_open (full_state counter_state) anywidget_module_version

opened : opening ≡ ok (message_of opening)
unfolding build_comm_open remove_buffers run cost max_depth ident_mem insert remove merge
    immutable_fields model_identity view_identity key_eq
opened = refl

at_count : {o : Option Value} {m n : ℕ} → m ≡ n → o ≡ some (int (pos m)) → o ≡ some (int (pos n))
at_count e found = rw e at found

one_key : (count : ℕ) → Distinct (changed count)
unfolding lookup
one_key count = (refl, tt)

set_count :
    (count : ℕ) (host : Fields)
    → read_count (merge host (changed count)) ≡ some (int (pos (clicked count)))
set_count count host =
    lookup-merge (name "count") host (changed count) (one_key count) ∙ unfold lookup key_eq in refl

kept_script :
    (count : ℕ) (host : Fields)
    → lookup (name "_esm") host ≡ some (str esm)
    → lookup (name "_esm") (merge host (changed count)) ≡ some (str esm)
kept_script count host e =
    lookup-merge (name "_esm") host (changed count) (one_key count)
    ∙ rw e (unfold lookup key_eq in refl)

module _ {C K : Type 0} (comms : CommPackage C K) (save_changes : Fields → Value)
    (saves : Saves save_changes) where
  -- one click, in an open widget
  one_click :
      (count : ℕ) (s : Shell (CommTransport C K) Fields)
      → s.phase ≡ open_phase
      → handle_inbound (comm_transport comms) counter_host (save_changes (changed count)) [] s
        ≡ (ok tt, record s { host = merge s.host (changed count) })
  unfolding merged_state value_paths put_buffers
  one_click count s e =
      let (i, parsed) = saves (changed count) in
      handle_inbound-react (comm_transport comms) counter_host (save_changes (changed count)) [] s
      ∙ rw (e, parsed) refl

  -- The widget is open, and the kernel's state has the count and the script.
  abbrev Shows : ℕ → CounterWidget comms → Type 0
  Shows count w =
      (w.shell.phase ≡ open_phase)
      × (read_count w.shell.host ≡ some (int (pos count)))
      × (lookup (name "_esm") w.shell.host ≡ some (str esm))

  clicks-Shows :
      (n count : ℕ) (w : CounterWidget comms)
      → Shows count w
      → let o = clicks comms save_changes n count w in (o.0 ≡ ok tt) × Shows (n + count) o.1
  unfolding clicks
  clicks-Shows zero count w h = (refl, (h.0, at_count (omega arith) h.1, h.2))
  clicks-Shows (suc n) count w h =
      let after = record w {
        shell = record w.shell { host = merge w.shell.host (changed count) };
      } in
      let (returned, (phase, found, kept)) =
        clicks-Shows n (clicked count) after
          (h.0, set_count count w.shell.host, kept_script count w.shell.host h.2) in
      rw (one_click count w.shell h.0) (returned, (phase, at_count (omega arith) found, kept))

module _ {C K : Type 0} (comms : CommPackage C K) (has_handler : C → K → Bool)
    (handles : Handles comms has_handler) (save_changes : Fields → Value)
    (saves : Saves save_changes) where
  abbrev shown : K → Result Value × CounterWidget comms
  shown k = display comms (counter_widget comms k)

  -- Displaying a widget that is not open opens it, and returns a bundle if that returns.
  displayed :
      (o : Result (Unit {0}) × Shell (CommTransport C K) Fields) (w : CounterWidget comms)
      → o.0 ≡ ok tt
      → let d =
          bundle_and_sync
            (comm_transport comms)
            counter_host
            w
            (bundle_after (comm_transport comms) counter_host o) in
        ((bundle : Value) × (d.0 ≡ ok bundle)) × (d.1.shell ≡ o.1)
  displayed (ok u, s) w e = ((_, refl), refl)
  displayed (err x, s) w e = cc e

  shown-opened :
      (k : K)
      → let o = open_shell (comm_transport comms) counter_host (counter_widget comms k).shell in
        o.0 ≡ ok tt → ((bundle : Value) × ((shown k).0 ≡ ok bundle)) × ((shown k).1.shell ≡ o.1)
  unfolding repr_mimebundle Shell.repr_mimebundle new_widget new_shell
  shown-opened k e = displayed _ (counter_widget comms k) e

  -- Displaying the counter returns, and its comm has a handler. After any number of clicks in a page
  -- that shows the first count, each handled without an error, the widget is open, the count in the
  -- kernel's `state` is that number, and the script is as before.
  pub clicks-count :
      (k : K) (n : ℕ)
      → let after = clicks comms save_changes n 0 (shown k).1 in
        ((bundle : Value) × ((shown k).0 ≡ ok bundle))
        × (hears comms has_handler handles counter_host (shown k).1.shell.transport ≡ some true)
        × (after.0 ≡ ok tt)
        × (after.1.shell.phase ≡ open_phase)
        × (read_count after.1.shell.host ≡ some (int (pos n)))
        × (lookup (name "_esm") after.1.shell.host ≡ some (str esm))
  unfolding new_widget new_shell lookup key_eq
  clicks-count k n =
      let s = (counter_widget comms k).shell in
      let (returned, phase, listening) =
        open_shell-hears comms has_handler handles counter_host s (message_of opening) refl refl
          refl opened in
      let (bundle, same) = shown-opened k returned in
      let host = ap (λ x. x.host) same ∙ open_shell-host (comm_transport comms) counter_host s in
      let (clicked_all, (still_open, count, script)) =
        clicks-Shows comms save_changes saves n 0 (shown k).1
          (ap (λ x. x.phase) same ∙ phase, ap read_count host, ap (lookup (name "_esm")) host) in
      (
        bundle,
        ap (λ x. hears comms has_handler handles counter_host x.transport) same ∙ listening,
        clicked_all,
        still_open,
        at_count (omega arith) count,
        script,
      )
