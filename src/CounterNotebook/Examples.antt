-- ===== src/CounterNotebook/Examples.antt =====
-- Three clicks, over a comm package that counts its comms and notes whether the newest has a handler.
use cositos.Base.{ℕ, suc, ◌≡◌, refl, Bool, true, false, some, []}
use cositos.Value.{pos, name, fresh, Value, int, str, dict, Fields}
use cositos.Value.Dict.{lookup}
use cositos.Errors.{ok}
use cositos.Protocol.{update_payload}
use cositos.Protocol.Wire.{parse_message-update_payload}
use cositos.Lifecycle.{open_phase}
use cositos.Jupyter.{CommPackage}
use cositos.Jupyter.Listening.{Handles, hears}
use cositos.CounterNotebook.{counter_host, counter_widget, display, clicks, read_count, esm}
use cositos.CounterNotebook.Clicks.{Saves, clicks-count}

abbrev Kernel : Type 0
Kernel = ℕ × Bool

abbrev comms : CommPackage ℕ Kernel
comms = record {
  create_comm = λ x y bs k. (k.0, (suc k.0, false));
  comm_id = λ c. "c";
  send = λ c x bs k. k;
  close = λ c k. k;
  on_msg = λ c k. (k.0, true);
}

abbrev has_handler : ℕ → Kernel → Bool
has_handler c k = k.1

comms-Handles : Handles comms has_handler
comms-Handles = record { created = λ x y bs k. refl; registered = λ c k. refl }

abbrev save_changes : Fields → Value
save_changes fs = update_payload (dict fresh fs) []

save_changes-Saves : Saves save_changes
save_changes-Saves fs = (fresh, parse_message-update_payload (dict fresh fs) [])

clicks-count_example :
    let shown = display comms (counter_widget comms (0, false)) in
    let after = clicks comms save_changes 3 0 shown.1 in
    ((bundle : Value) × (shown.0 ≡ ok bundle))
    × (hears comms has_handler comms-Handles counter_host shown.1.shell.transport ≡ some true)
    × (after.0 ≡ ok tt)
    × (after.1.shell.phase ≡ open_phase)
    × (read_count after.1.shell.host ≡ some (int (pos 3)))
    × (lookup (name "_esm") after.1.shell.host ≡ some (str esm))
clicks-count_example =
    clicks-count comms has_handler comms-Handles save_changes save_changes-Saves (0, false) 3
