-- ===== src/CounterNotebook.antt =====
-- examples/notebooks/python_counter.ipynb: a counter in a notebook, with its kernel. The notebook's
-- `state` is the host of its widget. The page's half is the JavaScript text `esm`; what the model of
-- the page sends for `save_changes()` is a parameter, and so is the comm package.
pub mod Clicks
mod Examples
use cositos.Base.{ℕ, zero, suc, String, Option, some, none, List, [], ◌∷◌}
use cositos.Value.{pos, name, fresh, Value, int, str, dict, Fields, end, field}
use cositos.Value.Dict.{lookup, merge}
use cositos.Errors.{Result, ok}
use cositos.Embed.Page.{concat}
use cositos.Shell.{Call, Host, and_then, handle_inbound}
use cositos.Widget.{Widget, new_widget, on_shell, repr_mimebundle}
use cositos.Jupyter.{CommPackage, CommTransport, comm_transport, new_transport}

-- `ESM`
abbrev pub esm : String
esm = concat (
    "\n" ∷ "export default {\n" ∷ "  render({ model, el }) {\n"
    ∷ "    const btn = document.createElement(\"button\");\n"
    ∷ "    const out = document.createElement(\"span\");\n"
    ∷ "    const paint = () => { out.textContent = \" count = \" + model.get(\"count\"); };\n"
    ∷ "    btn.textContent = \"increment\";\n" ∷ "    btn.addEventListener(\"click\", () => {\n"
    ∷ "      model.set(\"count\", model.get(\"count\") + 1);\n" ∷ "      model.save_changes();\n"
    ∷ "    });\n" ∷ "    model.on(\"change:count\", paint);\n" ∷ "    paint();\n"
    ∷ "    el.appendChild(btn); el.appendChild(out);\n" ∷ "  }\n" ∷ "}\n" ∷ [])

-- `state`, at first
abbrev pub counter_state : Fields
counter_state = field (name "_esm") (str esm) (field (name "count") (int (pos 0)) end)

-- `state.update(v)`. What is handed over is always a dict.
abbrev pub update_state : Value → Call Fields
update_state (dict i fs) state = (ok tt, merge state fs)
update_state v state = (ok tt, state)

-- `get_state` and `set_state`
abbrev pub counter_host : Host Fields
counter_host = record { get_state = λ s. s; set_state = some update_state; on_custom = none }

-- `state['count']`
abbrev pub read_count : Fields → Option Value
read_count state = lookup (name "count") state

-- The page's model, by its count. A click sets it, and `save_changes()` sends what has changed.
abbrev pub clicked : ℕ → ℕ
clicked count = suc count

abbrev pub changed : ℕ → Fields
changed count = field (name "count") (int (pos (clicked count))) end

module _ {C K : Type 0} (comms : CommPackage C K) where
  abbrev pub CounterWidget : Type 0
  CounterWidget = Widget (CommTransport C K) Fields

  -- `widget`
  abbrev pub counter_widget : K → CounterWidget
  counter_widget k =
      new_widget (comm_transport comms) counter_host (new_transport k) counter_state ""

  -- the cell that displays it
  abbrev pub display : CounterWidget → Result Value × CounterWidget
  display w = repr_mimebundle (comm_transport comms) counter_host w

  -- clicks on the button of a page that shows `count`, each followed by what the kernel does
  unfoldable pub clicks : (Fields → Value) → ℕ → ℕ → Call CounterWidget
  clicks save_changes zero count w = (ok tt, w)
  clicks save_changes (suc n) count w =
      and_then
        (on_shell (comm_transport comms) counter_host
          (handle_inbound (comm_transport comms) counter_host (save_changes (changed count)) []) w)
        (clicks save_changes n (clicked count))
