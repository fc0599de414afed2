-- ===== src/Lib.antt =====
-- cositos: anywidget-style widgets over a Jupyter comm, without a binding to one kernel. This
-- library models the Python core, src/cositos of the repository, and of its scripts and examples those
-- in Python that have logic of their own.
--
-- The program. A host object keeps a widget's state as a dict. `buffers.py` splits such a state
-- into JSON and binary buffers with their paths, and puts them back. `protocol.py` builds the
-- messages of the widget protocol from a split state and parses the inbound ones. `lifecycle.py`
-- decides, as a pure function of the phase, the event, the host's state and the transport's
-- capabilities, which messages to send and what to do with inbound ones; its class `WidgetShell`
-- carries that out on a transport and a host, `model.py` is the public facade over it, and
-- `jupyter.py` a transport. `serialize.py` saves the states of models as one JSON document and
-- loads them, and `embed.py` renders such a document as a static page; `contrib` builds entries for
-- stock controls and takes documents from ipywidgets.
--
-- Which file models what.
--   Base: library names, tests on numbers. Value: Python values, with Value/Keys (keys and paths),
--     Value/Dict (dicts in insertion order), Value/Seq (sequences), Value/View (what a value says,
--     whatever the order of its dicts), Value/State (states by what they say, a quotient),
--     Value/Equal (Python's `==`). Errors: exceptions and results.
--   Buffers: src/cositos/buffers.py, `_separate` as its loop over a stack of frames, `remove_buffers`;
--     Buffers/Put: `put_buffers`. Buffers/Recursive has the recursive walk that the loop stands for,
--     Buffers/Strip, Places and Restore what it makes of a state by structural recursion; the other
--     children are proofs.
--   Protocol: src/cositos/protocol.py. Protocol/Wire: the paths of a message, read back.
--   Lifecycle: `reduce` of src/cositos/lifecycle.py and its six handlers.
--   Shell: `WidgetShell` of src/cositos/lifecycle.py, over any transport (the protocol of
--     src/cositos/transport.py) and any host. Shell/Conformance: what a program asks of a shell.
--   Widget: src/cositos/model.py, the facade over a shell.
--   Jupyter: src/cositos/jupyter.py, a transport over the `comm` package, which is a parameter.
--   Serialize: src/cositos/serialize.py, documents of models; base64 is a parameter.
--     Serialize/References: `check_references`.
--   Embed: the escape and the view identity of src/cositos/embed.py. Embed/Page: the page around them.
--     Embed/Read: a reader of script elements, for the theorems on the page; Embed/Harmless: the tags
--     that an escaped text may not hold.
--   Controls: src/cositos/contrib/controls.py. Controls/Layout: nested calls of its functions.
--   Harvest: src/cositos/contrib/harvest.py.
--   Dashboard: examples/dashboard/build.py. Dashboard/Wiring: its widgets and what a change sends.
--   EndToEnd: examples/e2e/python_e2e.py. Composition: examples/composition/build.py.
--   StaticExport: examples/static-export/build.py. CounterNotebook: the code cells of
--     examples/notebooks/python_counter.ipynb.
--   Reactive: examples/benchmarks/reactive.py. Reactive/Evaluate: what a
--     derivation stands for. Reactive/Pull, Push and Update: reads, invalidation, and a whole set.
--   Probe: probe/kernel_probe.py, over any client of a kernel.
--   Audit: scripts/coverage_audit.py. Backends: scripts/e2e_all.py.
--
-- How state and errors correspond. A Python value is a tree whose containers carry the identity of
-- their object, which is all that `id(...)` is used for; a container that a call has made itself is
-- `fresh`, equal to no other. A cyclic object is a tree that ends where an ancestor comes again,
-- since the walk does not look below that. Functions that may raise return a `Result`; functions that
-- write in place return the new value.
--
-- Bounds and fuel. `max_depth` is the source's 500. The loop of `_separate` runs on the number of
-- entries and containers of the state as its fuel, which is enough: each iteration takes an
-- entry or pops a container. `_exec_one` and `_execute` of the shell call each other on fuel for one
-- nested call, which is all that the feedback of a comm id takes. The two loops of the kernel probe run on
-- fuel that exceeds the number of messages to come. A read of a reactive object runs on fuel for how deep
-- its reads nest; what suffices for the naive evaluation suffices for the read. An
-- invalidation runs on more fuel than there are derivations, and a flush on the number of pending effects.
--
-- What is not modelled. Keys of dicts are texts and integers; leaves other than null, Booleans,
-- integers, texts and binary values are one opaque kind. A binary value is its raw bytes. `dict(x)`
-- of an inbound state that is no dict is taken to raise, and so is a path that holds anything but
-- texts and integers; Python accepts some of these. A leaf of the opaque
-- kind equals just itself, and as the index of the dashboard it is taken to raise. A transport does not
-- deliver a message while one of its operations runs, and the host's `get_state` returns. The example of plots,
-- which only writes sample data, and the benchmarks around Reactive are not
-- modelled, nor are the ports to other languages.
pub mod Base
pub mod Value
pub mod Errors
pub mod Buffers
pub mod Protocol
pub mod Lifecycle
pub mod Shell
pub mod Widget
pub mod Jupyter
pub mod Serialize
pub mod Embed
pub mod Controls
pub mod Harvest
pub mod Audit
pub mod Backends
pub mod Dashboard
pub mod Probe
pub mod EndToEnd
pub mod Composition
pub mod StaticExport
pub mod CounterNotebook
pub mod Reactive
