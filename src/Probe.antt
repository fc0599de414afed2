-- ===== src/Probe.antt =====
-- probe/kernel_probe.py: what a running kernel can do with comms. `jupyter_client` is a parameter: the
-- record `Client`, over a state `W` of the machine. An exception is a value, `Raised`.
mod Shutdown
mod Loops
mod Examples
use Prim.Native.String.{◌++◌ as text_append}
use text.Mathlib.Text.{◌==◌}
use cositos.Base.{
  ℕ, zero, suc, String, Bool, true, false, Option, none, some, List, [], ◌∷◌, ◌++◌, if◌then◌else◌,
}
use cositos.Value.{pos, name, bool, fresh, Value, int, str, dict, end, field}

pub data Tier : Type 0 where
  bidirectional broadcast_only no_comm : Tier

abbrev number_of : Tier → String
number_of bidirectional = "1"
number_of broadcast_only = "2"
number_of no_comm = "3"

abbrev label : Tier → String
label bidirectional = "BIDIRECTIONAL"
label broadcast_only = "BROADCAST_ONLY"
label no_comm = "NO_COMM"

-- `ProbeError`, `queue.Empty`, or any other exception; `endless` marks a loop of the model that was
-- given too little fuel.
pub data Raised : Type 0 where
  probe_error other : String → Raised
  empty endless : Raised

pub data Reply (A : Type 0) : Type 0 where
  returned : A → Reply A
  raised : Raised → Reply A

-- What the probe reads of a message.
pub record KernelMessage : Type 0 where
  pub parent : Option String
  pub msg_type : String
  pub status : String
  pub comm_id : String

-- `jupyter_client`: start a kernel; run code, with the id of the request; wait for a message; send a
-- `comm_msg` to a comm; stop the channels and shut the kernel down.
pub record Client (W : Type 0) : Type 0 where
  pub start_new_kernel : String → W → Reply (Unit {0}) × W
  pub request : String → W → Reply String × W
  pub get_shell_msg : W → Reply KernelMessage × W
  pub get_iopub_msg : W → Reply KernelMessage × W
  pub send : String → Value → W → Reply (Unit {0}) × W
  pub stop_channels : W → Reply (Unit {0}) × W
  pub shutdown_kernel : W → Reply (Unit {0}) × W

abbrev pub after : {A B W : Type 0} → Reply A × W → (A → W → Reply B × W) → Reply B × W
after (returned a, w) f = f a w
after (raised e, w) f = (raised e, w)

abbrev probe_programs : List (String × String)
probe_programs =
    (
      "python3",
      "from ipykernel.comm import Comm\n_probe_comm = Comm(target_name=\"cositos.probe\", data={\"hello\": 1})\ndef _probe_on(msg):\n    _probe_comm.send({\"echo\": True})\n_probe_comm.on_msg(_probe_on)\n",
    )
    ∷ (
      "ir",
      "comm <- IRkernel:::Comm(target_name = \"cositos.probe\", id = \"cositos-probe-1\")\ncomm$on_msg(function(msg) comm$send(list(echo = TRUE)))\ncomm$open(msg = list(hello = 1))\n",
    )
    ∷ (
      "julia",
      "import IJulia.CommManager\n_probe_comm = CommManager.Comm(\"cositos.probe\"; data=Dict(\"hello\"=>1))\n_probe_comm.on_msg = (msg) -> CommManager.send_comm(_probe_comm, Dict(\"echo\"=>true))\n",
    )
    ∷ (
      "clojure",
      "(require '[clojupyter.state :as state])\n(require '[clojupyter.kernel.comm-atom :as comm-atom])\n(let [ctx (state/current-context)\n      jup (:jup ctx)\n      req (:req-message ctx)\n      comm-id (str (java.util.UUID/randomUUID))\n      ca (comm-atom/create-and-insert jup req \"cositos.probe\" comm-id {:hello 1})]\n  (comm-atom/watch ca :probe-echo\n    (fn [_ _ _ new-state]\n      (when-not (:echo new-state)\n        (comm-atom/state-update! ca {:echo true})))))\n",
    )
    ∷ []

abbrev default_ping_payload : Value
default_ping_payload = dict fresh (field (name "ping") (int (pos 1)) end)

-- `PROBE_PING_PAYLOAD.get(key, DEFAULT_PING_PAYLOAD)`
abbrev pub ping_payload : String → Value
ping_payload key =
    if key == "clojure"
    then dict fresh
        (field (name "method") (str "update") (field (name "state") default_ping_payload end))
    else default_ping_payload

abbrev find_program : String → List (String × String) → Option String
find_program key [] = none
find_program key ((k, program) ∷ rest) = if k == key then some program else find_program key rest

abbrev pub is_reply_to : String → Option String → Bool
is_reply_to msg_id none = false
is_reply_to msg_id (some parent) = parent == msg_id

-- `_of_type`
abbrev pub of_type : List KernelMessage → String → List KernelMessage
of_type [] t = []
of_type (m ∷ ms) t = let rest = of_type ms t in if m.msg_type == t then m ∷ rest else rest

module _ {W : Type 0} (cl : Client W) where
  -- the loop of `_execute`
  unfoldable pub await_reply : ℕ → String → W → Reply (Unit {0}) × W
  await_reply zero msg_id w = (raised endless, w)
  await_reply (suc n) msg_id w = after (cl.get_shell_msg w) (λ m w'.
      let rest = await_reply n msg_id w' in
      if is_reply_to msg_id m.parent
      then (if m.status == "ok"
          then (returned tt, w')
          else (raised (probe_error "probe program failed on this kernel"), w'))
      else rest)

  -- `_execute`
  unfoldable pub execute_code : ℕ → String → W → Reply (Unit {0}) × W
  execute_code n code w = after (cl.request code w) (await_reply n)

  -- one turn of the loop of `_drain_iopub`, where `rest` is what the next ones do
  abbrev pub drained :
      (W → Reply (List KernelMessage) × W)
      → Reply KernelMessage × W
      → Reply (List KernelMessage) × W
  drained rest (returned m, w) = after (rest w) (λ ms w'. (returned (m ∷ ms), w'))
  drained rest (raised empty, w) = (returned [], w)
  drained rest (raised e, w) = (raised e, w)

  -- `_drain_iopub`
  unfoldable pub drain_iopub : ℕ → W → Reply (List KernelMessage) × W
  drain_iopub zero w = (raised endless, w)
  drain_iopub (suc n) w = drained (drain_iopub n) (cl.get_iopub_msg w)

  -- `Tier.BIDIRECTIONAL if echoed else Tier.BROADCAST_ONLY`
  abbrev pub on_echo : List KernelMessage → W → Reply Tier × W
  on_echo [] w = (returned broadcast_only, w)
  on_echo (m ∷ ms) w = (returned bidirectional, w)

  abbrev pub ping : ℕ → String → String → W → Reply Tier × W
  ping n key comm_id w =
      after (cl.send comm_id (ping_payload key) w)
        (λ u w'. after (drain_iopub n w') (λ ms w''. on_echo (of_type ms "comm_msg") w''))

  -- what is done with the messages that open a comm
  abbrev pub on_open : ℕ → String → List KernelMessage → W → Reply Tier × W
  on_open n key [] w = (returned no_comm, w)
  on_open n key (m ∷ ms) w = ping n key m.comm_id w

  -- the `try` block of `probe`
  unfoldable pub observe : ℕ → String → String → W → Reply Tier × W
  observe n key source w =
      after (execute_code n source w)
        (λ u w'. after (drain_iopub n w') (λ ms w''. on_open n key (of_type ms "comm_open") w''))

  -- the `finally` block, whose own exception takes the place of what the `try` block did
  abbrev pub finally : Reply Tier × W → Reply Tier × W
  finally (r, w) =
      after (cl.stop_channels w) (λ u w'. after (cl.shutdown_kernel w') (λ u' w''. (r, w'')))

  -- `program or kernel_name`
  abbrev key_of : String → Option String → String
  key_of kernel_name none = kernel_name
  key_of kernel_name (some program) = if program == "" then kernel_name else program

  -- `probe` from the lookup of the program on
  abbrev pub launch : ℕ → String → String → Option String → W → Reply Tier × W
  launch n kernel_name key none w =
      (raised (probe_error (text_append "no probe program for " key)), w)
  launch n kernel_name key (some source) w =
      after (cl.start_new_kernel kernel_name w) (λ u w'. finally (observe n key source w'))

  unfoldable pub probe : ℕ → String → Option String → W → Reply Tier × W
  probe n kernel_name program w =
      let key = key_of kernel_name program in
      launch n kernel_name key (find_program key probe_programs) w

  -- `main`, given its arguments: what it prints, and its exit code
  abbrev reported : String → Reply Tier × W → Reply (String × ℕ) × W
  reported kernel (returned tier, w) = (
    returned (
      text_append kernel (
          text_append ": Tier "
            (text_append (number_of tier) (text_append " (" (text_append (label tier) ")")))),
      0,
    ),
    w,
  )
  reported kernel (raised (probe_error message), w) =
      (returned (text_append "probe error: " message, 2), w)
  reported kernel (raised e, w) = (raised e, w)

  unfoldable pub main : ℕ → String → Option String → W → Reply (String × ℕ) × W
  main n kernel program w = reported kernel (probe n kernel program w)
