-- ===== src/Jupyter.antt =====
-- src/cositos/jupyter.py: `CommTransport`, a transport over the `comm` comms. The package is a
-- parameter, by the operations that the transport calls; they are taken not to raise.
pub mod Listening
mod Examples
use cositos.Base.{String, Bool, true, false, Option, none, some, List, [], ◌∷◌, if◌then◌else◌}
use cositos.Value.{Bytes, Value}
use cositos.Errors.{Error, runtime_error, Result, ok, err}
use cositos.Lifecycle.{MsgType, comm_open, comm_msg, comm_close}
use cositos.Protocol.{empty_dict}
use cositos.Shell.{Call, Transport}

-- `comm`: `C` is a comm object, and `K` all that the package and the kernel keep. `on_msg` registers
-- the transport's callback.
pub record CommPackage (C K : Type 0) : Type 0 where
  pub create_comm : Value → Value → Option (List Bytes) → K → C × K
  pub comm_id : C → String
  pub send : C → Value → Option (List Bytes) → K → K
  pub close : C → K → K
  pub on_msg : C → K → K

-- The attributes of a `CommTransport`, and the package's state. The callback is always the shell's
-- handler, so that `pending` says only whether there is one.
pub record CommTransport (C K : Type 0) : Type 0 where
  pub comm : Option C
  pub pending : Bool
  pub kernel : K

-- `buffers or None`
abbrev pub or_none : List Bytes → Option (List Bytes)
or_none [] = none
or_none (b ∷ bs) = some (b ∷ bs)

-- `metadata or {}`
abbrev pub or_empty : Option Value → Value
or_empty none = empty_dict
or_empty (some v) = v

module _ {C K : Type 0} (comms : CommPackage C K) where
  -- `_require_comm`, and what is done with the comm
  abbrev pub with_comm : (C → K → K) → Call (CommTransport C K)
  with_comm f t = elim t.comm [
    | none ↦ (err (runtime_error "comm not opened; call Widget.open() first"), t)
    | some c ↦ (ok tt, record t { kernel = f c t.kernel })
  ]

  -- `_bind`
  unfoldable pub bind : Call (CommTransport C K)
  bind t = with_comm comms.on_msg t

  -- the end of `_open`
  abbrev pub bind_pending : Call (CommTransport C K)
  bind_pending t =
      if t.pending then (let (r, t') = bind t in (r, record t' { pending = false })) else (ok tt, t)

  -- `_open`
  unfoldable pub open_comm : Value → List Bytes → Value → Call (CommTransport C K)
  open_comm content buffers metadata t =
      let (c, k) = comms.create_comm content metadata (or_none buffers) t.kernel in
      bind_pending (record t { comm = some c; kernel = k })

  unfoldable pub send : MsgType → Value → List Bytes → Option Value → Call (CommTransport C K)
  send comm_open content buffers metadata t = open_comm content buffers (or_empty metadata) t
  send comm_msg content buffers metadata t =
      with_comm (λ c k. comms.send c content (or_none buffers) k) t
  send comm_close content buffers metadata t = with_comm comms.close t

  unfoldable pub on_message : Call (CommTransport C K)
  on_message t = elim t.comm [ none ↦ (ok tt, record t { pending = true }) | some c ↦ bind t ]

  -- `comm_id`
  unfoldable pub comm_id : CommTransport C K → String
  comm_id t = elim t.comm [ none ↦ "" | some c ↦ comms.comm_id c ]

  -- The class as a transport: it has `supports_receive`, and none of the other flags.
  abbrev pub comm_transport : Transport (CommTransport C K)
  comm_transport = record {
    send = send;
    on_message = on_message;
    comm_id = comm_id;
    supports_receive = λ t. some true;
    supports_request_state = λ t. none;
    supports_custom = λ t. none;
    supports_buffers = λ t. none;
  }

-- `CommTransport()`
abbrev pub new_transport : {C K : Type 0} → K → CommTransport C K
new_transport k = record { comm = none; pending = false; kernel = k }
