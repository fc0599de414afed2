-- ===== src/Lifecycle/Grammar.antt =====
-- The messages of a widget's life, in order, follow the comm protocol.
use cositos.Base.{◌≡◌, refl, Bool, true, Option, none, some, List, [], ◌∷◌, ◌++◌, arith}
use cositos.Value.{Fields}
use cositos.Errors.{Result, ok, err, ◌>>=◌}
use cositos.Lifecycle.{
  Phase, open_phase, closed, TransportCapabilities, MsgType, comm_open, comm_msg, comm_close,
  Effect, send, listen, Event, open_comm, send_state, send_custom, inbound, close, comm_id_assigned,
  unknown, is_open, reduce, reduce_open, reduce_send_state, reduce_send_custom, reduce_inbound,
  reduce_close,
}
use cositos.Lifecycle.Guards.{next_phase, reduce_guarded}

-- One message, seen from the other end: a comm is opened when there is none, carries messages while
-- it is open, and is closed when it is open.
abbrev pub receives : Phase → MsgType → Option Phase
receives open_phase comm_open = none
receives _ comm_open = some open_phase
receives open_phase comm_msg = some open_phase
receives _ comm_msg = none
receives open_phase comm_close = some closed
receives _ comm_close = none

abbrev pub receives_opt : Option Phase → MsgType → Option Phase
receives_opt none m = none
receives_opt (some p) m = receives p m

-- The phase after the messages among some effects; `none` if one of them comes out of order.
unfoldable pub follows : Option Phase → List Effect → Option Phase
follows p [] = p
follows p (send m payload buffers metadata ∷ es) = follows (receives_opt p m) es
follows p (e ∷ es) = follows p es

pub follows-append :
    (p : Option Phase) (es fs : List Effect) → follows p (es ++ fs) ≡ follows (follows p es) fs
unfolding follows
follows-append p [] fs = refl
follows-append p (send m x b y ∷ es) fs = follows-append (receives_opt p m) es fs
follows-append p (listen ∷ es) fs = follows-append p es fs
follows-append p (e ∷ es) fs = follows-append p es fs

-- A run of the reducer over events, each with the host's state at that time, and all the effects.
unfoldable pub run_events :
    TransportCapabilities → Phase → List (Event × Fields) → Result (Phase × List Effect)
run_events caps phase [] = ok (phase, [])
run_events caps phase ((event, current) ∷ rest) = do
  (phase', effects) ← reduce phase event current caps
  (last, others) ← run_events caps phase' rest
  ok (last, effects ++ others)

-- Comm ids are assigned only while the comm is open, as the shell does.
abbrev pub assigned_open : Phase → Event → Bool
assigned_open phase (comm_id_assigned id) = is_open phase
assigned_open phase _ = true

abbrev pub AssignedOpen : Phase → List (Event × Fields) → Type 0
AssignedOpen phase [] = Unit
AssignedOpen phase ((event, current) ∷ rest) =
    (assigned_open phase event ≡ true) × AssignedOpen (next_phase phase event) rest

pub follows_one :
    (phase : Phase) (event : Event) (current : Fields) (caps : TransportCapabilities) (p : Phase)
    (es : List Effect)
    → assigned_open phase event ≡ true
    → reduce phase event current caps ≡ ok (p, es)
    → follows (some phase) es ≡ some p
unfolding reduce reduce_open reduce_send_state reduce_send_custom reduce_inbound reduce_close
    follows
follows_one phase open_comm current caps p es a h = ground arith
follows_one phase (send_state include) current caps p es a h = ground arith
follows_one phase (send_custom content buffers) current caps p es a h = ground arith
follows_one phase (inbound message buffers) current caps p es a h = ground arith
follows_one phase close current caps p es a h = ground arith
follows_one phase (comm_id_assigned id) current caps p es a h = ground arith
follows_one phase (unknown type) current caps p es a h = ground arith

pub bind_ok :
    {A B : Type 0} (r : Result A) (f : A → Result B) (b : B)
    → (r >>= f) ≡ ok b
    → (a : A) × (r ≡ ok a) × (f a ≡ ok b)
bind_ok (ok a) f b h = (a, refl, h)
bind_ok (err e) f b h = cc

-- Whatever events come, as long as the reducer raises nothing and comm ids are assigned only while
-- the comm is open, the messages that it sends follow the comm protocol from the phase at the start
-- (`comm_open` only without an open comm, `comm_msg` and `comm_close` only with one), and the phase
-- at the end is the one that the other end has seen.
pub run_events-follows :
    (caps : TransportCapabilities) (phase : Phase) (events : List (Event × Fields)) (last : Phase)
    (es : List Effect)
    → AssignedOpen phase events
    → run_events caps phase events ≡ ok (last, es)
    → follows (some phase) es ≡ some last
unfolding run_events
run_events-follows caps phase [] last es a h = unfold follows in ground arith
run_events-follows caps phase ((event, current) ∷ rest) last es a h =
    let (r, one, more) = bind_ok (reduce phase event current caps) _ _ h in
    let (t, two, three) = bind_ok (run_events caps r.0 rest) _ _ more in
    let later : follows (some r.0) t.1 ≡ some t.0 =
      run_events-follows caps r.0 rest t.0 t.1
        (rw ((reduce_guarded phase event current caps r.0 r.1 one).0) a.1) two in
    cc (
      follows-append (some phase) r.1 t.1,
      follows_one phase event current caps r.0 r.1 a.0 one,
      later,
      three,
    )
