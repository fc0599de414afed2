-- ===== src/Shell/Opened.antt =====
-- After an `open` that returns, the shell is open.
use text.Mathlib.Text.{◌==◌}
use cositos.Base.{
  ◌≡◌, refl, Bool, true, false, Bool-cases, inl, inr, Option, some, List, ◌∷◌, arith,
}
use cositos.Value.{Bytes, Value}
use cositos.Errors.{Result, ok, err, ◌>>=◌}
use cositos.Protocol.{CommOpen}
use cositos.Lifecycle.{
  Phase, unopened, open_phase, closed, is_open, MsgType, comm_open, comm_msg, comm_close, send,
  listen, listen_if, reduce, reduce_open,
}
use cositos.Shell.{
  Call, Transport, Host, Shell, and_then, adopt_id, start_listening, exec_one, exec_effect,
  exec_list, execute_with, execute, open_shell,
}

module _ {T H : Type 0} (tr : Transport T) (ho : Host H) where
  abbrev KeepsOpen : Call (Shell T H) → Type 0
  KeepsOpen f = (s : Shell T H) → s.phase ≡ open_phase → (f s).1.phase ≡ open_phase

  adopt_id-phase :
      (m : MsgType) → KeepsOpen (adopt_id tr ho (execute_with tr ho (exec_one tr ho 0)) m)
  unfolding execute_with exec_list reduce
  adopt_id-phase comm_open s e = elim (Bool-cases (tr.comm_id s.transport == "")) [
    | inl anonymous ↦ rw anonymous e
    | inr named ↦ rw named refl
  ]
  adopt_id-phase comm_msg s e = e
  adopt_id-phase comm_close s e = e

  and_then-phase :
      (o : Result (Unit {0}) × Shell T H) (f : Call (Shell T H))
      → o.1.phase ≡ open_phase
      → KeepsOpen f
      → (and_then o f).1.phase ≡ open_phase
  and_then-phase (ok u, s) f e keeps = keeps s e
  and_then-phase (err x, s) f e keeps = e

  send-phase :
      (m : MsgType) (payload : Value) (buffers : List Bytes) (metadata : Option Value)
      → KeepsOpen (exec_one tr ho 1 (send m payload buffers metadata))
  unfolding exec_one exec_effect
  send-phase m payload buffers metadata s e = and_then-phase _ _ e (adopt_id-phase m)

  listen-phase : KeepsOpen (exec_one tr ho 1 listen)
  unfolding exec_one exec_effect
  listen-phase s e = elim (Bool-cases s.listening) [
    | inl old ↦ rw (old, start_listening) e
    | inr new ↦ rw (new, start_listening) (and_then-phase _ _ e (λ s' e'. e'))
  ]

  listen_if-phase : (b : Bool) → KeepsOpen (exec_list tr ho (exec_one tr ho 1) (listen_if b))
  unfolding exec_list
  listen_if-phase true s e = and_then-phase _ _ (listen-phase s e) (λ s' e'. e')
  listen_if-phase false s e = e

  built_phase :
      (r : Result CommOpen) (s : Shell T H)
      → let o =
          execute tr ho
            (r >>= λ m. ok (
              open_phase,
              send comm_open m.payload m.buffers (some m.metadata)
                  ∷ listen_if s.capabilities.supports_receive,
            ))
            s in
        o.0 ≡ ok tt → o.1.phase ≡ open_phase
  unfolding execute execute_with exec_list
  built_phase (ok m) s e =
      and_then-phase _ _ (send-phase comm_open m.payload m.buffers (some m.metadata) _ refl)
        (listen_if-phase s.capabilities.supports_receive)
  built_phase (err x) s e = cc e

  is_open-path : (p : Phase) → is_open p ≡ true → p ≡ open_phase
  is_open-path open_phase e = refl
  is_open-path unopened e = ground (arith, e)
  is_open-path closed e = ground (arith, e)

  at_phase :
      (b : Bool) (s : Shell T H)
      → is_open s.phase ≡ b
      → (open_shell tr ho s).0 ≡ ok tt
      → (open_shell tr ho s).1.phase ≡ open_phase
  unfolding open_shell reduce reduce_open
  at_phase true s e h = rw e (is_open-path s.phase e)
  at_phase false s e h = rw e (built_phase _ s (rw e at h))

  -- Whatever the transport and the host do, a shell is open after an `open` that returns.
  pub open_shell-ok :
      (s : Shell T H) → (open_shell tr ho s).0 ≡ ok tt → (open_shell tr ho s).1.phase ≡ open_phase
  open_shell-ok s h = at_phase (is_open s.phase) s refl h
