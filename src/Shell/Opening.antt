-- ===== src/Shell/Opening.antt =====
-- Opening a widget: at most once, and what happens when the transport raises.
use cositos.Base.{◌≡◌, refl, false, some}
use cositos.Errors.{Error, Result, ok, err}
use cositos.Protocol.{CommOpen, build_comm_open, anywidget_module_version}
use cositos.Lifecycle.{open_phase, is_open, comm_open, reduce, reduce_open, full_state}
use cositos.Shell.{
  Transport, Host, Shell, exec_one, exec_effect, exec_list, execute_with, execute, open_shell,
}

module _ {T H : Type 0} (tr : Transport T) (ho : Host H) where
  abbrev sends_open : Shell T H → CommOpen → Result (Unit {0}) × T
  sends_open s m = tr.send comm_open m.payload m.buffers (some m.metadata) s.transport

  open_shell-eq :
      (s : Shell T H) (m : CommOpen) (e : Error)
      → is_open s.phase ≡ false
      → build_comm_open (full_state (ho.get_state s.host)) anywidget_module_version ≡ ok m
      → (sends_open s m).0 ≡ err e
      → open_shell tr ho s
        ≡ (err e, record s { phase = open_phase; transport = (sends_open s m).1 })
  unfolding open_shell execute execute_with exec_list exec_one exec_effect reduce reduce_open
  open_shell-eq s m e shut built fails = rw (shut, built) (rw fails)

  -- If the transport raises while it sends the `comm_open` of a shell that is not open, `open` lets
  -- that error through and leaves the shell in the open phase, although no comm was opened; an `open`
  -- that comes next returns at once and sends nothing.
  pub open_shell-send_err :
      (s : Shell T H) (m : CommOpen) (e : Error)
      → is_open s.phase ≡ false
      → build_comm_open (full_state (ho.get_state s.host)) anywidget_module_version ≡ ok m
      → (tr.send comm_open m.payload m.buffers (some m.metadata) s.transport).0 ≡ err e
      → ((open_shell tr ho s).0 ≡ err e)
        × ((open_shell tr ho s).1.phase ≡ open_phase)
        × (open_shell tr ho (open_shell tr ho s).1 ≡ (ok tt, (open_shell tr ho s).1))
  open_shell-send_err s m e shut built fails =
      rw (open_shell-eq s m e shut built fails) (refl, refl, unfold open_shell in refl)
