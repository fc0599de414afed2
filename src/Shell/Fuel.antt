-- ===== src/Shell/Fuel.antt =====
-- The shell's two functions that call each other never go deeper than one nested call.
use cositos.Base.{ℕ, suc, ◌≡◌, refl}
use cositos.Lifecycle.{
  comm_open, comm_msg, comm_close, Effect, send, listen, apply_state, invoke_custom, error, reduce,
}
use cositos.Shell.{Transport, Host, Shell, exec_one, exec_effect, execute_with, exec_list}

-- Any further fuel changes nothing: an effect is executed the same, whatever the transport, the host,
-- the effect and the shell are.
pub exec_one-fuel :
    {T H : Type 0} (tr : Transport T) (ho : Host H) (n : ℕ) (e : Effect) (s : Shell T H)
    → exec_one tr ho (suc n) e s ≡ exec_one tr ho 1 e s
unfolding exec_one exec_effect execute_with exec_list reduce
exec_one-fuel tr ho n (send comm_open x bs y) s = refl
exec_one-fuel tr ho n (send comm_msg x bs y) s = refl
exec_one-fuel tr ho n (send comm_close x bs y) s = refl
exec_one-fuel tr ho n listen s = refl
exec_one-fuel tr ho n (apply_state v) s = refl
exec_one-fuel tr ho n (invoke_custom v bs) s = refl
exec_one-fuel tr ho n (error m) s = refl
