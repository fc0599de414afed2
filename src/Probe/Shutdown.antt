-- ===== src/Probe/Shutdown.antt =====
-- The probe leaves no kernel running, and its loops end.
use cositos.Base.{ℕ, zero, suc, ◌≡◌, refl, ◌∙◌, String, Option, none, some, List, [], ◌∷◌, arith}
use cositos.Value.{Value}
use cositos.Probe.{
  Tier, Raised, probe_error, other, empty, endless, Reply, returned, raised, KernelMessage, Client,
  after, await_reply, execute_code, drained, drain_iopub, observe, finally, probe, launch, on_echo,
  on_open, ping_payload, of_type,
}

-- How many kernels run: starting one that starts adds one, a shutdown that returns takes one off, and
-- nothing else changes it.
pub record Counts {W : Type 0} (cl : Client W) (running : W → ℕ) : Type 0 where
  pub started :
      (name : String) (w w' : W)
      → cl.start_new_kernel name w ≡ (returned tt, w')
      → running w' ≡ suc (running w)
  pub not_started :
      (name : String) (e : Raised) (w w' : W)
      → cl.start_new_kernel name w ≡ (raised e, w')
      → running w' ≡ running w
  pub running-request : (code : String) (w : W) → running (cl.request code w).1 ≡ running w
  pub running-get_shell_msg : (w : W) → running (cl.get_shell_msg w).1 ≡ running w
  pub running-get_iopub_msg : (w : W) → running (cl.get_iopub_msg w).1 ≡ running w
  pub running-send : (c : String) (v : Value) (w : W) → running (cl.send c v w).1 ≡ running w
  pub running-stop_channels : (w : W) → running (cl.stop_channels w).1 ≡ running w
  pub running-shutdown_kernel :
      (w w' : W) (n : ℕ)
      → running w ≡ suc n
      → cl.shutdown_kernel w ≡ (returned tt, w')
      → running w' ≡ n

-- Stopping the channels and shutting a kernel down return.
pub record Closes {W : Type 0} (cl : Client W) : Type 0 where
  pub stops : (w : W) → (cl.stop_channels w).0 ≡ returned tt
  pub shuts_down : (w : W) → (cl.shutdown_kernel w).0 ≡ returned tt

module _ {W : Type 0} (cl : Client W) (running : W → ℕ) (counts : Counts cl running)
    (closes : Closes cl) where
  -- A call after a call, when neither changes the number.
  kept :
      {A B : Type 0} (o : Reply A × W) (f : A → W → Reply B × W) (n : ℕ)
      → running o.1 ≡ n
      → ((a : A) (w : W) → running w ≡ n → running (f a w).1 ≡ n)
      → running (after o f).1 ≡ n
  kept (returned a, w) f n e h = h a w e
  kept (raised x, w) f n e h = e

  await_reply-kept :
      (m : ℕ) (msg_id : String) (w : W) (n : ℕ)
      → running w ≡ n
      → running (await_reply cl m msg_id w).1 ≡ n
  unfolding await_reply
  await_reply-kept zero msg_id w n e = e
  await_reply-kept (suc m) msg_id w n e =
      kept (cl.get_shell_msg w) _ n (counts.running-get_shell_msg w ∙ e)
        (λ a w' e'. let rest = await_reply-kept m msg_id w' n e' in ground (arith, rest, e'))

  execute_code-kept :
      (m : ℕ) (code : String) (w : W) (n : ℕ)
      → running w ≡ n
      → running (execute_code cl m code w).1 ≡ n
  unfolding execute_code
  execute_code-kept m code w n e =
      kept (cl.request code w) _ n (counts.running-request code w ∙ e)
        (λ id w' e'. await_reply-kept m id w' n e')

  drained-kept :
      (rest : W → Reply (List KernelMessage) × W) (o : Reply KernelMessage × W) (n : ℕ)
      → running o.1 ≡ n
      → ((w : W) → running w ≡ n → running (rest w).1 ≡ n)
      → running (drained cl rest o).1 ≡ n
  drained-kept rest (returned m, w) n e h = kept (rest w) _ n (h w e) (λ ms w' e'. e')
  drained-kept rest (raised empty, w) n e h = e
  drained-kept rest (raised endless, w) n e h = e
  drained-kept rest (raised (probe_error s), w) n e h = e
  drained-kept rest (raised (other s), w) n e h = e

  drain_iopub-kept : (m : ℕ) (w : W) (n : ℕ) → running w ≡ n → running (drain_iopub cl m w).1 ≡ n
  unfolding drain_iopub
  drain_iopub-kept zero w n e = e
  drain_iopub-kept (suc m) w n e =
      drained-kept (drain_iopub cl m) (cl.get_iopub_msg w) n (counts.running-get_iopub_msg w ∙ e)
        (λ w' e'. drain_iopub-kept m w' n e')

  on_echo-kept : (ms : List KernelMessage) (w : W) → running (on_echo cl ms w).1 ≡ running w
  on_echo-kept [] w = refl
  on_echo-kept (m ∷ ms) w = refl

  on_open-kept :
      (m : ℕ) (key : String) (ms : List KernelMessage) (w : W) (n : ℕ)
      → running w ≡ n
      → running (on_open cl m key ms w).1 ≡ n
  on_open-kept m key [] w n e = e
  on_open-kept m key (message ∷ ms) w n e =
      kept (cl.send message.comm_id (ping_payload key) w) _ n
        (counts.running-send message.comm_id (ping_payload key) w ∙ e)
        (λ u w' e'.
          kept (drain_iopub cl m w') _ n (drain_iopub-kept m w' n e')
            (λ ms' w'' e''. on_echo-kept (of_type ms' "comm_msg") w'' ∙ e''))

  observe-kept :
      (m : ℕ) (key source : String) (w : W) (n : ℕ)
      → running w ≡ n
      → running (observe cl m key source w).1 ≡ n
  unfolding observe
  observe-kept m key source w n e =
      kept (execute_code cl m source w) _ n (execute_code-kept m source w n e) (λ u w' e'.
        kept (drain_iopub cl m w') _ n (drain_iopub-kept m w' n e')
          (λ ms w'' e''. on_open-kept m key (of_type ms "comm_open") w'' n e''))

  shut_down :
      (r : Reply Tier) (o : Reply (Unit {0}) × W) (n : ℕ)
      → o.0 ≡ returned tt
      → ((w : W) → o ≡ (returned tt, w) → running w ≡ n)
      → running (after o (λ u w. (r, w))).1 ≡ n
  shut_down r (returned tt, w) n e h = h w refl
  shut_down r (raised x, w) n e h = cc e

  stopped :
      (r : Reply Tier) (o : Reply (Unit {0}) × W) (n : ℕ)
      → o.0 ≡ returned tt
      → running o.1 ≡ suc n
      → running (after o (λ u w. after (cl.shutdown_kernel w) (λ u' w'. (r, w')))).1 ≡ n
  stopped r (returned u, w) n e h =
      shut_down r (cl.shutdown_kernel w) n (closes.shuts_down w)
        (λ w' down. counts.running-shutdown_kernel w w' n h down)
  stopped r (raised x, w) n e h = cc e

  finished : (o : Reply Tier × W) (n : ℕ) → running o.1 ≡ suc n → running (finally cl o).1 ≡ n
  finished (r, w) n e =
      stopped r (cl.stop_channels w) n (closes.stops w) (counts.running-stop_channels w ∙ e)

  started_and_stopped :
      (name : String) (w : W) (o : Reply (Unit {0}) × W) (f : W → Reply Tier × W)
      → cl.start_new_kernel name w ≡ o
      → ((v : W) (n : ℕ) → running v ≡ n → running (f v).1 ≡ n)
      → running (after o (λ u w'. finally cl (f w'))).1 ≡ running w
  started_and_stopped name w (returned tt, w') f e h =
      finished (f w') (running w) (h w' _ (counts.started name w w' e))
  started_and_stopped name w (raised x, w') f e h = counts.not_started name x w w' e

  launch-running :
      (m : ℕ) (kernel_name key : String) (source : Option String) (w : W)
      → running (launch cl m kernel_name key source w).1 ≡ running w
  launch-running m kernel_name key none w = refl
  launch-running m kernel_name key (some source) w =
      started_and_stopped kernel_name w (cl.start_new_kernel kernel_name w)
        (observe cl m key source) refl (observe-kept m key source)

  -- If stopping the channels and shutting a kernel down return, a probe, however it ends, leaves as
  -- many kernels running as there were.
  pub probe-running :
      (m : ℕ) (kernel_name : String) (program : Option String) (w : W)
      → running (probe cl m kernel_name program w).1 ≡ running w
  unfolding probe
  probe-running m kernel_name program w = launch-running m kernel_name _ _ w
