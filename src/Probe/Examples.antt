-- ===== src/Probe/Examples.antt =====
-- The probe on a kernel that answers, and on one that does not run its program.
use cositos.Base.{ℕ, zero, suc, ◌≡◌, refl, ap, String, Option, none, some, List, [], ◌∷◌}
use cositos.Probe.{
  empty, Reply, returned, raised, KernelMessage, Client, probe, main, observe, execute_code,
  await_reply, drain_iopub,
}
use cositos.Probe.Shutdown.{Counts, Closes, probe-running}

-- The kernels that run, and what arrives on the two channels; `none` is a silence.
record Machine : Type 0 where
  kernels : ℕ
  shell : List KernelMessage
  iopub : List (Option KernelMessage)

abbrev next_of :
    List (Option KernelMessage)
    → (List (Option KernelMessage) → Machine)
    → Reply KernelMessage × Machine
next_of [] f = (raised empty, f [])
next_of (none ∷ ms) f = (raised empty, f ms)
next_of (some m ∷ ms) f = (returned m, f ms)

abbrev first_of :
    List KernelMessage → (List KernelMessage → Machine) → Reply KernelMessage × Machine
first_of [] f = (raised empty, f [])
first_of (m ∷ ms) f = (returned m, f ms)

abbrev less_one : ℕ → ℕ
less_one zero = 0
less_one (suc n) = n

abbrev client : Client Machine
client = record {
  start_new_kernel = λ name w. (returned tt, record w { kernels = suc w.kernels });
  request = λ code w. (returned "id", w);
  get_shell_msg = λ w. first_of w.shell (λ ms. record w { shell = ms });
  get_iopub_msg = λ w. next_of w.iopub (λ ms. record w { iopub = ms });
  send = λ c v w. (returned tt, w);
  stop_channels = λ w. (returned tt, w);
  shutdown_kernel = λ w. (returned tt, record w { kernels = less_one w.kernels });
}

first_of-kernels :
    (ms : List KernelMessage) (w : Machine)
    → (first_of ms (λ rest. record w { shell = rest })).1.kernels ≡ w.kernels
first_of-kernels [] w = refl
first_of-kernels (m ∷ ms) w = refl

next_of-kernels :
    (ms : List (Option KernelMessage)) (w : Machine)
    → (next_of ms (λ rest. record w { iopub = rest })).1.kernels ≡ w.kernels
next_of-kernels [] w = refl
next_of-kernels (none ∷ ms) w = refl
next_of-kernels (some m ∷ ms) w = refl

client-Counts : Counts client (λ w. w.kernels)
client-Counts = record {
  started = λ name w w' e. cc e;
  not_started = λ name x w w' e. cc e;
  running-request = λ code w. refl;
  running-get_shell_msg = λ w. first_of-kernels w.shell w;
  running-get_iopub_msg = λ w. next_of-kernels w.iopub w;
  running-send = λ c v w. refl;
  running-stop_channels = λ w. refl;
  running-shutdown_kernel = λ w w' n e down. cc (down, ap less_one e);
}

client-Closes : Closes client
client-Closes = record { stops = λ w. refl; shuts_down = λ w. refl }

abbrev message : String → String → KernelMessage
message msg_type status = record {
  parent = some "id";
  msg_type = msg_type;
  status = status;
  comm_id = "c";
}

abbrev answering : Machine
answering = record {
  kernels = 3;
  shell = message "execute_reply" "ok" ∷ [];
  iopub =
      some (message "comm_open" "")
      ∷ none
      ∷ some (message "status" "")
      ∷ some (message "comm_msg" "")
      ∷ none
      ∷ [];
}

abbrev failing : Machine
failing = record { kernels = 3; shell = message "execute_reply" "error" ∷ []; iopub = [] }

answer :
    (main client 9 "python3" none answering).0 ≡ returned ("python3: Tier 1 (BIDIRECTIONAL)", 0)
unfolding main probe observe execute_code await_reply drain_iopub
answer = refl

failure :
    (main client 9 "ir" none failing).0
    ≡ returned ("probe error: probe program failed on this kernel", 2)
unfolding main probe observe execute_code await_reply drain_iopub
failure = refl

probe-running_example : (probe client 9 "ir" none failing).1.kernels ≡ 3
probe-running_example =
    probe-running client (λ w. w.kernels) client-Counts client-Closes 9 "ir" none failing
