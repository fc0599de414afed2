-- ===== src/Probe/Loops.antt =====
-- The loops of the probe end if the messages do.
use text.Mathlib.Text.{◌==◌}
use cositos.Base.{ℕ, zero, suc, ◌<◌, ◌≡◌, ◌≢◌, refl, String, List, Bool-cases, inl, inr, arith}
use cositos.Probe.{
  Raised, probe_error, other, empty, endless, Reply, returned, raised, KernelMessage, Client, after,
  await_reply, is_reply_to, drained, drain_iopub,
}

abbrev pub NotEndless : {A : Type 0} → Reply A → Type 0
NotEndless r = r ≢ raised endless

-- `left` counts the messages that are still to come: receiving one takes it off.
pub record IsFinite {W : Type 0} (cl : Client W) (left : W → ℕ) : Type 0 where
  pub shell_less :
      (w w' : W) (m : KernelMessage) → cl.get_shell_msg w ≡ (returned m, w') → left w' < left w
  pub iopub_less :
      (w w' : W) (m : KernelMessage) → cl.get_iopub_msg w ≡ (returned m, w') → left w' < left w
  pub shell_ends : (w : W) → NotEndless (cl.get_shell_msg w).0
  pub iopub_ends : (w : W) → NotEndless (cl.get_iopub_msg w).0

raised_other :
    {A B : Type 0} (x : Raised) → NotEndless {A = A} (raised x) → NotEndless {A = B} (raised x)
raised_other empty e q = cc q
raised_other (probe_error s) e q = cc q
raised_other (other s) e q = cc q
raised_other endless e q = e refl

module _ {W : Type 0} (cl : Client W) (left : W → ℕ) (finite : IsFinite cl left) where
  ends_after :
      {A B : Type 0} (o : Reply A × W) (f : A → W → Reply B × W)
      → NotEndless o.0
      → ((a : A) (w : W) → o ≡ (returned a, w) → NotEndless (f a w).0)
      → NotEndless (after o f).0
  ends_after (returned a, w) f e h = h a w refl
  ends_after (raised x, w) f e h = raised_other x e

  await_reply-ends :
      (n : ℕ) (msg_id : String) (w : W) → left w < n → NotEndless (await_reply cl n msg_id w).0
  unfolding await_reply
  await_reply-ends zero msg_id w h = ground (arith, h)
  await_reply-ends (suc n) msg_id w h =
      ends_after (cl.get_shell_msg w) _ (finite.shell_ends w) (λ m w' e.
        let less = finite.shell_less w w' m e in
        let rest = await_reply-ends n msg_id w' (omega (arith, less, h)) in
        (elim (Bool-cases (is_reply_to msg_id m.parent)) [
          | inl ours ↦ elim (Bool-cases (m.status == "ok")) [
            | inl fine ↦ rw (ours, fine) (λ q. cc q)
            | inr bad ↦ rw (ours, bad) (λ q. cc q)
          ]
          | inr theirs ↦ rw theirs rest
        ]))

  drained-ends :
      (n : ℕ) (rest : W → Reply (List KernelMessage) × W) (o : Reply KernelMessage × W)
      → NotEndless o.0
      → ((m : KernelMessage) (w : W) → o ≡ (returned m, w) → NotEndless (rest w).0)
      → NotEndless (drained cl rest o).0
  drained-ends n rest (returned m, w) e h = ends_after (rest w) _ (h m w refl) (λ ms w' e' q. cc q)
  drained-ends n rest (raised empty, w) e h = λ q. cc q
  drained-ends n rest (raised endless, w) e h = elim (e refl) [ ]
  drained-ends n rest (raised (probe_error s), w) e h = λ q. cc q
  drained-ends n rest (raised (other s), w) e h = λ q. cc q

  drain_iopub-ends : (n : ℕ) (w : W) → left w < n → NotEndless (drain_iopub cl n w).0
  unfolding drain_iopub
  drain_iopub-ends zero w h = ground (arith, h)
  drain_iopub-ends (suc n) w h =
      drained-ends n (drain_iopub cl n) (cl.get_iopub_msg w) (finite.iopub_ends w) (λ m w' e.
        let less = finite.iopub_less w w' m e in drain_iopub-ends n w' (omega (arith, less, h)))

  -- If each message that is received is one less to come, both loops end with as many turns as there
  -- are messages to come, and one more.
  pub loops-end :
      (n : ℕ) (msg_id : String) (w : W)
      → left w < n
      → NotEndless (await_reply cl n msg_id w).0 × NotEndless (drain_iopub cl n w).0
  loops-end n msg_id w h = (await_reply-ends n msg_id w h, drain_iopub-ends n w h)
