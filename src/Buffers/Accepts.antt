-- ===== src/Buffers/Accepts.antt =====
-- The states that `remove_buffers` takes.
use cositos.Base.{suc, ◌≤◌, ◌↔◌, ◌≡◌, refl, Option, none, some, []}
use cositos.Value.{Value}
use cositos.Errors.{Error, ok, err}
use cositos.Buffers.{max_depth, remove_buffers, Split}
use cositos.Buffers.Strip.{Tidy}
use cositos.Buffers.Removed.{fault_of, remove_buffers-eq-split_of, split_of}
use cositos.Buffers.Faults.{height, Acyclic, fault_of-none_iff}

-- A state that `remove_buffers` takes: its dicts have distinct keys, its containers nest at most
-- `max_depth` below the outermost, and none is inside itself.
pub record IsAccepted (v : Value) : Type 0 where
  pub tidy : Tidy v
  pub shallow : height v ≤ suc max_depth
  pub acyclic : Acyclic [] v

pub remove_buffers-IsAccepted : (v : Value) → IsAccepted v → remove_buffers v ≡ ok (split_of v)
remove_buffers-IsAccepted v h =
    rw (remove_buffers-eq-split_of v h.tidy, (fault_of-none_iff v).1 (h.shallow, h.acyclic))

raises : (v : Value) (e : Error) → Tidy v → fault_of v ≡ some e → remove_buffers v ≡ err e
raises v e t h = rw (remove_buffers-eq-split_of v t, h)

-- Of a state whose dicts have distinct keys, `remove_buffers` returns just if the containers nest at
-- most `max_depth` below the outermost and none is inside itself; on any other state it raises.
pub remove_buffers-ok_iff :
    (v : Value)
    → Tidy v
    → ((s : Split) × (remove_buffers v ≡ ok s)) ↔ ((height v ≤ suc max_depth) × Acyclic [] v)
remove_buffers-ok_iff v t = (
  λ s. (fault_of-none_iff v).0 (no_fault s.0 (fault_of v) refl s.1),
  λ h. (split_of v, rw (remove_buffers-eq-split_of v t, (fault_of-none_iff v).1 h)),
)
  where
    no_fault :
        (s : Split) (o : Option Error)
        → fault_of v ≡ o
        → remove_buffers v ≡ ok s
        → fault_of v ≡ none
    no_fault s none e h = e
    no_fault s (some x) e h = cc (raises v x t e)
