-- ===== src/Supervisor/Closed.antt =====
-- What holds after `shutdown` of parseon-core/src/supervisor.rs, however it interleaves with the other operations.
use parseon.Common.{ℕ, ◌≡◌, refl, true, [], arith}
use parseon.Common.Maps.{lookup, remove}
use parseon.Supervisor.{
  RegisteredChain, ControlPlane, Endpoints, apply, stop, stop_if, retire, shutdown,
}

-- A step of the control plane: an operation that took the control mutex.
pub data Step (endpoints : Endpoints) : ControlPlane → ControlPlane → Type 0 where
  applied : (r : RegisteredChain) (c : ControlPlane) → Step endpoints c (apply endpoints r c)
  retired : (chain_id : ℕ) (c : ControlPlane) → Step endpoints c (retire endpoints chain_id c)
  shut : (c : ControlPlane) → Step endpoints c (shutdown endpoints c)

pub data Reach (endpoints : Endpoints) (c : ControlPlane) : ControlPlane → Type 0 where
  here : Reach endpoints c c
  next : {d e : ControlPlane} → Reach endpoints c d → Step endpoints d e → Reach endpoints c e

-- Closed, with no worker.
abbrev pub IsClosed : ControlPlane → Type 0
IsClosed c = (c.closed ≡ true) × (c.workers ≡ [])

pub Step-IsClosed :
    (endpoints : Endpoints) {c d : ControlPlane} → Step endpoints c d → IsClosed c → IsClosed d
unfolding apply retire shutdown stop_if stop lookup remove
Step-IsClosed endpoints (applied r c) h = ground (arith, h)
Step-IsClosed endpoints (retired chain_id c) h = ground (arith, h)
Step-IsClosed endpoints (shut c) h = (refl, refl)

Reach-IsClosed :
    (endpoints : Endpoints) {c d : ControlPlane} → IsClosed c → Reach endpoints c d → IsClosed d
Reach-IsClosed endpoints h here = h
Reach-IsClosed endpoints h (next steps step) =
    Step-IsClosed endpoints step (Reach-IsClosed endpoints h steps)

-- After a shutdown no operation, in any order and number, starts a worker again.
pub shutdown-IsClosed :
    (endpoints : Endpoints) (c d : ControlPlane)
    → Reach endpoints (shutdown endpoints c) d
    → IsClosed d
unfolding shutdown
shutdown-IsClosed endpoints c d steps = Reach-IsClosed endpoints (refl, refl) steps
