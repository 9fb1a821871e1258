-- ===== src/Supervisor.antt =====
-- parseon-core/src/supervisor.rs: the live workers and their statuses, as registry changes are applied. The control
-- mutex makes each operation one step.
pub mod Applied
pub mod Closed
pub mod Workers
use parseon.Common.{
  ℕ, zero, suc, Bool, true, false, String, Option, none, some, List, [], ◌∷◌, ◌++◌, map, eqb, not,
  ◌&&◌, ◌||◌, if◌then◌else◌, Result, ok, err, ◌>>=◌, ◌>>◌, ensure, ok_or,
}
use parseon.Common.Eq.{◌==◌, string_eq}
use parseon.Common.Maps.{Map, lookup, insert, remove}
use parseon.Model.{Chain, BlockNumber}

-- `RegisteredChain`
pub record RegisteredChain : Type 0 where
  pub chain : Chain
  pub rpc_url : String
  pub enabled : Bool

pub data WorkerState : Type 0 where
  starting running degraded disabled : WorkerState

-- `ChainStatusSnapshot`, less the time of the last poll.
pub record ChainStatus : Type 0 where
  pub chain_id : ℕ
  pub enabled : Bool
  pub finalized_head : Option BlockNumber
  pub worker_state : WorkerState
  pub last_error : Option String

abbrev pub starting_status : ℕ → Option BlockNumber → ChainStatus
starting_status chain_id finalized_head = record {
  chain_id = chain_id;
  enabled = true;
  finalized_head = finalized_head;
  worker_state = WorkerState.starting;
  last_error = none;
}

abbrev pub disabled_status : ℕ → ChainStatus
disabled_status chain_id = record {
  chain_id = chain_id;
  enabled = false;
  finalized_head = none;
  worker_state = WorkerState.disabled;
  last_error = none;
}

abbrev pub degraded_status : ℕ → String → ChainStatus
degraded_status chain_id message = record {
  chain_id = chain_id;
  enabled = true;
  finalized_head = none;
  worker_state = WorkerState.degraded;
  last_error = some message;
}

-- `WorkerRuntime`: a worker that runs, with the URL of its source.
pub record WorkerRuntime : Type 0 where
  pub rpc_url : String

-- `ControlPlane`, with the statuses and the chains whose workers were cancelled.
pub record ControlPlane : Type 0 where
  pub closed : Bool
  pub workers : Map WorkerRuntime
  pub statuses : Map ChainStatus
  pub stopped : List ℕ

-- When the token of the startup is cancelled: never, before a registration is applied, with nothing of it done, or
-- while it is applied, with its worker removed if there is one to stop.
pub data Cancellation : Type 0 where
  never : Cancellation
  before : ℕ → Cancellation
  during : ℕ → Cancellation

-- The endpoints: whether a URL connects, what its probe says (the chain id and the finalized head), and
-- whether the source of a URL takes another in place.
pub record Endpoints : Type 0 where
  pub connects : String → Bool
  pub probe : String → Option (ℕ × BlockNumber)
  pub rotates : String → String → Bool

module _ (endpoints : Endpoints) where
  -- `prepare_source`, the finalized head.
  unfoldable pub prepare_source : RegisteredChain → Result String BlockNumber
  prepare_source registered = do
    ensure (endpoints.connects registered.rpc_url) "RPC endpoint configuration is invalid"
    (chain_id, finalized_head) ←
        ok_or (endpoints.probe registered.rpc_url) "RPC endpoint validation failed"
    ensure (eqb chain_id registered.chain.id) "RPC endpoint returned a different chain ID"
    ok finalized_head

  -- What `start_worker` does once the source is prepared or not.
  unfoldable pub started : RegisteredChain → Result String BlockNumber → ControlPlane → ControlPlane
  unfolding insert
  started registered (err message) control = record control {
    statuses =
        insert registered.chain.id (degraded_status registered.chain.id message) control.statuses;
  }
  started registered (ok finalized_head) control = record control {
    statuses =
        insert registered.chain.id (starting_status registered.chain.id (some finalized_head))
          control.statuses;
    workers = insert registered.chain.id (record { rpc_url = registered.rpc_url }) control.workers;
  }

  -- `start_worker`
  unfoldable pub start_worker : RegisteredChain → ControlPlane → ControlPlane
  unfolding prepare_source started
  start_worker registered control = started registered (prepare_source registered) control

  -- `workers.remove` and `stop_worker`.
  unfoldable pub stop : ℕ → ControlPlane → ControlPlane
  unfolding remove
  stop chain_id control = record control {
    workers = remove chain_id control.workers;
    stopped = chain_id ∷ control.stopped;
  }

  abbrev pub set_status : ℕ → ChainStatus → ControlPlane → ControlPlane
  set_status chain_id status control = record control {
    statuses = insert chain_id status control.statuses;
  }

  -- An enabled chain whose worker runs.
  unfoldable pub rotate : RegisteredChain → WorkerRuntime → ControlPlane → ControlPlane
  unfolding start_worker stop
  rotate registered runtime control =
      let chain_id = registered.chain.id in
      if runtime.rpc_url == registered.rpc_url
      then control
      else if endpoints.rotates runtime.rpc_url registered.rpc_url
      then record control {
        workers = insert chain_id (record { rpc_url = registered.rpc_url }) control.workers;
      }
      else start_worker registered (stop chain_id control)

  -- The match on the registration and on the worker.
  unfoldable pub reconcile :
      RegisteredChain → Bool → Option WorkerRuntime → ControlPlane → ControlPlane
  unfolding rotate start_worker stop
  reconcile registered true (some runtime) control = rotate registered runtime control
  reconcile registered true none control = start_worker registered control
  reconcile registered false (some runtime) control =
      set_status registered.chain.id (disabled_status registered.chain.id)
        (stop registered.chain.id control)
  reconcile registered false none control =
      set_status registered.chain.id (disabled_status registered.chain.id) control

  -- `apply`
  unfoldable pub apply : RegisteredChain → ControlPlane → ControlPlane
  unfolding reconcile lookup
  apply registered control =
      let applied =
        reconcile registered registered.enabled (lookup registered.chain.id control.workers)
          control in
      if control.closed then control else applied

  -- Whether `apply` awaits the end of the worker that a chain has, as one that is disabled or restarted.
  unfoldable pub awaits_stop : RegisteredChain → Option WorkerRuntime → Bool
  awaits_stop registered none = false
  awaits_stop registered (some runtime) =
      not registered.enabled
      || not (
          runtime.rpc_url == registered.rpc_url
          || endpoints.rotates runtime.rpc_url registered.rpc_url)

  -- An `apply` that is dropped after it removed and cancelled the worker, before it started another or set the
  -- status. Where it removes no worker it has changed nothing while it waits.
  unfoldable pub interrupted : RegisteredChain → ControlPlane → ControlPlane
  unfolding awaits_stop stop lookup
  interrupted registered control =
      if not control.closed && awaits_stop registered (lookup registered.chain.id control.workers)
      then stop registered.chain.id control
      else control

  -- `Supervisor::reconcile`: the registrations of the startup, until the token is cancelled.
  unfoldable pub reconcile_startup :
      Cancellation → List RegisteredChain → ControlPlane → ControlPlane
  unfolding apply interrupted
  reconcile_startup cancellation [] control = control
  reconcile_startup never (r ∷ rs) control = reconcile_startup never rs (apply r control)
  reconcile_startup (before zero) (r ∷ rs) control = control
  reconcile_startup (before (suc n)) (r ∷ rs) control =
      reconcile_startup (before n) rs (apply r control)
  reconcile_startup (during zero) (r ∷ rs) control = interrupted r control
  reconcile_startup (during (suc n)) (r ∷ rs) control =
      reconcile_startup (during n) rs (apply r control)

  -- The worker of a chain, if it has one, is stopped.
  unfoldable pub stop_if : Option WorkerRuntime → ℕ → ControlPlane → ControlPlane
  unfolding stop
  stop_if none chain_id control = control
  stop_if (some runtime) chain_id control = stop chain_id control

  -- `retire`
  unfoldable pub retire : ℕ → ControlPlane → ControlPlane
  unfolding stop_if lookup remove
  retire chain_id control =
      let stopped = stop_if (lookup chain_id control.workers) chain_id control in
      record stopped { statuses = remove chain_id stopped.statuses }

  abbrev pub chains : Map WorkerRuntime → List ℕ
  chains workers = map (λ (chain_id, runtime). chain_id) workers

  -- `shutdown`
  unfoldable pub shutdown : ControlPlane → ControlPlane
  shutdown control = record control {
    closed = true;
    workers = [];
    stopped = chains control.workers ++ control.stopped;
  }
