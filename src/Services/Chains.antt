-- ===== src/Services/Chains.antt =====
-- `ChainService` of parseon-core/src/services.rs: each change of the registry is persisted and applied to the live
-- workers. The mutation guard makes what follows it one step.
pub mod Agreement
pub mod Steps
pub mod Reached
use parseon.Common.{
  ℕ, String, Bool, true, false, not, ◌&&◌, Option, none, some, is_some_and, eqb, if◌then◌else◌,
  Result, ok, err, ensure, ok_or, and_then,
}
use parseon.Common.Stateful.{Stateful, pure, lift, ◌>>=◌, ◌>>◌}
use parseon.Model.{Chain, BlockNumber}
use parseon.Errors.{Error}
use parseon.Ports.Storage.{NewChain, ChainUpdate, ChainRecord, ChainRepository}
use parseon.Supervisor.{RegisteredChain, ControlPlane, Endpoints, apply, retire}

-- `CreateChain` and `UpdateChain` of commands.rs
pub record CreateChain : Type 0 where
  pub rpc_url : String
  pub enabled : Bool

pub record UpdateChain : Type 0 where
  pub rpc_url : Option String
  pub enabled : Option Bool

-- The storage and the supervisor.
pub record Platform (S : Type 0) : Type 0 where
  pub store : S
  pub control : ControlPlane

abbrev pub Service : Type 0 → Type 0 → Type 0
Service S A = Stateful (Platform S) Error A

-- `registered`
abbrev pub registered : ChainRecord → RegisteredChain
registered record' = record {
  chain = record'.chain;
  rpc_url = record'.rpc_url;
  enabled = record'.enabled;
}

abbrev pub is_none {ℓ} : {A : Type ℓ} → Option A → Bool
is_none none = true
is_none (some a) = false

module _ {S : Type 0} where
  -- An operation of the storage.
  abbrev pub stored_in :
      {A : Type 0} → S → ControlPlane → Result Error A × S → Result Error A × Platform S
  stored_in s control (r, t) = (r, record { store = t; control = control })

  abbrev pub on_store : {A : Type 0} → Stateful S Error A → Service S A
  on_store m p = stored_in p.store p.control (m p.store)

  abbrev pub on_control : (ControlPlane → ControlPlane) → Service S (Unit {0})
  on_control f p = (ok tt, record { store = p.store; control = f p.control })

module _ (endpoints : Endpoints) where
  -- The check of a probe, whose answer may be none.
  abbrev checked_chain : Option Chain → Option (ℕ × BlockNumber) → Result Error Chain
  checked_chain expected none = err (Error.invalid_command "RPC endpoint validation failed")
  checked_chain expected (some (chain_id, head)) =
      if is_some_and expected (λ e. not (eqb e.id chain_id))
      then err (Error.invalid_command "RPC endpoint returned a different chain ID")
      else ok (record { id = chain_id })

  -- `validate_source`
  unfoldable pub validate_source : String → Option Chain → Result Error Chain
  validate_source rpc_url expected =
      if endpoints.connects rpc_url
      then checked_chain expected (endpoints.probe rpc_url)
      else err (Error.invalid_command "RPC endpoint configuration is invalid")

  abbrev pub validate_update : Chain → Option String → Result Error (Unit {0})
  validate_update chain none = ok tt
  validate_update chain (some rpc_url) =
      and_then (validate_source rpc_url (some chain)) (λ found. ok tt)

  module _ {S : Type 0} (repository : ChainRepository S) where
    -- `create` after the validation of its source.
    unfoldable pub create_locked : NewChain → Service S ChainRecord
    unfolding apply
    create_locked input = do
      record' ← on_store (repository.create_chain input)
      on_control (apply endpoints (registered record'))
      pure record'

    -- `create`
    unfoldable pub create : CreateChain → Service S ChainRecord
    unfolding validate_source create_locked
    create command = do
      chain ← lift (validate_source command.rpc_url none)
      create_locked (record { chain = chain; rpc_url = command.rpc_url; enabled = command.enabled })

    -- `get`
    unfoldable pub get : ℕ → Service S ChainRecord
    get chain_id = on_store (repository.get_chain (record { id = chain_id }))

    -- `update` from the guard on.
    unfoldable pub update_locked : Chain → ChainUpdate → Service S ChainRecord
    unfolding apply
    update_locked chain update = do
      known ← on_store (repository.get_chain chain)
      record' ← on_store (repository.update_chain chain update)
      on_control (apply endpoints (registered record'))
      pure record'

    -- `update` after its first look at the registry.
    unfoldable pub update_valid : Chain → UpdateChain → Service S ChainRecord
    unfolding validate_source update_locked
    update_valid chain command = do
      lift (validate_update chain command.rpc_url)
      update_locked chain (record { rpc_url = command.rpc_url; enabled = command.enabled })

    -- `update`
    unfoldable pub update : ℕ → UpdateChain → Service S ChainRecord
    unfolding update_valid
    update chain_id command = do
      lift (
          ensure (not (is_none command.rpc_url && is_none command.enabled))
            (Error.invalid_command "at least one of rpc_url or enabled is required"))
      let chain : Chain = record { id = chain_id }
      known ← on_store (repository.get_chain chain)
      update_valid chain command

    -- `delete`: the worker is stopped before the storage forgets the chain.
    unfoldable pub delete : ℕ → Service S (Unit {0})
    unfolding retire
    delete chain_id = do
      on_control (retire endpoints chain_id)
      on_store (repository.delete_chain (record { id = chain_id }))
