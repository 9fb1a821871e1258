-- ===== src/Ports/Storage.antt =====
-- The chain registry of parseon-core/src/ports/storage.rs: its records, its operations, and what the services rely on.
use parseon.Common.{
  ℕ, ◌≡◌, String, Bool, Option, none, some, eqb, unwrap_or, if◌then◌else◌, Result, ok, err,
}
use parseon.Common.Stateful.{Stateful}
use parseon.Model.{Chain, Target, MonitorId, BlockNumber}
use parseon.Filter.Ast.{FilterDefinition}
use parseon.Errors.{Error}

-- `NewChain`
pub record NewChain : Type 0 where
  pub chain : Chain
  pub rpc_url : String
  pub enabled : Bool

-- `ChainUpdate`
pub record ChainUpdate : Type 0 where
  pub rpc_url : Option String
  pub enabled : Option Bool

-- `ChainRecord`, less its times.
pub record ChainRecord : Type 0 where
  pub chain : Chain
  pub rpc_url : String
  pub enabled : Bool

-- `ChainRepository` less its two lists, over the state of the storage.
pub record ChainRepository (S : Type 0) : Type 0 where
  pub create_chain : NewChain → Stateful S Error ChainRecord
  pub get_chain : Chain → Stateful S Error ChainRecord
  pub update_chain : Chain → ChainUpdate → Stateful S Error ChainRecord
  pub delete_chain : Chain → Stateful S Error (Unit {0})

-- `NewMonitor`
pub record NewMonitor : Type 0 where
  pub chain : Chain
  pub target : Target
  pub start_block : BlockNumber
  pub end_block : Option BlockNumber
  pub filter : Option FilterDefinition

-- `MonitorRecord`, less its times.
pub record MonitorRecord : Type 0 where
  pub id : MonitorId
  pub chain : Chain
  pub target : Target
  pub start_block : BlockNumber
  pub end_block : Option BlockNumber
  pub cursor : Option BlockNumber
  pub completed : Bool
  pub enabled : Bool
  pub filter : Option FilterDefinition

-- `MonitorRepository` less its count and its list, over the state of the storage.
pub record MonitorRepository (S : Type 0) : Type 0 where
  pub create_monitor : NewMonitor → Stateful S Error MonitorRecord
  pub get_monitor : MonitorId → Stateful S Error MonitorRecord
  pub set_monitor_enabled : MonitorId → Bool → Stateful S Error MonitorRecord
  pub delete_monitor : MonitorId → Stateful S Error (Unit {0})

-- The record of a new chain, and a record after an update.
abbrev pub new_record : NewChain → ChainRecord
new_record input = record { chain = input.chain; rpc_url = input.rpc_url; enabled = input.enabled }

abbrev pub updated_record : ChainUpdate → ChainRecord → ChainRecord
updated_record update r = record r {
  rpc_url = unwrap_or update.rpc_url r.rpc_url;
  enabled = unwrap_or update.enabled r.enabled;
}

-- What the registry holds, as a function of the id of a chain.
abbrev pub Registry : Type 0
Registry = ℕ → Option ChainRecord

abbrev pub IsSame : Registry → Registry → Type 0
IsSame before after = (j : ℕ) → after j ≡ before j

abbrev pub SetsAt : ℕ → Option ChainRecord → Registry → Registry → Type 0
SetsAt id value before after = (j : ℕ) → after j ≡ (if eqb id j then value else before j)

module _ {S : Type 0} (find : S → Registry) where
  abbrev pub Creates : NewChain → S → Result Error ChainRecord × S → Type 0
  Creates input s (ok r, t) =
      (find s input.chain.id ≡ none)
      × (r ≡ new_record input)
      × SetsAt input.chain.id (some r) (find s) (find t)
  Creates input s (err e, t) = IsSame (find s) (find t)

  abbrev pub Gets : Chain → S → Result Error ChainRecord × S → Type 0
  Gets chain s (ok r, t) = (find s chain.id ≡ some r) × IsSame (find s) (find t)
  Gets chain s (err e, t) = IsSame (find s) (find t)

  abbrev pub Updates : Chain → ChainUpdate → S → Result Error ChainRecord × S → Type 0
  Updates chain update s (ok r, t) =
      (old : ChainRecord) × (find s chain.id ≡ some old)
      × (r ≡ updated_record update old)
      × (r.chain ≡ chain)
      × SetsAt chain.id (some r) (find s) (find t)
  Updates chain update s (err e, t) = IsSame (find s) (find t)

  abbrev pub Deletes : Chain → S → Result Error (Unit {0}) × S → Type 0
  Deletes chain s (ok u, t) = SetsAt chain.id none (find s) (find t)
  Deletes chain s (err e, t) = IsSame (find s) (find t)

  -- Each operation does what its name says, and one that fails changes nothing.
  pub record IsLawful (repository : ChainRepository S) : Type 0 where
    pub creates : (input : NewChain) (s : S) → Creates input s (repository.create_chain input s)
    pub gets : (chain : Chain) (s : S) → Gets chain s (repository.get_chain chain s)
    pub updates :
        (chain : Chain) (update : ChainUpdate) (s : S)
        → Updates chain update s (repository.update_chain chain update s)
    pub deletes : (chain : Chain) (s : S) → Deletes chain s (repository.delete_chain chain s)
