-- ===== src/Services/Monitors.antt =====
-- `MonitorService` of parseon-core/src/services.rs, over the repositories of the storage.
pub mod Valid
pub mod Loads
use parseon.Common.{String, Bool, Option}
use parseon.Common.Stateful.{Stateful, lift, ◌>>=◌}
use parseon.Model.{MonitorId}
use parseon.Filter.Ast.{Codecs}
use parseon.Errors.{Error}
use parseon.Abi.Signature.{AbiItem}
use parseon.Ports.Storage.{ChainRepository, MonitorRecord, MonitorRepository}
use parseon.Services.Requests.{CreateMonitor, Heads, new_monitor}

module _ {S : Type 0} (monitors : MonitorRepository S) where
  module _ (codecs : Codecs) (parse_item : String → Option AbiItem)
      (chains : ChainRepository S) where
    -- `create`
    unfoldable pub create : Heads → CreateMonitor → Stateful S Error MonitorRecord
    unfolding new_monitor
    create heads command = do
      registered ← chains.get_chain (record { id = command.chain_id })
      input ← lift (new_monitor codecs parse_item heads registered command)
      monitors.create_monitor input

  -- `get`
  unfoldable pub get : MonitorId → Stateful S Error MonitorRecord
  get id = monitors.get_monitor id

  -- `set_enabled`
  unfoldable pub set_enabled : MonitorId → Bool → Stateful S Error MonitorRecord
  set_enabled id enabled = monitors.set_monitor_enabled id enabled

  -- `delete`
  unfoldable pub delete : MonitorId → Stateful S Error (Unit {0})
  delete id = monitors.delete_monitor id
