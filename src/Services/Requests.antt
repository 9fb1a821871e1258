-- ===== src/Services/Requests.antt =====
-- What `MonitorService::create` of parseon-core/src/services.rs makes of a command, and `preview_filter`.
use parseon.Common.{
  ℕ, String, not, Option, none, some, is_some_and, ltb, Result, ok, ◌>>=◌, ◌>>◌, ensure, and_then,
}
use parseon.Model.{Address, BlockNumber, Target}
use parseon.Filter.Ast.{
  FilterExpression, FilterDefinition, FilterError, FilterSample, FilterPreview, Codecs,
}
use parseon.Filter.Definition.{prepare, preview}
use parseon.Errors.{Error}
use parseon.Abi.Signature.{AbiItem, TargetSpec, parse_target_signature}
use parseon.Index.{map_err}
use parseon.Ports.Storage.{ChainRecord, NewMonitor}

-- `CreateMonitor` and `PreviewFilter` of commands.rs
pub record CreateMonitor : Type 0 where
  pub chain_id : ℕ
  pub address : Address
  pub signature : String
  pub start_block : Option BlockNumber
  pub end_block : Option BlockNumber
  pub filter : Option FilterExpression

pub record PreviewFilter : Type 0 where
  pub signature : String
  pub filter : FilterExpression
  pub sample : FilterSample

-- The endpoints: the finalized head of the one of a URL, or why there is none.
abbrev pub Heads : Type 0
Heads = String → Result Error BlockNumber

-- `validate_range`
unfoldable pub validate_range : BlockNumber → Option BlockNumber → Result Error (Unit {0})
validate_range start_block end_block =
    ensure (not (is_some_and end_block (λ end. ltb end start_block)))
      (Error.invalid_command "end_block must be greater than or equal to start_block")

-- The match on the start block.
abbrev pub start_of : Heads → String → Option BlockNumber → Result Error BlockNumber
start_of heads rpc_url (some block) = ok block
start_of heads rpc_url none = heads rpc_url

-- The match on the specification.
abbrev pub target_at : Address → TargetSpec → Target
target_at address (TargetSpec.call spec) =
    Target.call (record { address = address; selector = spec.selector; inputs = spec.params })
target_at address (TargetSpec.event spec) =
    Target.event (record { address = address; topic0 = spec.topic0; params = spec.params })

abbrev pub invalid {ℓ} : {F : Type ℓ} → F → Error
invalid e = Error.invalid_command "the command is invalid"

module _ (codecs : Codecs) (parse_item : String → Option AbiItem) where
  -- The definition of a filter that is asked for.
  abbrev pub definition_for :
      Option FilterExpression → Target → Result FilterError (Option FilterDefinition)
  definition_for none target = ok none
  definition_for (some expression) target =
      and_then (prepare codecs expression target) (λ (definition, filter). ok (some definition))

  -- `create` between its first look at the registry and the storage.
  unfoldable pub new_monitor : Heads → ChainRecord → CreateMonitor → Result Error NewMonitor
  unfolding validate_range parse_target_signature prepare
  new_monitor heads registered command = do
    start_block ← start_of heads registered.rpc_url command.start_block
    validate_range start_block command.end_block
    spec ← map_err invalid (parse_target_signature parse_item command.signature)
    filter ← map_err invalid (definition_for command.filter (target_at command.address spec))
    ok (record {
      chain = record { id = command.chain_id };
      target = target_at command.address spec;
      start_block = start_block;
      end_block = command.end_block;
      filter = filter;
    })

  -- `preview_filter`
  abbrev pub sample_address : FilterSample → Address
  sample_address (FilterSample.call block_number tx_hash from to params) = to
  sample_address (FilterSample.event block_number tx_hash emitter log_index params) = emitter

  unfoldable pub preview_filter : PreviewFilter → Result Error FilterPreview
  unfolding parse_target_signature preview
  preview_filter command = do
    spec ← map_err invalid (parse_target_signature parse_item command.signature)
    map_err invalid (
        preview codecs (target_at (sample_address command.sample) spec) command.filter
          command.sample)
