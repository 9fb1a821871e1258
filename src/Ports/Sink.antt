-- ===== src/Ports/Sink.antt =====
-- parseon-core/src/ports/sink.rs and `canonical_params` of parseon-core/src/ports/storage.rs: the batch that
-- is submitted after a commit, with its parameters encoded.
use parseon.Common.{
  ℕ, String, Bool, Option, none, some, List, [], ◌∷◌, map, eqb, find, length, zip, Result, ok, err,
  ◌>>=◌, ◌>>◌, ensure, ok_or, traverse,
}
use parseon.Common.Int.{ℤ}
use parseon.Model.{
  Bytes, Address, B256, BlockNumber, Chain, MonitorId, AbiParam, Target, CallTarget, EventTarget,
  DecodedValue, DecodedResult,
}
use parseon.Monitor.{Monitor}
use parseon.Errors.{Error}

-- How alloy writes numbers, addresses and bytes.
pub record Format : Type 0 where
  pub uint : ℕ → String
  pub int : ℤ → String
  pub address : Address → String
  pub hex : Bytes → String

pub data ParamValue : Type 0 where
  string : String → ParamValue
  bool : Bool → ParamValue

-- The pairs that are collected into the JSON object.
abbrev pub Params : Type 0
Params = List (String × ParamValue)

pub record CallResult : Type 0 where
  pub monitor_id : MonitorId
  pub tx_hash : B256
  pub from : Address
  pub to : Address
  pub params : Params

pub record EventResult : Type 0 where
  pub monitor_id : MonitorId
  pub tx_hash : B256
  pub emitter : Address
  pub log_index : ℕ
  pub params : Params

pub data SinkResult : Type 0 where
  call : CallResult → SinkResult
  event : EventResult → SinkResult

pub record SinkBatch : Type 0 where
  pub version : ℕ
  pub chain_id : ℕ
  pub block_number : BlockNumber
  pub results : List SinkResult

module _ (format : Format) where
  abbrev pub canonical_value : DecodedValue → ParamValue
  canonical_value (DecodedValue.uint v) = ParamValue.string (format.uint v)
  canonical_value (DecodedValue.int v) = ParamValue.string (format.int v)
  canonical_value (DecodedValue.bool v) = ParamValue.bool v
  canonical_value (DecodedValue.address v) = ParamValue.string (format.address v)
  canonical_value (DecodedValue.string v) = ParamValue.string v
  canonical_value (DecodedValue.bytes v) = ParamValue.string (format.hex v)

  abbrev pub name_values : List (AbiParam × DecodedValue) → Params
  name_values pairs = map (λ (param, value). (param.name, canonical_value value)) pairs

  -- `canonical_params`
  unfoldable pub canonical_params : List AbiParam → List DecodedValue → Result Error Params
  canonical_params schema decoded = do
    ensure (eqb (length schema) (length decoded)) Error.param_count_mismatch
    ok (name_values (zip schema decoded))

  abbrev pub call_target : Target → Result Error CallTarget
  call_target (Target.call t) = ok t
  call_target (Target.event t) = err Error.result_of_other_kind

  abbrev pub event_target : Target → Result Error EventTarget
  event_target (Target.event t) = ok t
  event_target (Target.call t) = err Error.result_of_other_kind

  -- The closure over the results of a batch.
  unfoldable pub sink_result : List Monitor → DecodedResult → Result Error SinkResult
  unfolding canonical_params
  sink_result monitors (DecodedResult.call c) = do
    monitor ← ok_or (find (λ m. eqb m.id c.monitor_id) monitors) Error.unknown_monitor
    target ← call_target monitor.target
    params ← canonical_params target.inputs c.params
    ok (
        SinkResult.call (record {
          monitor_id = c.monitor_id;
          tx_hash = c.transaction_hash;
          from = c.from;
          to = c.to;
          params = params;
        }))
  sink_result monitors (DecodedResult.event e) = do
    monitor ← ok_or (find (λ m. eqb m.id e.monitor_id) monitors) Error.unknown_monitor
    target ← event_target monitor.target
    params ← canonical_params target.params e.params
    ok (
        SinkResult.event (record {
          monitor_id = e.monitor_id;
          tx_hash = e.transaction_hash;
          emitter = target.address;
          log_index = e.log_index;
          params = params;
        }))

  -- `SinkBatch::new`
  unfoldable pub new_batch :
      Chain → BlockNumber → List Monitor → List DecodedResult → Result Error (Option SinkBatch)
  unfolding sink_result
  new_batch chain block_number monitors [] = ok none
  new_batch chain block_number monitors (r ∷ rs) = do
    results ← traverse (sink_result monitors) (r ∷ rs)
    ok (
        some (record {
          version = 1;
          chain_id = chain.id;
          block_number = block_number;
          results = results;
        }))
