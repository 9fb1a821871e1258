-- ===== src/Index/Decode.antt =====
-- `decode_calls` and `decode_events` of parseon-core/src/indexer.rs: the candidates and logs of a block,
-- decoded once per layout and fanned out to the planned monitors of the layout.
use parseon.Common.{
  ℕ, Bool, false, not, String, Option, none, some, List, [], ◌∷◌, ◌++◌, take, drop, length, leb,
  eqb, if◌then◌else◌, Result, ok, err, ◌>>=◌, ◌>>◌, ensure, ok_or, get_elem?,
}
use parseon.Common.Eq.{◌==◌, nat_eq, string_eq, bool_eq, list_eq, pair_eq}
use parseon.Model.{
  Bytes, Selector, BlockNumber, MonitorId, DecodedValue, BlockTransaction, SourceBlock,
  ExecutionOutcome, DecodedCall, SourceLog, DecodedEvent,
}
use parseon.Filter.Ast.{FilterContext}
use parseon.Filter.Evaluate.{evaluate_filter}
use parseon.Monitor.{Monitor}
use parseon.Abi.{Alloy, AbiError, EventDecoder, decode_call, decode_event}
use parseon.Errors.{Error}
use parseon.Index.{
  Layouts, MonitorIndex, get, map_err, monitor_is_planned, any_planned, any_layout_planned,
}

-- What a log or a transaction gives to the filter and to the results, from decoded parameters.
pub record Emission (R : Type 0) : Type 0 where
  pub context : List DecodedValue → FilterContext
  pub result : MonitorId → List DecodedValue → R

module _ {R : Type 0} (index : MonitorIndex) (block_number : BlockNumber) (planned : List ℕ)
    (emission : Emission R) where
  -- One monitor of the inner loop, which the caller found to be planned.
  unfoldable pub emit : List DecodedValue → Monitor → Result Error (List R)
  unfolding evaluate_filter
  emit params monitor = do
    accepted ← map_err Error.filter (evaluate_filter monitor.filter (emission.context params))
    ok (if accepted then emission.result monitor.id params ∷ [] else [])

  -- The inner loop over the monitors of a layout. An index out of bounds panics in the source.
  unfoldable pub fan_out : List DecodedValue → List ℕ → Result Error (List R)
  unfolding emit monitor_is_planned
  fan_out params [] = ok []
  fan_out params (i ∷ indices) =
      let rest = fan_out params indices in
      if monitor_is_planned index i block_number planned
      then (do
        monitor ← ok_or (get_elem? index.monitors i) Error.unknown_monitor
        found ← emit params monitor
        later ← rest
        ok (found ++ later))
      else rest

  -- What a decoded layout contributes: an error of the decoder is logged and skips the layout.
  unfoldable pub fan_out_decoded :
      Result AbiError (List DecodedValue) → List ℕ → Result Error (List R)
  unfolding fan_out
  fan_out_decoded (ok params) indices = fan_out params indices
  fan_out_decoded (err e) indices = ok []

  -- The loop over the layouts of a target.
  unfoldable pub decode_layouts :
      {L D : Type 0}
      → (D → Result AbiError (List DecodedValue))
      → Layouts L D
      → Result Error (List R)
  unfolding fan_out_decoded monitor_is_planned
  decode_layouts decode [] = ok []
  decode_layouts decode ((l, group) ∷ layouts) =
      let rest = decode_layouts decode layouts in
      if any_planned index block_number planned group
      then (do
        found ← fan_out_decoded (decode group.decoder) group.monitor_indices
        later ← rest
        ok (found ++ later))
      else rest

-- `input.get(..4)` as a selector.
abbrev pub selector_of : Bytes → Option Selector
selector_of input = if leb 4 (length input) then some (take 4 input) else none

abbrev pub call_emission : SourceBlock → BlockTransaction → Emission DecodedCall
call_emission block tx = record {
  context = λ params. FilterContext.call (record {
    block_number = block.number;
    tx_hash = tx.hash;
    from = tx.from;
    to = tx.to;
    params = params;
  });
  result = λ id params. record {
    monitor_id = id;
    block_number = block.number;
    transaction_hash = tx.hash;
    from = tx.from;
    to = tx.to;
    params = params;
  };
}

module _ (alloy : Alloy) (index : MonitorIndex) (planned : List ℕ) where
  -- The layouts of a target that some monitor has, or nothing.
  unfoldable pub decode_transaction_at :
      SourceBlock → BlockTransaction → Option Selector → Result Error (List DecodedCall)
  unfolding decode_call decode_layouts
  decode_transaction_at block tx none = ok []
  decode_transaction_at block tx (some selector) = elim (get (tx.to, selector) index.calls) [
    | none ↦ ok []
    | some layouts ↦
        decode_layouts index block.number planned (call_emission block tx)
          (λ decoder. decode_call alloy decoder (drop 4 tx.input)) layouts
  ]

  -- The body of the loop over the candidates.
  unfoldable pub decode_candidate :
      SourceBlock → ℕ → ExecutionOutcome → Result Error (List DecodedCall)
  unfolding decode_transaction_at
  decode_candidate block transaction_index outcome = do
    tx ← ok_or (get_elem? block.transactions transaction_index) Error.candidate_outside_block
    ensure (outcome.transaction_hash == tx.hash) Error.outcome_order_mismatch
    let calls = decode_transaction_at block tx (selector_of tx.input)
    if outcome.succeeded then calls else ok []

  -- The loop over the candidates zipped with their outcomes.
  unfoldable pub decode_candidates :
      SourceBlock → List ℕ → List ExecutionOutcome → Result Error (List DecodedCall)
  unfolding decode_candidate
  decode_candidates block (i ∷ candidates) (outcome ∷ outcomes) = do
    found ← decode_candidate block i outcome
    later ← decode_candidates block candidates outcomes
    ok (found ++ later)
  decode_candidates block _ _ = ok []

  -- `decode_calls`
  unfoldable pub decode_calls :
      SourceBlock → List ℕ → List ExecutionOutcome → Result Error (List DecodedCall)
  unfolding decode_candidates
  decode_calls block candidates outcomes = do
    ensure (eqb (length candidates) (length outcomes)) Error.outcome_count_mismatch
    decode_candidates block candidates outcomes

abbrev pub event_emission : BlockNumber → SourceLog → Bytes → ℕ → Emission DecodedEvent
event_emission block_number log transaction_hash log_index = record {
  context = λ params. FilterContext.event (record {
    block_number = block_number;
    tx_hash = transaction_hash;
    emitter = log.address;
    log_index = log_index;
    params = params;
  });
  result = λ id params. record {
    monitor_id = id;
    block_number = block_number;
    transaction_hash = transaction_hash;
    log_index = log_index;
    params = params;
  };
}

-- Whether a log says that it is of the block.
abbrev pub is_of_block : BlockNumber → Option BlockNumber → Bool
is_of_block block_number none = false
is_of_block block_number (some number) = eqb number block_number

module _ (alloy : Alloy) (block_number : BlockNumber) (index : MonitorIndex)
    (planned : List ℕ) where
  -- A log whose target has a planned monitor.
  unfoldable pub decode_planned_log :
      SourceLog → Layouts (List (String × Bool)) EventDecoder → Result Error (List DecodedEvent)
  unfolding decode_event decode_layouts
  decode_planned_log log layouts = do
    ensure (not log.removed) Error.removed_log
    ensure (is_of_block block_number log.block_number) Error.log_block_number
    transaction_hash ← ok_or log.transaction_hash Error.log_without_hash
    log_index ← ok_or log.log_index Error.log_without_index
    decode_layouts index block_number planned
        (event_emission block_number log transaction_hash log_index)
        (λ decoder. decode_event alloy decoder log.topics log.log_data) layouts

  unfoldable pub decode_log_at :
      SourceLog
      → Option (Layouts (List (String × Bool)) EventDecoder)
      → Result Error (List DecodedEvent)
  unfolding decode_planned_log monitor_is_planned
  decode_log_at log none = ok []
  decode_log_at log (some layouts) =
      let found = decode_planned_log log layouts in
      if any_layout_planned index block_number planned layouts then found else ok []

  -- The body of the loop over the logs.
  unfoldable pub decode_log : SourceLog → List Bytes → Result Error (List DecodedEvent)
  unfolding decode_log_at
  decode_log log [] = ok []
  decode_log log (topic0 ∷ _) = decode_log_at log (get (log.address, topic0) index.events)

  -- `decode_events`
  unfoldable pub decode_events : List SourceLog → Result Error (List DecodedEvent)
  unfolding decode_log
  decode_events [] = ok []
  decode_events (log ∷ logs) = do
    found ← decode_log log log.topics
    later ← decode_events logs
    ok (found ++ later)
