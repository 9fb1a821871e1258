-- ===== src/Worker/Prepare.antt =====
-- `prepare_calls`, `prepare_event_window` and `finish_prepared` of parseon-core/src/worker/prepare.rs. The
-- blocks of a window are prepared in their order, one of the schedules of `pipeline::ordered`, which
-- yields the results in this order in each of them.
use parseon.Common.{
  ℕ, suc, Bool, true, false, not, ◌&&◌, none, some, List, [], ◌∷◌, ◌++◌, map, any, leb, is_some_and,
  get_elem?, if◌then◌else◌, Result, ok, err, ensure, ok_or, traverse,
}
use parseon.Common.{◌>>=◌ as and_then, ◌>>◌ as after}
use parseon.Common.Ordered.{Entries, push_entry, entry_at}
use parseon.Model.{
  B256, BlockNumber, Target, BlockTransaction, SourceBlock, SourceLog, ExecutionOutcome,
  DecodedResult,
}
use parseon.Monitor.{Monitor}
use parseon.Scheduler.{BlockPlan}
use parseon.Index.{MonitorIndex, has_call}
use parseon.Index.Decode.{selector_of, decode_calls, decode_events}
use parseon.Ports.Source.{BlockRange, LogQuery}
use parseon.Errors.{Error}
use parseon.Worker.Effects.{Ports, Poll, Stateful, pure, lift, try, on_cache, ◌>>=◌}

-- `PreparedCalls`
pub record PreparedCalls : Type 0 where
  pub plan : BlockPlan
  pub results : List DecodedResult

-- `PreparedBlock`
pub record PreparedBlock : Type 0 where
  pub block_number : BlockNumber
  pub monitor_indices : List ℕ
  pub monitors : List Monitor
  pub results : List DecodedResult

abbrev pub is_call : Target → Bool
is_call (Target.call t) = true
is_call (Target.event t) = false

-- `has_calls`
abbrev pub has_calls : MonitorIndex → BlockPlan → Bool
has_calls index plan =
    any (λ i. is_some_and (get_elem? index.monitors i) (λ m. is_call m.target)) plan.monitor_indices

-- The closure that finds candidates.
unfoldable pub is_candidate : MonitorIndex → BlockPlan → BlockTransaction → Bool
unfolding has_call
is_candidate index plan tx =
    is_some_and (selector_of tx.input)
      (λ selector. has_call index plan.block_number tx.to selector plan.monitor_indices)

-- The indices of the candidates, from a first one.
unfoldable pub candidates_from : ℕ → MonitorIndex → BlockPlan → List BlockTransaction → List ℕ
unfolding is_candidate
candidates_from i index plan [] = []
candidates_from i index plan (tx ∷ txs) =
    let rest = candidates_from (suc i) index plan txs in
    if is_candidate index plan tx then i ∷ rest else rest

-- The hashes of the transactions at some indices, which are in bounds.
unfoldable pub hashes_at : List BlockTransaction → List ℕ → List B256
hashes_at txs [] = []
hashes_at txs (i ∷ is) = elim (get_elem? txs i) [
  | none ↦ hashes_at txs is
  | some tx ↦ tx.hash ∷ hashes_at txs is
]

-- The inner loop of `finish_prepared`.
unfoldable pub resolve_monitors : MonitorIndex → List ℕ → Result Error (List Monitor)
resolve_monitors index indices =
    traverse (λ i. ok_or (get_elem? index.monitors i) Error.unknown_monitor) indices

-- The body of the loop over the logs of a window.
unfoldable pub check_log : BlockRange → SourceLog → Result Error BlockNumber
check_log range log = after (ensure (not log.removed) Error.removed_log) (
    and_then (ok_or log.block_number Error.log_block_number) (λ block_number.
      after
        (ensure (leb range.start block_number && leb block_number range.end)
          Error.log_outside_range)
        (ok block_number)))

-- The loop that groups the logs by their blocks.
unfoldable pub group_logs :
    BlockRange → List SourceLog → Entries SourceLog → Result Error (Entries SourceLog)
unfolding check_log push_entry
group_logs range [] by_block = ok by_block
group_logs range (log ∷ logs) by_block =
    and_then (check_log range log)
      (λ block_number. group_logs range logs (push_entry block_number log by_block))

module _ {C : Type 0} (ports : Ports C) (index : MonitorIndex) where
  -- The block of the cache, or that of the source, which the cache then keeps.
  unfoldable pub load_block : BlockNumber → Stateful C Error SourceBlock
  load_block block_number cache = elim (ports.get_cached block_number cache) [
    | some block ↦ (ok block, cache)
    | none ↦ elim (ports.fetch_block block_number) [
      | ok block ↦ (ok block, ports.put_cached block cache)
      | err e ↦ (err e, cache)
    ]
  ]

  -- No request is made for no candidates.
  unfoldable pub fetch_outcomes : BlockNumber → List B256 → Result Error (List ExecutionOutcome)
  fetch_outcomes block_number [] = ok []
  fetch_outcomes block_number (h ∷ hs) = ports.fetch_execution_outcomes block_number (h ∷ hs)

  -- `prepare_calls`
  unfoldable pub prepare_calls : BlockPlan → Stateful C Error PreparedCalls
  unfolding load_block candidates_from hashes_at fetch_outcomes decode_calls
  prepare_calls plan =
      if has_calls index plan
      then (do
        block ← load_block plan.block_number
        let candidates = candidates_from 0 index plan block.transactions
        outcomes ← lift (fetch_outcomes plan.block_number (hashes_at block.transactions candidates))
        calls ← lift (decode_calls ports.alloy index plan.monitor_indices block candidates outcomes)
        pure (record { plan = plan; results = map DecodedResult.call calls }))
      else pure (record { plan = plan; results = [] })

  -- `finish_prepared`
  unfoldable pub finish_prepared : PreparedCalls → List SourceLog → Result Error PreparedBlock
  unfolding decode_events resolve_monitors
  finish_prepared prepared logs =
      let plan = prepared.plan in
      and_then (decode_events ports.alloy plan.block_number index plan.monitor_indices logs)
        (λ events. and_then (resolve_monitors index plan.monitor_indices) (λ monitors. ok (record {
          block_number = plan.block_number;
          monitor_indices = plan.monitor_indices;
          monitors = monitors;
          results = prepared.results ++ map DecodedResult.event events;
        })))

  -- The calls of the blocks of a window; the error of one waits for its turn.
  unfoldable pub prepare_all : List BlockPlan → Poll C (List (Result Error PreparedCalls))
  unfolding prepare_calls
  prepare_all [] = pure []
  prepare_all (plan ∷ plans) = do
    prepared ← on_cache (prepare_calls plan)
    rest ← prepare_all plans
    pure (prepared ∷ rest)

  -- The closure over the prepared calls; each block takes its logs once.
  unfoldable pub finish_all :
      Entries SourceLog → List (Result Error PreparedCalls) → List (Result Error PreparedBlock)
  unfolding finish_prepared entry_at
  finish_all logs [] = []
  finish_all logs (calls ∷ rest) =
      and_then calls
        (λ prepared. finish_prepared prepared (entry_at prepared.plan.block_number logs))
      ∷ finish_all logs rest

  -- `prepare_event_window`
  unfoldable pub prepare_event_window :
      List BlockPlan → LogQuery → Poll C (List (Result Error PreparedBlock))
  unfolding prepare_all group_logs finish_all
  prepare_event_window plans query = do
    calls ← prepare_all plans
    logs ← try (ports.fetch_logs query)
    by_block ← try (group_logs query.range logs [])
    pure (finish_all by_block calls)
