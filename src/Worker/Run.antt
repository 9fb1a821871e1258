-- ===== src/Worker/Run.antt =====
-- `run_once` of parseon-core/src/worker/mod.rs.
use parseon.Common.{
  ℕ, ◌+◌, ◌-◌, min, max, Option, none, some, List, [], ◌∷◌, map, zip, leb, is_empty, unwrap_or,
  saturating_add, if◌then◌else◌, Result, ok,
}
use parseon.Model.{BlockNumber, Chain, next}
use parseon.Monitor.{Monitor}
use parseon.Scheduler.{BlockPlan, plan_blocks}
use parseon.Index.{MonitorIndex, new_index}
use parseon.Ports.Source.{LogQuery}
use parseon.Errors.{Error}
use parseon.Worker.Windows.{plan_windows}
use parseon.Worker.Query.{log_query}
use parseon.Worker.Effects.{Ports, Poll, pure, try, on_cache, check, ◌>>=◌, ◌>>◌}
use parseon.Worker.Prepare.{PreparedBlock, prepare_calls, prepare_event_window, finish_prepared}
use parseon.Worker.Commit.{Progress, commit_prepared}

-- `WorkerConfig`, less the concurrency and the delay between polls.
pub record WorkerConfig : Type 0 where
  pub chain : Chain
  pub batch_size : ℕ

-- `PollResult`
pub record PollResult : Type 0 where
  pub finalized_head : BlockNumber
  pub decoded : ℕ

abbrev pub poll_result : BlockNumber → ℕ → PollResult
poll_result finalized_head decoded = record { finalized_head = finalized_head; decoded = decoded }

-- The lag of one monitor.
unfoldable pub lag_of : BlockNumber → Monitor × Option BlockNumber → ℕ
lag_of finalized_head (m, cursor) =
    let target = min (unwrap_or m.end_block finalized_head) finalized_head in
    elim cursor [
      | some block ↦ target - block
      | none ↦ if leb m.start_block target then saturating_add (target - m.start_block) 1 else 0
    ]

-- `max().unwrap_or(0)`
abbrev pub maximum : List ℕ → ℕ
maximum [] = 0
maximum (n ∷ ns) = max n (maximum ns)

-- `min()`
abbrev pub minimum? : List ℕ → Option ℕ
minimum? [] = none
minimum? (n ∷ ns) = elim (minimum? ns) [ none ↦ some n | some m ↦ some (min n m) ]

module _ {C : Type 0} (ports : Ports C) (config : WorkerConfig) where
  -- The loop over the blocks of an event window.
  unfoldable pub commit_all :
      List (Result Error PreparedBlock) → ℕ → Progress → Poll C (ℕ × Progress)
  unfolding commit_prepared
  commit_all [] decoded progress = pure (decoded, progress)
  commit_all (block ∷ blocks) decoded progress = do
    prepared ← try block
    (count, moved) ← commit_prepared ports config.chain prepared progress
    commit_all blocks (decoded + count) moved

  -- A block of a window without events, whose error stops the poll.
  unfoldable pub prepare_block : MonitorIndex → BlockPlan → Poll C PreparedBlock
  unfolding prepare_calls finish_prepared
  prepare_block index plan = do
    calls ← on_cache (prepare_calls ports index plan)
    ready ← try calls
    try (finish_prepared ports index ready [])

  -- The loop over the blocks of a window without events; its last round finds the stream empty.
  unfoldable pub run_calls : MonitorIndex → List BlockPlan → ℕ → Progress → Poll C (ℕ × Progress)
  unfolding commit_prepared prepare_block check
  run_calls index [] decoded progress = do check; pure (decoded, progress)
  run_calls index (plan ∷ plans) decoded progress = do
    check
    prepared ← prepare_block index plan
    (count, moved) ← commit_prepared ports config.chain prepared progress
    run_calls index plans (decoded + count) moved

  -- A window, by whether it has a log query.
  unfoldable pub run_window :
      MonitorIndex → List BlockPlan → Option LogQuery → ℕ → Progress → Poll C (ℕ × Progress)
  unfolding run_calls commit_all prepare_event_window check
  run_window index plans none decoded progress = run_calls index plans decoded progress
  run_window index plans (some query) decoded progress = do
    check
    prepared ← prepare_event_window ports index plans query
    commit_all prepared decoded progress

  -- The loop over the windows.
  unfoldable pub run_windows :
      MonitorIndex → List (List BlockPlan) → ℕ → Progress → Poll C (ℕ × Progress)
  unfolding run_window log_query
  run_windows index [] decoded progress = pure (decoded, progress)
  run_windows index (window ∷ windows) decoded progress = do
    query ← try (log_query window index)
    (decoded, progress) ← run_window index window query decoded progress
    run_windows index windows decoded progress

  -- The blocks that no active monitor needs any more leave the cache.
  abbrev pub evict : Option BlockNumber → C → C
  evict none cache = cache
  evict (some block_number) cache = ports.evict_before block_number cache

  -- The end of a poll: the cache and the lag.
  unfoldable pub finish : List Monitor → BlockNumber → Progress → Poll C (Unit {0})
  unfolding lag_of next
  finish active finalized_head progress w =
      let pairs = zip active progress in
      (
        ok tt,
        record w {
          cache = evict (minimum? (map (λ (m, cursor). next cursor m.start_block) pairs)) w.cache;
          lag = some (maximum (map (lag_of finalized_head) pairs));
        },
      )

  -- The poll of a chain that has active monitors.
  unfoldable pub run_active : MonitorIndex → BlockNumber → Poll C PollResult
  unfolding run_windows plan_windows plan_blocks finish
  run_active index finalized_head = do
    let active = index.monitors
    let plans = plan_blocks active finalized_head config.batch_size
    (decoded, progress) ←
        run_windows index (plan_windows plans config.batch_size) 0 (map (λ m. m.cursor) active)
    finish active finalized_head progress
    pure (poll_result finalized_head decoded)

  abbrev pub idle_end : BlockNumber → Poll C PollResult
  idle_end finalized_head w = (ok (poll_result finalized_head 0), record w { lag = some 0 })

  -- The poll of a chain that has none.
  unfoldable pub run_idle : BlockNumber → Poll C PollResult
  unfolding check
  run_idle finalized_head = do check; idle_end finalized_head

  -- The poll once the index is built.
  unfoldable pub run_loaded : MonitorIndex → BlockNumber → Poll C PollResult
  unfolding run_active run_idle
  run_loaded index finalized_head =
      if is_empty index.monitors then run_idle finalized_head else run_active index finalized_head

  -- `run_once`
  unfoldable pub run_once : Poll C PollResult
  unfolding check run_loaded new_index
  run_once = do
    check
    finalized_head ← try ports.finalized_head
    check
    monitors ← try ports.load_monitors
    index ← try (new_index ports.alloy monitors)
    run_loaded index finalized_head
