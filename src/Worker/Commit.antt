-- ===== src/Worker/Commit.antt =====
-- `commit_prepared` of parseon-core/src/worker/commit.rs. The semaphore of storage writes is never closed.
use parseon.Common.{
  ℕ, Option, none, some, List, [], ◌∷◌, ◌++◌, length, ltb, set, if◌then◌else◌, Result, ok, err,
}
use parseon.Model.{BlockNumber, Chain}
use parseon.Errors.{Error}
use parseon.Ports.Sink.{SinkBatch, new_batch}
use parseon.Worker.Effects.{BlockCommit, Ports, Poll, failed, pure, try, check, ◌>>=◌, ◌>>◌}
use parseon.Worker.Prepare.{PreparedBlock}

-- The in-memory cursor of each active monitor.
abbrev pub Progress : Type 0
Progress = List (Option BlockNumber)

-- The loop that moves the cursors of the block's monitors.
unfoldable pub advance : BlockNumber → List ℕ → Progress → Result Error Progress
advance block_number [] progress = ok progress
advance block_number (i ∷ indices) progress =
    let rest = advance block_number indices (set progress i (some block_number)) in
    if ltb i (length progress) then rest else err Error.unknown_monitor

-- What the sink gets: nothing if it is not enabled, the batch is empty or was not encoded.
abbrev pub submit : List SinkBatch → Result Error (Option SinkBatch) → List SinkBatch
submit batches (ok (some batch)) = batches ++ batch ∷ []
submit batches (ok none) = batches
submit batches (err e) = batches

abbrev pub to_commit : Chain → PreparedBlock → BlockCommit
to_commit chain prepared = record {
  chain = chain;
  block_number = prepared.block_number;
  monitors = prepared.monitors;
  results = prepared.results;
}

module _ {C : Type 0} (ports : Ports C) (chain : Chain) where
  -- `storage.commit_block` and the submission to the sink after its success.
  unfoldable pub store : BlockCommit → Poll C (Unit {0})
  unfolding new_batch
  store commit w = elim (ports.commit_block w.committed commit) [
    | err e ↦ (err (failed e), w)
    | ok _ ↦ (
      ok tt,
      record w {
        committed = w.committed ++ commit ∷ [];
        submitted =
            if ports.sink_enabled
            then submit w.submitted
                (new_batch ports.format chain commit.block_number commit.monitors commit.results)
            else w.submitted;
      },
    )
  ]

  -- `commit_prepared`: the number of results and the new cursors.
  unfoldable pub commit_prepared : PreparedBlock → Progress → Poll C (ℕ × Progress)
  unfolding store advance check
  commit_prepared prepared progress = do
    check
    store (to_commit chain prepared)
    moved ← try (advance prepared.block_number prepared.monitor_indices progress)
    pure (length prepared.results, moved)
