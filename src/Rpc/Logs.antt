-- ===== src/Rpc/Logs.antt =====
-- `adaptive_filter_logs` of parseon-rpc/src/provider.rs: a request for the logs of a range, cut in halves
-- where the endpoint refuses it as too large.
pub mod Ranges
pub mod Splits
use parseon.Common.{
  ℕ, zero, suc, ◌+◌, ◌-◌, ◌*◌, ◌/◌, Bool, true, false, ◌&&◌, Option, none, some, List, [], ◌∷◌,
  ◌++◌, ltb, if◌then◌else◌, Result, ok, err,
}
use parseon.Model.{BlockNumber, SourceLog}
use parseon.Ports.Source.{BlockRange}
use parseon.Rpc.Errors.{RpcError, log_range_limited}

-- How the request fails: with the endpoint's error, or for a single block that is too large.
pub data LogsError : Type 0 where
  request : RpcError → LogsError
  block_limit : BlockNumber → RpcError → LogsError

abbrev pub middle : BlockRange → BlockNumber
middle range = range.start + (range.end - range.start) / 2

abbrev pub left : BlockRange → BlockRange
left range = record { start = range.start; end = middle range }

abbrev pub right : BlockRange → BlockRange
right range = record { start = middle range + 1; end = range.end }

module _ (fetch_logs : BlockRange → Result RpcError (List SourceLog)) where
  -- The loop, which makes at most so many requests; `none` if they do not suffice. The last range
  -- pushed is the first.
  unfoldable pub fetch_pending :
      ℕ → List BlockRange → List SourceLog → Option (Result LogsError (List SourceLog))
  unfolding log_range_limited
  fetch_pending requests [] logs = some (ok logs)
  fetch_pending zero (range ∷ pending) logs = none
  fetch_pending (suc requests) (range ∷ pending) logs = elim (fetch_logs range) [
    | ok fetched ↦ fetch_pending requests pending (logs ++ fetched)
    | err error ↦
        let halves = fetch_pending requests (left range ∷ right range ∷ pending) logs in
        if log_range_limited error && ltb range.start range.end
        then halves
        else if log_range_limited error
        then some (err (LogsError.block_limit range.start error))
        else some (err (LogsError.request error))
  ]

  -- `adaptive_filter_logs`, with as many requests as cutting to single blocks takes.
  unfoldable pub adaptive_filter_logs : BlockRange → Option (Result LogsError (List SourceLog))
  unfolding fetch_pending
  adaptive_filter_logs requested =
      fetch_pending (2 * (requested.end - requested.start) + 1) (requested ∷ []) []
