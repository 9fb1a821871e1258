-- ===== src/Tests/Requests.antt =====
-- The requests of parseon-rpc/src/provider.rs for an endpoint that serves one block at a time.
use parseon.Common.{
  ℕ, ◌≡◌, refl, ap, ◌∙◌, inl, inr, true, false, List, [], ◌∷◌, some, ltb, if◌then◌else◌, Result, ok,
  err, arith, Bool-cases,
}
use parseon.Common.Int.{pos}
use parseon.Model.{SourceLog}
use parseon.Ports.Source.{BlockRange}
use parseon.Rpc.Errors.{RpcError, log_range_limited}
use parseon.Rpc.Logs.{LogsError, adaptive_filter_logs}
use parseon.Rpc.Logs.Ranges.{logs_between}
use parseon.Rpc.Logs.Splits.{
  Answers, RefusesLarge, adaptive_filter_logs-returns, adaptive_filter_logs-eq,
  adaptive_filter_logs-succeeds,
}
use parseon.Fixtures.{log_at}

abbrev too_large : RpcError
too_large = record {
  response =
      some (record { code = pos 32005; message = "Block range too large"; retryable = false });
  text = "";
}

abbrev chain : ℕ → List SourceLog
chain n = log_at n ∷ []

abbrev endpoint : BlockRange → Result RpcError (List SourceLog)
endpoint range = if ltb range.start range.end then err too_large else ok (logs_between chain range)

abbrev requested : BlockRange
requested = record { start = 10; end = 12 }

is_limited : log_range_limited too_large ≡ true
unfolding log_range_limited
is_limited = refl

endpoint-Answers : Answers endpoint chain
endpoint-Answers range logs e = ground (arith, e)

endpoint-RefusesLarge : RefusesLarge endpoint
endpoint-RefusesLarge range error e = elim (Bool-cases (ltb range.start range.end)) [
  | inr single ↦ absurd (ground (arith, e, single))
  | inl wide ↦
      let same : error ≡ too_large = ground (arith, e, wide) in
      ((ap log_range_limited same ∙ is_limited), ground (arith, wide))
]

fetches :
    adaptive_filter_logs endpoint requested ≡ some (ok (log_at 10 ∷ log_at 11 ∷ log_at 12 ∷ []))
unfolding adaptive_filter_logs log_range_limited
fetches = refl

adaptive_filter_logs-returns_example :
    (r : Result LogsError (List SourceLog)) × (adaptive_filter_logs endpoint requested ≡ some r)
adaptive_filter_logs-returns_example = adaptive_filter_logs-returns endpoint requested

adaptive_filter_logs-eq_example :
    (log_at 10 ∷ log_at 11 ∷ log_at 12 ∷ []) ≡ logs_between chain requested
adaptive_filter_logs-eq_example =
    adaptive_filter_logs-eq endpoint chain endpoint-Answers requested
      (log_at 10 ∷ log_at 11 ∷ log_at 12 ∷ []) fetches

adaptive_filter_logs-succeeds_example :
    adaptive_filter_logs endpoint requested ≡ some (ok (logs_between chain requested))
adaptive_filter_logs-succeeds_example =
    adaptive_filter_logs-succeeds endpoint chain endpoint-Answers endpoint-RefusesLarge requested
