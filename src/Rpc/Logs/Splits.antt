-- ===== src/Rpc/Logs/Splits.antt =====
-- What the cut ranges of parseon-rpc/src/provider.rs add up to: the loop ends, and returns the logs of the whole
-- range in order.
use parseon.Common.{
  ℕ, zero, suc, ◌+◌, ◌-◌, ◌*◌, ◌≤◌, ◌<◌, ◌≡◌, refl, sym, ap, ◌∙◌, subst, inl, inr, true, some, List,
  [], ◌∷◌, ◌++◌, ltb, Result, ok, err, arith, Result-cases, Bool-cases,
}
use mathlib.Core.List.{append_assoc, append-nil}
use parseon.Model.{SourceLog}
use parseon.Ports.Source.{BlockRange}
use parseon.Rpc.Errors.{RpcError, log_range_limited}
use parseon.Rpc.Logs.Ranges.{logs_between, logs_of_all, logs_between-halves, work, work-halves}
use parseon.Rpc.Logs.{LogsError, left, right, fetch_pending, adaptive_filter_logs}

module _ (fetch_logs : BlockRange → Result RpcError (List SourceLog)) where
  -- The endpoint answers a range with its logs, if it answers.
  abbrev pub Answers : (ℕ → List SourceLog) → Type 0
  Answers chain =
      (range : BlockRange) (logs : List SourceLog)
      → fetch_logs range ≡ ok logs
      → logs ≡ logs_between chain range

  -- The endpoint refuses a range only as too large, and never a single block.
  abbrev pub RefusesLarge : Type 0
  RefusesLarge =
      (range : BlockRange) (error : RpcError)
      → fetch_logs range ≡ err error
      → (log_range_limited error ≡ true) × (range.start < range.end)

  -- A range that is answered.
  fetch_pending-ok :
      (n : ℕ) (range : BlockRange) (pending : List BlockRange) (logs fetched : List SourceLog)
      → fetch_logs range ≡ ok fetched
      → fetch_pending fetch_logs (suc n) (range ∷ pending) logs
        ≡ fetch_pending fetch_logs n pending (logs ++ fetched)
  unfolding fetch_pending
  fetch_pending-ok n range pending logs fetched eq = rw (fetch_pending, eq) refl

  -- A range that is cut.
  fetch_pending-cut :
      (n : ℕ) (range : BlockRange) (pending : List BlockRange) (logs : List SourceLog)
      (error : RpcError)
      → fetch_logs range ≡ err error
      → log_range_limited error ≡ true
      → range.start < range.end
      → fetch_pending fetch_logs (suc n) (range ∷ pending) logs
        ≡ fetch_pending fetch_logs n (left range ∷ right range ∷ pending) logs
  unfolding fetch_pending
  fetch_pending-cut n range pending logs error eq limited wide =
      let several : ltb range.start range.end ≡ true = ground (arith, wide) in
      ground (arith, eq, limited, several)

  fetch_pending-returns :
      (n : ℕ) (pending : List BlockRange) (logs : List SourceLog)
      → work pending ≤ n
      → (r : Result LogsError (List SourceLog)) × (fetch_pending fetch_logs n pending logs ≡ some r)
  unfolding fetch_pending
  fetch_pending-returns n [] logs enough = (ok logs, refl)
  fetch_pending-returns zero (range ∷ pending) logs enough = absurd (omega arith)
  fetch_pending-returns (suc n) (range ∷ pending) logs enough =
      elim (Result-cases (fetch_logs range)) [
        | inl (fetched, eq) ↦
            let rest = fetch_pending-returns n pending (logs ++ fetched) (omega arith) in
            (rest.0, (fetch_pending-ok n range pending logs fetched eq ∙ rest.1))
        | inr (error, eq) ↦ elim (Bool-cases (log_range_limited error)) [
          | inr other ↦ (err (LogsError.request error), ground (arith, eq, other))
          | inl limited ↦ elim (Bool-cases (ltb range.start range.end)) [
            | inr single ↦
                (err (LogsError.block_limit range.start error), ground (arith, eq, limited, single))
            | inl several ↦
                let wide : range.start < range.end = ground (arith, several) in
                let rest =
                  fetch_pending-returns n (left range ∷ right range ∷ pending) logs
                    (work-halves range pending n wide enough) in
                (rest.0, (fetch_pending-cut n range pending logs error eq limited wide ∙ rest.1))
          ]
        ]
      ]

  -- The loop ends: as many requests as it is given always suffice, whatever the endpoint answers.
  pub adaptive_filter_logs-returns :
      (requested : BlockRange)
      → (r : Result LogsError (List SourceLog)) × (adaptive_filter_logs fetch_logs requested
          ≡ some r)
  unfolding adaptive_filter_logs
  adaptive_filter_logs-returns requested =
      fetch_pending-returns (2 * (requested.end - requested.start) + 1) (requested ∷ []) []
        (omega arith)

  halves-logs :
      (chain : ℕ → List SourceLog) (range : BlockRange) (pending : List BlockRange)
      (logs : List SourceLog)
      → range.start < range.end
      → logs ++ logs_of_all chain (left range ∷ right range ∷ pending)
        ≡ logs ++ logs_of_all chain (range ∷ pending)
  halves-logs chain range pending logs wide =
      ap (λ x. logs ++ x)
        (sym (
            append_assoc (logs_between chain (left range)) (logs_between chain (right range))
              (logs_of_all chain pending))
          ∙ ap (λ x. x ++ logs_of_all chain pending) (logs_between-halves chain range wide))

  first-logs :
      (chain : ℕ → List SourceLog) (range : BlockRange) (pending : List BlockRange)
      (logs fetched : List SourceLog)
      → fetched ≡ logs_between chain range
      → (logs ++ fetched) ++ logs_of_all chain pending ≡ logs ++ logs_of_all chain (range ∷ pending)
  first-logs chain range pending logs fetched same =
      append_assoc logs fetched (logs_of_all chain pending)
      ∙ ap (λ x. logs ++ (x ++ logs_of_all chain pending)) same

  fetch_pending-logs :
      (chain : ℕ → List SourceLog)
      → Answers chain
      → (n : ℕ) (pending : List BlockRange) (logs out : List SourceLog)
      → fetch_pending fetch_logs n pending logs ≡ some (ok out)
      → out ≡ logs ++ logs_of_all chain pending
  unfolding fetch_pending
  fetch_pending-logs chain answers n [] logs out e = ground (arith, e, append-nil logs)
  fetch_pending-logs chain answers zero (range ∷ pending) logs out e = absurd (ground arith)
  fetch_pending-logs chain answers (suc n) (range ∷ pending) logs out e =
      elim (Result-cases (fetch_logs range)) [
        | inl (fetched, eq) ↦
            fetch_pending-logs chain answers n pending (logs ++ fetched) out
              (sym (fetch_pending-ok n range pending logs fetched eq) ∙ e)
            ∙ first-logs chain range pending logs fetched (answers range fetched eq)
        | inr (error, eq) ↦ elim (Bool-cases (log_range_limited error)) [
          | inr other ↦ absurd (ground (arith, e, eq, other))
          | inl limited ↦ elim (Bool-cases (ltb range.start range.end)) [
            | inr single ↦ absurd (ground (arith, e, eq, limited, single))
            | inl several ↦
                let wide : range.start < range.end = ground (arith, several) in
                fetch_pending-logs chain answers n (left range ∷ right range ∷ pending) logs out
                  (sym (fetch_pending-cut n range pending logs error eq limited wide) ∙ e)
                ∙ halves-logs chain range pending logs wide
          ]
        ]
      ]

  -- When it succeeds, the loop returns the logs of the requested range in the order of the blocks,
  -- however it was cut, if the endpoint answers a range that it does not refuse with its logs.
  pub adaptive_filter_logs-eq :
      (chain : ℕ → List SourceLog)
      → Answers chain
      → (requested : BlockRange) (out : List SourceLog)
      → adaptive_filter_logs fetch_logs requested ≡ some (ok out)
      → out ≡ logs_between chain requested
  unfolding adaptive_filter_logs
  adaptive_filter_logs-eq chain answers requested out e =
      fetch_pending-logs chain answers (2 * (requested.end - requested.start) + 1) (requested ∷ [])
        [] out e
      ∙ append-nil (logs_between chain requested)

  fetch_pending-succeeds :
      RefusesLarge
      → (n : ℕ) (pending : List BlockRange) (logs : List SourceLog) → work pending ≤ n
      → (out : List SourceLog) × (fetch_pending fetch_logs n pending logs ≡ some (ok out))
  unfolding fetch_pending
  fetch_pending-succeeds large n [] logs enough = (logs, refl)
  fetch_pending-succeeds large zero (range ∷ pending) logs enough = absurd (omega arith)
  fetch_pending-succeeds large (suc n) (range ∷ pending) logs enough =
      elim (Result-cases (fetch_logs range)) [
        | inl (fetched, eq) ↦
            let rest = fetch_pending-succeeds large n pending (logs ++ fetched) (omega arith) in
            (rest.0, (fetch_pending-ok n range pending logs fetched eq ∙ rest.1))
        | inr (error, eq) ↦
            let (limited, wide) = large range error eq in
            let rest =
              fetch_pending-succeeds large n (left range ∷ right range ∷ pending) logs
                (work-halves range pending n wide enough) in
            (rest.0, (fetch_pending-cut n range pending logs error eq limited wide ∙ rest.1))
      ]

  -- If the endpoint answers single blocks, refuses wider ranges only as too large, and answers with the
  -- logs of the range, the loop succeeds with the logs of the requested range in order.
  pub adaptive_filter_logs-succeeds :
      (chain : ℕ → List SourceLog)
      → Answers chain
      → RefusesLarge
      → (requested : BlockRange)
      → adaptive_filter_logs fetch_logs requested ≡ some (ok (logs_between chain requested))
  unfolding adaptive_filter_logs
  adaptive_filter_logs-succeeds chain answers large requested =
      let (out, e) =
        fetch_pending-succeeds large (2 * (requested.end - requested.start) + 1) (requested ∷ []) []
          (omega arith) in
      subst (λ x. adaptive_filter_logs fetch_logs requested ≡ some (ok x))
        (adaptive_filter_logs-eq chain answers requested out e) e
