-- ===== src/Worker/Candidates.antt =====
-- The candidates of `prepare_calls` in parseon-core/src/worker/prepare.rs, found before the outcomes of the
-- transactions are known, and the calls that match.
use parseon.Common.{
  ℕ, zero, suc, ◌+◌, ◌≡◌, sym, subst, true, some, List, [], ◌∷◌, keep, get_elem?, ok, In, inl, inr,
  arith, Bool-cases,
}
use parseon.Common.Eq.{nat_eq, string_eq, list_eq, pair_eq}
use parseon.Model.{SourceBlock, BlockTransaction, DecodedCall, Target}
use parseon.Monitor.{Monitor, needs_block}
use parseon.Scheduler.{BlockPlan}
use parseon.Abi.{Alloy}
use parseon.Index.{
  MonitorIndex, get, new_index, is_active, has_call, monitor_is_planned, any_layout_planned,
  call_layout,
}
use parseon.Index.Groups.{any_layout_planned-In, monitor_is_planned_iff}
use parseon.Index.Built.{NamesTypes, new_index-IsIndexOf}
use parseon.Index.Placed.{IsPlaced, new_index-IsPlaced}
use parseon.Index.Calls.{CallMatches}
use parseon.Worker.Prepare.{is_candidate, candidates_from}

-- A transaction with a call that matches for the plan of its block is a candidate. It is assumed that no
-- two types have one name.
is_candidate-CallMatches :
    (alloy : Alloy)
    → NamesTypes alloy
    → (ms : List Monitor) (index : MonitorIndex) → new_index alloy ms ≡ ok index
    → (plan : BlockPlan) (block : SourceBlock) → block.number ≡ plan.block_number
    → (tx : BlockTransaction) (c : DecodedCall)
    → CallMatches alloy (keep is_active ms) plan.monitor_indices block tx c
    → is_candidate index plan tx ≡ true
unfolding is_candidate has_call
is_candidate-CallMatches alloy names ms index built plan block number tx c
      (i, m, t, params, here, listed, needs, has, to, sel, decoded, accepts, is) =
    found
      (subst (λ u. IsPlaced alloy u i index) has (new_index-IsPlaced alloy ms index built i m here))
  where
    here' : get_elem? index.monitors i ≡ some m
    here' =
        subst (λ k. get_elem? k i ≡ some m)
          (sym ((new_index-IsIndexOf alloy names ms index built).0)) here

    planned : monitor_is_planned index i plan.block_number plan.monitor_indices ≡ true
    planned =
        (monitor_is_planned_iff index i plan.block_number plan.monitor_indices m here').1
          (listed, subst (λ n. needs_block m n ≡ true) number needs)

    found : IsPlaced alloy (Target.call t) i index → is_candidate index plan tx ≡ true
    found (layouts, at, (g, group, inside)) =
        let at' : get (tx.to, t.selector) index.calls ≡ some layouts =
          subst (λ a. get (a, t.selector) index.calls ≡ some layouts) to at in
        let some_planned : any_layout_planned index plan.block_number plan.monitor_indices layouts
            ≡ true =
          any_layout_planned-In index plan.block_number plan.monitor_indices layouts
            (call_layout alloy t.inputs) g i group inside planned in
        rw (is_candidate, sel, has_call, at') some_planned

-- The loop returns the index of each candidate.
candidates_from-In :
    (index : MonitorIndex) (plan : BlockPlan) (first i j : ℕ) (txs : List BlockTransaction)
    (tx : BlockTransaction)
    → i ≡ first + j
    → get_elem? txs j ≡ some tx
    → is_candidate index plan tx ≡ true
    → In i (candidates_from first index plan txs)
unfolding candidates_from
candidates_from-In index plan first i j [] tx q at is = absurd (cc)
candidates_from-In index plan first i zero (x ∷ txs) tx q at is =
    let same : x ≡ tx = ground arith in rw (same, is) (inl (omega arith))
candidates_from-In index plan first i (suc j) (x ∷ txs) tx q at is =
    let later = candidates_from-In index plan (suc first) i j txs tx (omega arith) at is in
    elim (Bool-cases (is_candidate index plan x)) [ inl e ↦ rw e (inr later) | inr e ↦ rw e later ]

-- The index of a transaction with a call that matches is among the candidates.
pub candidates_from-CallMatches :
    (alloy : Alloy)
    → NamesTypes alloy
    → (ms : List Monitor) (index : MonitorIndex) → new_index alloy ms ≡ ok index
    → (plan : BlockPlan) (block : SourceBlock) → block.number ≡ plan.block_number
    → (j : ℕ) (tx : BlockTransaction) → get_elem? block.transactions j ≡ some tx
    → (c : DecodedCall) → CallMatches alloy (keep is_active ms) plan.monitor_indices block tx c
    → In j (candidates_from 0 index plan block.transactions)
candidates_from-CallMatches alloy names ms index built plan block number j tx at c matches =
    candidates_from-In index plan 0 j j block.transactions tx (omega arith) at
      (is_candidate-CallMatches alloy names ms index built plan block number tx c matches)
