-- ===== src/Worker/Query.antt =====
-- `log_query` of parseon-core/src/worker/prepare.rs: one request for the logs of a window.
use parseon.Common.{
  ℕ, Option, none, some, List, [], ◌∷◌, last?, get_elem?, Result, ok, ◌>>=◌, ok_or,
}
use parseon.Model.{Target}
use parseon.Scheduler.{BlockPlan}
use parseon.Index.{MonitorIndex}
use parseon.Ports.Source.{LogTarget, LogQuery, new_range, insert_target, new_query}
use parseon.Errors.{Error}

-- A monitor's log target goes into the set.
unfoldable pub add_target : Target → List LogTarget → List LogTarget
unfolding insert_target
add_target (Target.call t) targets = targets
add_target (Target.event t) targets =
    insert_target (record { address = t.address; topic0 = t.topic0 }) targets

-- The inner loop over the monitors of a plan.
unfoldable pub add_monitors : MonitorIndex → List ℕ → List LogTarget → Result Error (List LogTarget)
unfolding add_target
add_monitors index [] targets = ok targets
add_monitors index (i ∷ indices) targets = do
  monitor ← ok_or (get_elem? index.monitors i) Error.unknown_monitor
  add_monitors index indices (add_target monitor.target targets)

-- The loop over the plans.
unfoldable pub add_plans :
    MonitorIndex → List BlockPlan → List LogTarget → Result Error (List LogTarget)
unfolding add_monitors
add_plans index [] targets = ok targets
add_plans index (plan ∷ plans) targets = do
  added ← add_monitors index plan.monitor_indices targets
  add_plans index plans added

abbrev pub first? {ℓ} : {A : Type ℓ} → List A → Option A
first? [] = none
first? (x ∷ xs) = some x

-- The query over the first and last plan, when there are targets.
unfoldable pub query_between :
    BlockPlan → BlockPlan → List LogTarget → Result Error (Option LogQuery)
unfolding new_range new_query
query_between first last [] = ok none
query_between first last (t ∷ ts) = do
  range ← ok_or (new_range first.block_number last.block_number) Error.unordered_plans
  ok (some (new_query range (t ∷ ts)))

-- `log_query`
unfoldable pub log_query : List BlockPlan → MonitorIndex → Result Error (Option LogQuery)
unfolding add_plans query_between
log_query plans index = elim (first? plans) [
  | none ↦ ok none
  | some first ↦ elim (last? plans) [
    | none ↦ ok none
    | some last ↦ do targets ← add_plans index plans []; query_between first last targets
  ]
]
