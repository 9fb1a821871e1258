-- ===== src/Worker/Windows.antt =====
-- `plan_windows` of parseon-core/src/worker/prepare.rs: runs of consecutive blocks.
pub mod Runs
use parseon.Common.{
  ℕ, Bool, true, false, ◌&&◌, Option, none, some, List, [], ◌∷◌, ◌++◌, ltb, eqb, if◌then◌else◌,
  length, last?, checked_add, is_some_and,
}
use parseon.Scheduler.{BlockPlan}

-- Whether a plan's block follows that of the last plan of a window.
abbrev pub follows : Option BlockPlan → BlockPlan → Bool
follows last plan =
    is_some_and last
      (λ p. is_some_and (checked_add p.block_number 1) (λ n. eqb n plan.block_number))

-- The test `append`, on the last window.
abbrev pub has_room : ℕ → List BlockPlan → BlockPlan → Bool
has_room max_blocks window plan = ltb (length window) max_blocks && follows (last? window) plan

-- The body of the loop: `windows.last_mut()` takes the plan, or a window is opened for it.
unfoldable pub append_plan : ℕ → List (List BlockPlan) → BlockPlan → List (List BlockPlan)
append_plan max_blocks [] plan = (plan ∷ []) ∷ []
append_plan max_blocks (window ∷ []) plan =
    if has_room max_blocks window plan
    then (window ++ plan ∷ []) ∷ []
    else window ∷ (plan ∷ []) ∷ []
append_plan max_blocks (window ∷ next ∷ rest) plan =
    window ∷ append_plan max_blocks (next ∷ rest) plan

unfoldable pub windows_from : ℕ → List (List BlockPlan) → List BlockPlan → List (List BlockPlan)
unfolding append_plan
windows_from max_blocks windows [] = windows
windows_from max_blocks windows (plan ∷ plans) =
    windows_from max_blocks (append_plan max_blocks windows plan) plans

-- `plan_windows`; on a 64-bit target the conversion of `max_blocks` to usize is exact.
unfoldable pub plan_windows : List BlockPlan → ℕ → List (List BlockPlan)
unfolding windows_from
plan_windows plans max_blocks = windows_from max_blocks [] plans
