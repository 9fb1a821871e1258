-- ===== src/Tests/Plans.antt =====
-- Plans and windows of parseon-core/src/scheduler.rs and parseon-core/src/worker/prepare.rs at concrete inputs.
use parseon.Common.{
  ℕ, ◌≡◌, refl, ◌↔◌, true, List, [], ◌∷◌, arith, ◌≤◌, ◌<◌, In, All, u64_max, inl, inr,
}
use mathlib.Core.List.{flatten}
use parseon.Common.Ordered.{push_entry}
use parseon.Monitor.{Monitor, next_block, needs_block}
use parseon.Scheduler.{BlockPlan, plan_blocks}
use parseon.Scheduler.Plans.{
  monitors_at, wanting, AreAscending, monitors_at-plan_blocks, plan_blocks-AreAscending,
}
use parseon.Scheduler.Indices.{Ascends, monitors_at-Ascends}
use parseon.Scheduler.Coverage.{IsNext, planned_iff, planned_needs_block}
use parseon.Worker.Windows.{plan_windows}
use parseon.Worker.Windows.Runs.{IsWindow, flatten-plan_windows, plan_windows-IsWindow}
use parseon.Fixtures.{call_monitor, event_monitor}

abbrev both : List Monitor
both = call_monitor ∷ event_monitor ∷ []

abbrev plan : ℕ → List ℕ → BlockPlan
plan block_number monitor_indices = record {
  block_number = block_number;
  monitor_indices = monitor_indices;
}

abbrev plans : List BlockPlan
plans = plan 10 (0 ∷ []) ∷ plan 11 (0 ∷ 1 ∷ []) ∷ []

two_plans : plan_blocks both 20 2 ≡ plans
unfolding plan_blocks push_entry
two_plans = refl

windows_of_one : plan_windows plans 1 ≡ (plan 10 (0 ∷ []) ∷ []) ∷ (plan 11 (0 ∷ 1 ∷ []) ∷ []) ∷ []
unfolding plan_windows
windows_of_one = refl

monitors_at-plan_blocks_example : monitors_at 11 (plan_blocks both 20 2) ≡ wanting 0 both 20 2 11
monitors_at-plan_blocks_example = monitors_at-plan_blocks both 20 2 11

plan_blocks-AreAscending_example : AreAscending 0 (plan_blocks both 20 2)
plan_blocks-AreAscending_example = plan_blocks-AreAscending both 20 2

planned_iff_example : In 1 (monitors_at 11 (plan_blocks both 20 2)) ↔ IsNext event_monitor 20 2 11
planned_iff_example = planned_iff both 20 2 11 1 event_monitor refl (omega arith) (omega arith)

is_planned : In 1 (monitors_at 11 (plan_blocks both 20 2))
unfolding plan_blocks monitors_at push_entry
is_planned = inr (inl refl)

starts : event_monitor.start_block ≤ next_block event_monitor
unfolding next_block
starts = omega arith

in_range : next_block event_monitor < u64_max
unfolding next_block
in_range = omega arith

planned_needs_block_example : (needs_block event_monitor 11 ≡ true) × (11 ≤ 20)
planned_needs_block_example =
    planned_needs_block both 20 2 11 1 event_monitor refl is_planned refl refl starts in_range

flatten-plan_windows_example : flatten (plan_windows plans 1) ≡ plans
flatten-plan_windows_example = flatten-plan_windows plans 1

one : 0 < 1
one = omega arith

plan_windows-IsWindow_example : All (IsWindow 1) (plan_windows plans 1)
plan_windows-IsWindow_example = plan_windows-IsWindow plans 1 one

monitors_at-Ascends_example : Ascends 0 (monitors_at 11 (plan_blocks both 20 2))
monitors_at-Ascends_example = monitors_at-Ascends both 20 2 11
