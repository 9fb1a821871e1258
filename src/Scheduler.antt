-- ===== src/Scheduler.antt =====
-- parseon-core/src/scheduler.rs: the blocks that a poll fetches, each with the monitors it is for.
pub mod Plans
pub mod Coverage
pub mod Indices
use parseon.Common.{ℕ, zero, suc, ◌+◌, ◌-◌, min, List, [], ◌∷◌, map, saturating_add, unwrap_or}
use parseon.Common.Ordered.{Entries, push_entry}
use parseon.Model.{BlockNumber}
use parseon.Monitor.{Monitor, next_block}

pub record BlockPlan : Type 0 where
  pub block_number : BlockNumber
  pub monitor_indices : List ℕ

-- The last block that a poll plans for a monitor.
unfoldable pub last_block : Monitor → BlockNumber → ℕ → BlockNumber
unfolding next_block
last_block m finalized_head batch_size =
    min (min (unwrap_or m.end_block finalized_head) finalized_head)
      (saturating_add (next_block m) (batch_size - 1))

-- The number of blocks of `from..=to`.
unfoldable pub rounds : Monitor → BlockNumber → ℕ → ℕ
unfolding last_block
rounds m finalized_head batch_size = last_block m finalized_head batch_size + 1 - next_block m

-- The loop `for block_number in from..=to`, by the number of its rounds.
unfoldable pub want_range : ℕ → BlockNumber → ℕ → Entries ℕ → Entries ℕ
want_range zero from monitor_index wanted = wanted
want_range (suc rounds) from monitor_index wanted =
    want_range rounds (from + 1) monitor_index (push_entry from monitor_index wanted)

-- The loop over the monitors, from an index.
unfoldable pub want_all : ℕ → List Monitor → BlockNumber → ℕ → Entries ℕ → Entries ℕ
unfolding want_range rounds
want_all monitor_index [] finalized_head batch_size wanted = wanted
want_all monitor_index (m ∷ ms) finalized_head batch_size wanted =
    want_all (suc monitor_index) ms finalized_head batch_size
      (want_range (rounds m finalized_head batch_size) (next_block m) monitor_index wanted)

abbrev pub to_plan : ℕ × List ℕ → BlockPlan
to_plan (block_number, monitor_indices) = record {
  block_number = block_number;
  monitor_indices = monitor_indices;
}

-- `plan_blocks`
unfoldable pub plan_blocks : List Monitor → BlockNumber → ℕ → List BlockPlan
unfolding want_all
plan_blocks monitors finalized_head batch_size =
    map to_plan (want_all 0 monitors finalized_head batch_size [])
