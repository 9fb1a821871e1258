-- ===== src/Monitor.antt =====
-- parseon-core/src/monitor.rs: a monitor, its block range and its progress.
use parseon.Common.{Bool, not, ◌&&◌, Option, leb, ltb, is_none_or}
use parseon.Model.{Chain, Target, Cursor, MonitorId, BlockNumber, next}
use parseon.Filter.Ast.{Filter}

pub record Monitor : Type 0 where
  pub id : MonitorId
  pub chain : Chain
  pub target : Target
  pub start_block : BlockNumber
  pub end_block : Option BlockNumber
  pub cursor : Cursor
  pub completed : Bool
  pub enabled : Bool
  pub filter : Filter

-- `Monitor::covers`
unfoldable pub covers : Monitor → BlockNumber → Bool
covers m block_number =
    m.enabled
    && not m.completed
    && leb m.start_block block_number
    && is_none_or m.end_block (λ end. leb block_number end)

-- `Monitor::next_block`
unfoldable pub next_block : Monitor → BlockNumber
unfolding next
next_block m = next m.cursor m.start_block

-- `Monitor::needs_block`
unfoldable pub needs_block : Monitor → BlockNumber → Bool
unfolding covers
needs_block m block_number =
    covers m block_number && is_none_or m.cursor (λ cursor. ltb cursor block_number)
