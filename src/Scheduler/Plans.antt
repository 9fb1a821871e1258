-- ===== src/Scheduler/Plans.antt =====
-- What `plan_blocks` of parseon-core/src/scheduler.rs plans: each block once, in order, with exactly
-- the monitors whose next blocks include it.
use parseon.Common.{
  ℕ, zero, suc, ◌+◌, ◌≤◌, ◌<◌, ◌≡◌, refl, sym, ◌∙◌, Bool, ◌&&◌, List, [], ◌∷◌, ◌++◌, map, arith,
  leb, ltb, eqb, if◌then◌else◌, length,
}
use mathlib.Core.List.{append_assoc, append-nil}
use parseon.Common.Ordered.{
  Entries, push_entry, entry_at, IsOrdered, push_entry-IsOrdered, entry_at-push_entry,
}
use parseon.Model.{BlockNumber}
use parseon.Monitor.{Monitor, next_block}
use parseon.Scheduler.{BlockPlan, last_block, rounds, want_range, want_all, to_plan, plan_blocks}

-- Whether a poll wants a block for a monitor.
abbrev pub wants : Monitor → BlockNumber → ℕ → BlockNumber → Bool
wants m head batch b = leb (next_block m) b && leb b (last_block m head batch)

-- The indices, from a first one, of the monitors that want the block.
unfoldable pub wanting : ℕ → List Monitor → BlockNumber → ℕ → BlockNumber → List ℕ
wanting i [] head batch b = []
wanting i (m ∷ ms) head batch b =
    let rest = wanting (suc i) ms head batch b in if wants m head batch b then i ∷ rest else rest

-- The monitors planned for a block.
unfoldable pub monitors_at : BlockNumber → List BlockPlan → List ℕ
monitors_at b [] = []
monitors_at b (p ∷ ps) = if eqb p.block_number b then p.monitor_indices else monitors_at b ps

want_range-IsOrdered :
    (n from i : ℕ) (w : Entries ℕ) → IsOrdered 0 w → IsOrdered 0 (want_range n from i w)
unfolding want_range
want_range-IsOrdered zero from i w o = o
want_range-IsOrdered (suc n) from i w o =
    want_range-IsOrdered n (from + 1) i _ (push_entry-IsOrdered 0 from i w (omega arith) o)

entry_at-want_range :
    (n from i b : ℕ) (w : Entries ℕ)
    → IsOrdered 0 w
    → entry_at b (want_range n from i w)
      ≡ entry_at b w ++ (if leb from b && ltb b (from + n) then i ∷ [] else [])
unfolding want_range
entry_at-want_range zero from i b w o = ground (arith, append-nil (entry_at b w))
entry_at-want_range (suc n) from i b w o = ground (
  arith,
  entry_at-want_range n (from + 1) i b (push_entry from i w)
      (push_entry-IsOrdered 0 from i w (omega arith) o),
  entry_at-push_entry from b 0 i w o,
  append-nil (entry_at b w),
  append-nil (entry_at b w ++ i ∷ []),
)

want_all-IsOrdered :
    (i : ℕ) (ms : List Monitor) (head : BlockNumber) (batch : ℕ) (w : Entries ℕ)
    → IsOrdered 0 w
    → IsOrdered 0 (want_all i ms head batch w)
unfolding want_all
want_all-IsOrdered i [] head batch w o = o
want_all-IsOrdered i (m ∷ ms) head batch w o =
    want_all-IsOrdered (suc i) ms head batch _
      (want_range-IsOrdered (rounds m head batch) (next_block m) i w o)

entry_at-want_all :
    (i : ℕ) (ms : List Monitor) (head : BlockNumber) (batch b : ℕ) (w : Entries ℕ)
    → IsOrdered 0 w
    → entry_at b (want_all i ms head batch w) ≡ entry_at b w ++ wanting i ms head batch b
unfolding want_all wanting rounds
entry_at-want_all i [] head batch b w o = sym (append-nil (entry_at b w))
entry_at-want_all i (m ∷ ms) head batch b w o = ground (
  arith,
  entry_at-want_all (suc i) ms head batch b (want_range (rounds m head batch) (next_block m) i w)
      (want_range-IsOrdered (rounds m head batch) (next_block m) i w o),
  entry_at-want_range (rounds m head batch) (next_block m) i b w o,
  append_assoc (entry_at b w) (i ∷ []) (wanting (suc i) ms head batch b),
  append-nil (entry_at b w),
)

monitors_at-map : (b : ℕ) (w : Entries ℕ) → monitors_at b (map to_plan w) ≡ entry_at b w
unfolding monitors_at entry_at
monitors_at-map b [] = refl
monitors_at-map b ((j, vs) ∷ w) = ground (arith, monitors_at-map b w)

-- A block is planned with exactly the monitors that want it, in the order of their indices, and is
-- not planned if no monitor wants it.
pub monitors_at-plan_blocks :
    (ms : List Monitor) (head : BlockNumber) (batch b : ℕ)
    → monitors_at b (plan_blocks ms head batch) ≡ wanting 0 ms head batch b
unfolding plan_blocks wanting entry_at
monitors_at-plan_blocks ms head batch b =
    monitors_at-map b (want_all 0 ms head batch []) ∙ entry_at-want_all 0 ms head batch b [] tt

-- Block numbers strictly ascending from a bound, each with a monitor at least.
abbrev pub AreAscending : ℕ → List BlockPlan → Type 0
AreAscending lo [] = Unit
AreAscending lo (p ∷ ps) =
    (lo ≤ p.block_number) × (0 < length p.monitor_indices) × AreAscending (suc p.block_number) ps

AreAscending-map : (lo : ℕ) (w : Entries ℕ) → IsOrdered lo w → AreAscending lo (map to_plan w)
AreAscending-map lo [] o = tt
AreAscending-map lo ((j, []) ∷ w) o = absurd o
AreAscending-map lo ((j, v ∷ vs) ∷ w) o = (o.0, omega arith, AreAscending-map (suc j) w o.1)

-- The plans are in strictly ascending block order, and none is without a monitor.
pub plan_blocks-AreAscending :
    (ms : List Monitor) (head : BlockNumber) (batch : ℕ)
    → AreAscending 0 (plan_blocks ms head batch)
unfolding plan_blocks
plan_blocks-AreAscending ms head batch =
    AreAscending-map 0 _ (want_all-IsOrdered 0 ms head batch [] tt)
