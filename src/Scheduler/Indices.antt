-- ===== src/Scheduler/Indices.antt =====
-- The monitor indices of the plans of parseon-core/src/scheduler.rs are in the order that the binary search of
-- parseon-core/src/indexer.rs asks for.
use parseon.Common.{ℕ, suc, ◌≤◌, sym, subst, inl, inr, List, [], ◌∷◌, arith, Bool-cases}
use parseon.Model.{BlockNumber}
use parseon.Monitor.{Monitor}
use parseon.Scheduler.{plan_blocks}
use parseon.Scheduler.Plans.{wants, wanting, monitors_at, monitors_at-plan_blocks}

-- Strictly ascending from a bound.
abbrev pub Ascends : ℕ → List ℕ → Type 0
Ascends lo [] = Unit
Ascends lo (i ∷ is) = (lo ≤ i) × Ascends (suc i) is

Ascends-suc : (lo : ℕ) (is : List ℕ) → Ascends (suc lo) is → Ascends lo is
Ascends-suc lo [] h = tt
Ascends-suc lo (i ∷ is) (here, rest) = (omega arith, rest)

wanting-Ascends :
    (i : ℕ) (ms : List Monitor) (head : BlockNumber) (batch b : ℕ)
    → Ascends i (wanting i ms head batch b)
unfolding wanting
wanting-Ascends i [] head batch b = tt
wanting-Ascends i (m ∷ ms) head batch b =
    let rest = wanting-Ascends (suc i) ms head batch b in
    elim (Bool-cases (wants m head batch b)) [
      | inl wanted ↦ rw wanted (omega arith, rest)
      | inr unwanted ↦ rw unwanted (Ascends-suc i (wanting (suc i) ms head batch b) rest)
    ]

-- The monitor indices of a planned block are strictly ascending, so that a binary search finds exactly
-- those that are there.
pub monitors_at-Ascends :
    (ms : List Monitor) (head : BlockNumber) (batch b : ℕ)
    → Ascends 0 (monitors_at b (plan_blocks ms head batch))
monitors_at-Ascends ms head batch b =
    subst (Ascends 0) (sym (monitors_at-plan_blocks ms head batch b))
      (wanting-Ascends 0 ms head batch b)
