-- ===== src/Worker/Windows/Runs.antt =====
-- The windows of parseon-core/src/worker/prepare.rs: together they are the plans, in order, and each is
-- a run of consecutive blocks that is not too long.
use parseon.Common.{
  ℕ, ◌+◌, ◌≤◌, ◌<◌, ◌≡◌, refl, sym, inl, inr, true, List, [], ◌∷◌, ◌++◌, arith, length,
  length-append, last?, All, Bool-cases,
}
use mathlib.Core.List.{flatten, append_assoc, append-nil}
use parseon.Scheduler.{BlockPlan}
use parseon.Worker.Windows.{follows, has_room, append_plan, windows_from, plan_windows}

flatten-append_plan :
    (max_blocks : ℕ) (ws : List (List BlockPlan)) (plan : BlockPlan)
    → flatten (append_plan max_blocks ws plan) ≡ flatten ws ++ plan ∷ []
unfolding append_plan flatten
flatten-append_plan max_blocks [] plan = refl
flatten-append_plan max_blocks (w ∷ []) plan =
    ground (arith, append-nil w, append-nil (w ++ plan ∷ []), append_assoc w [] (plan ∷ []))
flatten-append_plan max_blocks (w ∷ v ∷ ws) plan =
    rw (flatten-append_plan max_blocks (v ∷ ws) plan)
      (sym (append_assoc w (v ++ flatten ws) (plan ∷ [])))

flatten-windows_from :
    (max_blocks : ℕ) (ws : List (List BlockPlan)) (plans : List BlockPlan)
    → flatten (windows_from max_blocks ws plans) ≡ flatten ws ++ plans
unfolding windows_from
flatten-windows_from max_blocks ws [] = rw append-nil
flatten-windows_from max_blocks ws (p ∷ ps) =
    rw (flatten-windows_from max_blocks (append_plan max_blocks ws p) ps, flatten-append_plan)
      (append_assoc (flatten ws) (p ∷ []) ps)

-- No plan is lost, repeated or moved by the cut into windows.
pub flatten-plan_windows :
    (plans : List BlockPlan) (max_blocks : ℕ) → flatten (plan_windows plans max_blocks) ≡ plans
unfolding plan_windows flatten
flatten-plan_windows plans max_blocks = flatten-windows_from max_blocks [] plans

-- Consecutive block numbers.
abbrev pub IsRun : List BlockPlan → Type 0
IsRun [] = Unit
IsRun (p ∷ []) = Unit
IsRun (p ∷ q ∷ ps) = (q.block_number ≡ p.block_number + 1) × IsRun (q ∷ ps)

abbrev pub IsWindow : ℕ → List BlockPlan → Type 0
IsWindow max_blocks w = (0 < length w) × (length w ≤ max_blocks) × IsRun w

IsRun-append :
    (w : List BlockPlan) (plan : BlockPlan)
    → IsRun w
    → follows (last? w) plan ≡ true
    → IsRun (w ++ plan ∷ [])
IsRun-append [] plan r h = tt
IsRun-append (p ∷ []) plan r h = ground arith
IsRun-append (p ∷ q ∷ ps) plan r h = (r.0, IsRun-append (q ∷ ps) plan r.1 h)

All-append_plan :
    (max_blocks : ℕ) (ws : List (List BlockPlan)) (plan : BlockPlan)
    → 0 < max_blocks
    → All (IsWindow max_blocks) ws
    → All (IsWindow max_blocks) (append_plan max_blocks ws plan)
unfolding append_plan
All-append_plan max_blocks [] plan pos a = ((omega arith, omega arith, tt), tt)
All-append_plan max_blocks (w ∷ []) plan pos a = elim (Bool-cases (has_room max_blocks w plan)) [
  | inl e ↦
      let room : length w < max_blocks = ground arith in
      let longer = length-append w (plan ∷ []) in
      rw e ((omega arith, omega arith, IsRun-append w plan a.0.2 (ground arith)), tt)
  | inr e ↦ rw e (a.0, ((omega arith, omega arith, tt), tt))
]
All-append_plan max_blocks (w ∷ v ∷ ws) plan pos a =
    (a.0, All-append_plan max_blocks (v ∷ ws) plan pos a.1)

All-windows_from :
    (max_blocks : ℕ) (ws : List (List BlockPlan)) (plans : List BlockPlan)
    → 0 < max_blocks
    → All (IsWindow max_blocks) ws
    → All (IsWindow max_blocks) (windows_from max_blocks ws plans)
unfolding windows_from
All-windows_from max_blocks ws [] pos a = a
All-windows_from max_blocks ws (p ∷ ps) pos a =
    All-windows_from max_blocks (append_plan max_blocks ws p) ps pos
      (All-append_plan max_blocks ws p pos a)

-- Each window holds a plan at least and `max_blocks` at most, of consecutive blocks.
pub plan_windows-IsWindow :
    (plans : List BlockPlan) (max_blocks : ℕ)
    → 0 < max_blocks
    → All (IsWindow max_blocks) (plan_windows plans max_blocks)
unfolding plan_windows
plan_windows-IsWindow plans max_blocks pos = All-windows_from max_blocks [] plans pos tt
