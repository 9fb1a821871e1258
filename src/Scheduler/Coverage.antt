-- ===== src/Scheduler/Coverage.antt =====
-- A planned monitor of parseon-core/src/scheduler.rs is one that needs the block, in the sense of
-- `Monitor::needs_block`.
use parseon.Common.{
  ℕ, zero, suc, ◌+◌, ◌≤◌, ◌<◌, ◌≡◌, ◌↔◌, refl, sym, subst, inl, inr, true, false, List, [], ◌∷◌,
  arith, In, get_elem?, none, some, Option, u64_max, Bool-cases, min, ◌-◌, unwrap_or,
  saturating_add,
}
use parseon.Model.{BlockNumber, Cursor, next}
use parseon.Monitor.{Monitor, next_block, needs_block}
use parseon.Scheduler.{last_block, plan_blocks}
use parseon.Scheduler.Plans.{wants, wanting, monitors_at, monitors_at-plan_blocks}

-- The monitor at an index, which the block is wanted for.
abbrev Wanted : ℕ → ℕ → List Monitor → BlockNumber → ℕ → BlockNumber → Type 0
Wanted first i ms head batch b =
    (j : ℕ) × (m : Monitor) × (i ≡ first + j)
    × (get_elem? ms j ≡ some m)
    × (wants m head batch b ≡ true)

wanting_sound :
    (first i : ℕ) (ms : List Monitor) (head : BlockNumber) (batch b : ℕ)
    → In i (wanting first ms head batch b)
    → Wanted first i ms head batch b
unfolding wanting
wanting_sound first i [] head batch b h = absurd h
wanting_sound first i (m ∷ ms) head batch b h = elim (Bool-cases (wants m head batch b)) [
  | inr unwanted ↦ shift (wanting_sound (suc first) i ms head batch b (rw unwanted at h))
  | inl wanted ↦
      let split : In i (first ∷ wanting (suc first) ms head batch b) = rw wanted at h in
      elim split [
        | inl e ↦ (0, m, omega arith, refl, wanted)
        | inr later ↦ shift (wanting_sound (suc first) i ms head batch b later)
      ]
]
  where
    shift : Wanted (suc first) i ms head batch b → Wanted first i (m ∷ ms) head batch b
    shift (j, n, a, c, d) = (suc j, n, omega arith, c, d)

wanting_complete :
    (first i j : ℕ) (ms : List Monitor) (m : Monitor) (head : BlockNumber) (batch b : ℕ)
    → i ≡ first + j
    → get_elem? ms j ≡ some m
    → wants m head batch b ≡ true
    → In i (wanting first ms head batch b)
unfolding wanting
wanting_complete first i j [] m head batch b q h w = absurd (cc)
wanting_complete first i zero (n ∷ ms) m head batch b q h w =
    let same : n ≡ m = ground arith in rw (same, w) (inl (omega arith))
wanting_complete first i (suc j) (n ∷ ms) m head batch b q h w =
    let later = wanting_complete (suc first) i j ms m head batch b (omega arith) h w in
    elim (Bool-cases (wants n head batch b)) [ inl e ↦ rw e (inr later) | inr e ↦ rw e later ]

-- A planned block, by the bounds that the loop computes.
planned-last_block :
    (ms : List Monitor) (head : BlockNumber) (batch b i : ℕ) (m : Monitor)
    → get_elem? ms i ≡ some m
    → In i (monitors_at b (plan_blocks ms head batch))
      ↔ ((next_block m ≤ b) × (b ≤ last_block m head batch))
planned-last_block ms head batch b i m e = (to, from)
  where
    to :
        In i (monitors_at b (plan_blocks ms head batch))
        → (next_block m ≤ b) × (b ≤ last_block m head batch)
    to h =
        let (j, n, q, e', w) =
          wanting_sound 0 i ms head batch b (rw monitors_at-plan_blocks at h) in
        let same : n ≡ m = ground arith in ground arith

    from :
        (next_block m ≤ b) × (b ≤ last_block m head batch)
        → In i (monitors_at b (plan_blocks ms head batch))
    from (lo, hi) =
        rw monitors_at-plan_blocks
          (wanting_complete 0 i i ms m head batch b (omega arith) e (ground arith))

-- The block after a cursor, or the first block of a monitor that has none.
abbrev pub first_after : Cursor → BlockNumber → BlockNumber
first_after none start_block = start_block
first_after (some cursor) start_block = min (cursor + 1) u64_max

-- A block up to the end, if there is one.
abbrev pub Until : Option BlockNumber → BlockNumber → Type 0
Until none b = Unit
Until (some end) b = b ≤ end

-- The next blocks of a monitor: from the one after its cursor on, as many as a batch has, up to the end of the monitor
-- and the finalized head.
abbrev pub IsNext : Monitor → BlockNumber → ℕ → BlockNumber → Type 0
IsNext m head batch b =
    (first_after m.cursor m.start_block ≤ b)
    × (b < first_after m.cursor m.start_block + batch)
    × (b ≤ head)
    × Until m.end_block b

first_after-eq : (m : Monitor) → next_block m ≡ first_after m.cursor m.start_block
unfolding next_block next
first_after-eq m = from m.cursor
  where
    from : (cursor : Cursor) → next cursor m.start_block ≡ first_after cursor m.start_block
    from none = refl
    from (some c) = ground arith

-- The bound of the loop.
bound_iff :
    (first head batch b : ℕ) (end : Option BlockNumber)
    → 0 < batch
    → head ≤ u64_max
    → (b ≤ min (min (unwrap_or end head) head) (saturating_add first (batch - 1)))
      ↔ ((b < first + batch) × (b ≤ head) × Until end b)
bound_iff first head batch b none some_block fits = (λ h. omega arith, λ h. omega arith)
bound_iff first head batch b (some end) some_block fits = (λ h. omega arith, λ h. omega arith)

-- A poll plans a monitor for a block exactly when the block is among the next `batch_size` ones of the monitor, which
-- is not zero, from the block after its cursor, or from its first one without a cursor, and neither after its end block
-- nor after the finalized head, which is a u64.
pub planned_iff :
    (ms : List Monitor) (head : BlockNumber) (batch b i : ℕ) (m : Monitor)
    → get_elem? ms i ≡ some m
    → 0 < batch
    → head ≤ u64_max
    → In i (monitors_at b (plan_blocks ms head batch)) ↔ IsNext m head batch b
unfolding last_block
planned_iff ms head batch b i m e some_block fits =
    let first = first_after m.cursor m.start_block in
    let planned = planned-last_block ms head batch b i m e in
    let bound = bound_iff first head batch b m.end_block some_block fits in
    (
      λ h.
          let (lo, hi) = planned.0 h in
          let (within, up_to_head, up_to_end) =
            bound.0 (subst (λ n. b ≤ to n) (first_after-eq m) hi) in
          (subst (λ n. n ≤ b) (first_after-eq m) lo, within, up_to_head, up_to_end),
      λ (lo, within, up_to_head, up_to_end). planned.1 (
        subst (λ n. n ≤ b) (sym (first_after-eq m)) lo,
        subst (λ n. b ≤ to n) (sym (first_after-eq m)) (bound.1 (within, up_to_head, up_to_end)),
      ),
    )
  where
    to : ℕ → ℕ
    to first = min (min (unwrap_or m.end_block head) head) (saturating_add first (batch - 1))

-- A block that is planned for an active monitor is finalized and needed by the monitor, unless the
-- monitor's cursor is at the largest block number or below the block before its start.
pub planned_needs_block :
    (ms : List Monitor) (head : BlockNumber) (batch b i : ℕ) (m : Monitor)
    → get_elem? ms i ≡ some m
    → In i (monitors_at b (plan_blocks ms head batch))
    → m.enabled ≡ true
    → m.completed ≡ false
    → m.start_block ≤ next_block m
    → next_block m < u64_max
    → (needs_block m b ≡ true) × (b ≤ head)
unfolding needs_block last_block next_block
planned_needs_block ms head batch b i m e h on going start room =
    let (lo, hi) = (planned-last_block ms head batch b i m e).0 h in ground arith
