-- ===== src/Worker/Polls.antt =====
-- The commits of `run_once` of parseon-core/src/worker/mod.rs: in the order of the plans, without a gap.
use parseon.Common.{
  ℕ, ◌+◌, ◌≡◌, refl, sym, ap, subst, ◌∙◌, Bool, true, false, Option, none, some, List, [], ◌∷◌,
  ◌++◌, map, is_empty, arith, Result, ok, err, if◌then◌else◌,
}
use mathlib.Core.List.{append-nil, map-append, flatten}
use parseon.Model.{BlockNumber, next}
use parseon.Monitor.{Monitor}
use parseon.Scheduler.{BlockPlan, plan_blocks}
use parseon.Index.{MonitorIndex, new_index}
use parseon.Ports.Source.{LogQuery}
use parseon.Errors.{Error}
use parseon.Worker.Windows.{plan_windows}
use parseon.Worker.Windows.Runs.{flatten-plan_windows}
use parseon.Worker.Query.{log_query}
use parseon.Worker.Effects.{Ports, World, Poll, Stop, pure, try, on_cache, check, continue, ◌>>=◌}
use parseon.Worker.Prepare.{
  PreparedCalls, PreparedBlock, prepare_calls, prepare_all, prepare_event_window, finish_prepared,
  group_logs,
}
use parseon.Worker.Commit.{Progress, commit_prepared}
use parseon.Worker.Order.{
  Key, plan_key, Runs, Runs-bind, Runs-silent, check-silent, Commits, commit_prepared-Runs,
}
use parseon.Worker.Ready.{
  AreBlocks, block_key, finish_prepared-key, on_cache-plan, Yields, Yields-seq,
  prepare_event_window-AreBlocks,
}
use parseon.Worker.Run.{
  WorkerConfig, commit_all, prepare_block, run_calls, run_window, run_windows, finish, poll_result,
  idle_end, run_active, run_idle, run_loaded, run_once,
}

is_empty-eq : {A : Type 0} (xs : List A) → is_empty xs ≡ true → xs ≡ []
is_empty-eq [] e = refl
is_empty-eq (x ∷ xs) e = absurd (ground arith)

Runs-if :
    {C A : Type 0} (todo : List Key) (b : Bool) (m n : Poll C A)
    → (b ≡ true → Runs todo m)
    → (b ≡ false → Runs todo n)
    → Runs todo (if b then m else n)
Runs-if todo true m n on off = on refl
Runs-if todo false m n on off = off refl

-- What a step returned when the poll went on.
try-ok :
    {C A : Type 0} (r : Result Error A) (a : A) (w v : World C) → try r w ≡ (ok a, v) → r ≡ ok a
try-ok (ok a) b w v eq = ground arith
try-ok (err e) b w v eq = ground arith

silent-continue :
    {C A B : Type 0} (f : A → Poll C B) (before : _) (out : Result Stop A × World C)
    → (out.1).committed ≡ before
    → ((a : A) (v : World C) → ((f a v).1).committed ≡ v.committed)
    → ((continue f out).1).committed ≡ before
silent-continue f before (ok a, v) same next = next a v ∙ same
silent-continue f before (err e, v) same next = same

-- A chain of steps that commit nothing commits nothing.
silent-bind :
    {C A B : Type 0} (m : Poll C A) (f : A → Poll C B)
    → ((w : World C) → ((m w).1).committed ≡ w.committed)
    → ((a : A) (w : World C) → ((f a w).1).committed ≡ w.committed)
    → (w : World C) → (((m >>= f) w).1).committed ≡ w.committed
silent-bind m f first next w = silent-continue f w.committed (m w) (first w) next

module _ {C : Type 0} (ports : Ports C) (config : WorkerConfig) (index : MonitorIndex) where
  abbrev plan_keys : List BlockPlan → List Key
  plan_keys plans = map (plan_key index) plans

  -- A block under the key of its plan, then what follows.
  commit_then-Runs :
      (b : PreparedBlock) (progress : Progress) (k : Key) (ks : List Key)
      (f : ℕ × Progress → Poll C (ℕ × Progress))
      → block_key b ≡ k
      → ((a : ℕ × Progress) → Runs ks (f a))
      → Runs (k ∷ ks) (commit_prepared ports config.chain b progress >>= f)
  commit_then-Runs b progress k ks f key next =
      subst (λ j. Runs (j ∷ ks) (commit_prepared ports config.chain b progress >>= f)) key
        (Runs-bind (block_key b ∷ []) ks (commit_prepared ports config.chain b progress) f
          (commit_prepared-Runs ports config.chain b progress) (λ a _ _ _. next a))

  commit_all-Runs :
      (plans : List BlockPlan) (blocks : List (Result Error PreparedBlock))
      → AreBlocks ports index plans blocks
      → (decoded : ℕ) (progress : Progress)
      → Runs (plan_keys plans) (commit_all ports config blocks decoded progress)
  unfolding commit_all
  commit_all-Runs [] [] are decoded progress =
      Runs-silent (pure {A = ℕ × Progress} (decoded, progress)) (λ w. refl)
  commit_all-Runs [] (b ∷ bs) are decoded progress = absurd are
  commit_all-Runs (p ∷ ps) [] are decoded progress = absurd are
  commit_all-Runs (p ∷ ps) (r ∷ rs) (here, rest) decoded progress =
      Runs-bind [] (plan_keys (p ∷ ps)) (try r) _ (Runs-silent (try r) (λ w. refl)) (λ b w v eq.
        commit_then-Runs b progress (plan_key index p) (plan_keys ps) _ (here b (try-ok r b w v eq))
          (λ (count, moved). commit_all-Runs ps rs rest (decoded + count) moved))

  try-Yields :
      {A : Type 0} (P : A → Type 0) (r : Result Error A)
      → ((a : A) → r ≡ ok a → P a)
      → Yields P (try {C = C} r)
  try-Yields P (ok a) h w b e = let same : a ≡ b = ground arith in subst P same (h a refl)
  try-Yields P (err x) h w b e = absurd (ground (arith, e))

  prepare_block-key :
      (plan : BlockPlan)
      → Yields (λ b. block_key b ≡ plan_key index plan) (prepare_block ports config index plan)
  unfolding prepare_block
  prepare_block-key plan =
      Yields-seq (λ r. (c : PreparedCalls) → r ≡ ok c → c.plan ≡ plan)
        (λ b. block_key b ≡ plan_key index plan) (on_cache (prepare_calls ports index plan))
        (λ calls. try calls >>= λ ready. try (finish_prepared ports index ready []))
        (λ w r e. on_cache-plan ports index plan w r e)
        (λ calls good.
          Yields-seq (λ c. c.plan ≡ plan) (λ b. block_key b ≡ plan_key index plan) (try calls)
            (λ ready. try (finish_prepared ports index ready []))
            (try-Yields (λ c. c.plan ≡ plan) calls good)
            (λ ready same.
              try-Yields (λ b. block_key b ≡ plan_key index plan)
                (finish_prepared ports index ready [])
                (λ b e. finish_prepared-key ports index ready [] b e ∙ ap (plan_key index) same)))

  prepare_block-silent :
      (plan : BlockPlan) (w : World C)
      → ((prepare_block ports config index plan w).1).committed ≡ w.committed
  unfolding prepare_block
  prepare_block-silent plan w =
      silent-bind (on_cache (prepare_calls ports index plan))
        (λ calls. try calls >>= λ ready. try (finish_prepared ports index ready [])) (λ v. refl)
        (λ calls v.
          silent-bind (try calls) (λ ready. try (finish_prepared ports index ready [])) (λ u. refl)
            (λ ready u. refl) v)
        w

  -- Preparing a window commits nothing.
  prepare_all-silent :
      (plans : List BlockPlan) (w : World C)
      → ((prepare_all ports index plans w).1).committed ≡ w.committed
  unfolding prepare_all
  prepare_all-silent [] w = refl
  prepare_all-silent (plan ∷ plans) w =
      silent-bind (on_cache (prepare_calls ports index plan))
        (λ r. prepare_all ports index plans >>= λ rest. pure (r ∷ rest)) (λ v. refl)
        (λ r v.
          silent-bind (prepare_all ports index plans) (λ rest. pure (r ∷ rest))
            (prepare_all-silent plans) (λ rest u. refl) v)
        w

  prepare_event_window-silent :
      (plans : List BlockPlan) (query : LogQuery) (w : World C)
      → ((prepare_event_window ports index plans query w).1).committed ≡ w.committed
  unfolding prepare_event_window
  prepare_event_window-silent plans query w =
      silent-bind (prepare_all ports index plans) _ (prepare_all-silent plans)
        (λ calls v.
          silent-bind (try (ports.fetch_logs query)) _ (λ u. refl)
            (λ logs u.
              silent-bind (try (group_logs query.range logs [])) _ (λ t. refl) (λ by_block t. refl)
                u)
            v)
        w

  run_calls-Runs :
      (plans : List BlockPlan) (decoded : ℕ) (progress : Progress)
      → Runs (plan_keys plans) (run_calls ports config index plans decoded progress)
  unfolding run_calls
  run_calls-Runs [] decoded progress =
      Runs-bind [] [] check _ (Runs-silent check check-silent)
        (λ _ _ _ _. Runs-silent (pure {A = ℕ × Progress} (decoded, progress)) (λ w. refl))
  run_calls-Runs (plan ∷ plans) decoded progress =
      Runs-bind [] (plan_keys (plan ∷ plans)) check _ (Runs-silent check check-silent) (λ _ _ _ _.
        Runs-bind [] (plan_keys (plan ∷ plans)) (prepare_block ports config index plan)
          (λ b. commit_prepared ports config.chain b progress >>= λ (count, moved).
            run_calls ports config index plans (decoded + count) moved)
          (Runs-silent (prepare_block ports config index plan) (prepare_block-silent plan))
          (λ b w v eq.
            commit_then-Runs b progress (plan_key index plan) (plan_keys plans)
              (λ (count, moved). run_calls ports config index plans (decoded + count) moved)
              (prepare_block-key plan w b (ap (λ x. x.0) eq))
              (λ (count, moved). run_calls-Runs plans (decoded + count) moved)))

  run_window-Runs :
      (plans : List BlockPlan) (query : Option LogQuery) (decoded : ℕ) (progress : Progress)
      → Runs (plan_keys plans) (run_window ports config index plans query decoded progress)
  unfolding run_window
  run_window-Runs plans none decoded progress = run_calls-Runs plans decoded progress
  run_window-Runs plans (some query) decoded progress =
      Runs-bind [] (plan_keys plans) check _ (Runs-silent check check-silent) (λ _ _ _ _.
        Runs-bind [] (plan_keys plans) (prepare_event_window ports index plans query) _
          (Runs-silent (prepare_event_window ports index plans query)
            (prepare_event_window-silent plans query))
          (λ blocks w v eq.
            commit_all-Runs plans blocks
              (prepare_event_window-AreBlocks ports index plans query w blocks (ap (λ x. x.0) eq))
              decoded progress))

  run_windows-Runs :
      (windows : List (List BlockPlan)) (decoded : ℕ) (progress : Progress)
      → Runs (plan_keys (flatten windows)) (run_windows ports config index windows decoded progress)
  unfolding run_windows flatten
  run_windows-Runs [] decoded progress =
      Runs-silent (pure {A = ℕ × Progress} (decoded, progress)) (λ w. refl)
  run_windows-Runs (window ∷ windows) decoded progress =
      subst (λ k. Runs k (run_windows ports config index (window ∷ windows) decoded progress))
        (sym (map-append (plan_key index) window (flatten windows)))
        (Runs-bind [] (plan_keys window ++ plan_keys (flatten windows))
          (try (log_query window index)) _ (Runs-silent (try (log_query window index)) (λ w. refl))
          (λ query _ _ _.
            Runs-bind (plan_keys window) (plan_keys (flatten windows))
              (run_window ports config index window query decoded progress) _
              (run_window-Runs window query decoded progress)
              (λ (d, p) _ _ _. run_windows-Runs windows d p)))

  -- The plans that a poll made: none without active monitors.
  abbrev pub poll_plans : BlockNumber → List BlockPlan
  poll_plans finalized_head = plan_blocks index.monitors finalized_head config.batch_size

  finish-silent :
      (finalized_head : BlockNumber) (p : Progress) (d : ℕ) (w : World C)
      → (((finish ports config index.monitors finalized_head p >>= λ _.
            pure (poll_result finalized_head d))
          w).1
        ).committed
        ≡ w.committed
  unfolding finish
  finish-silent finalized_head p d w = refl

  run_active-Runs :
      (finalized_head : BlockNumber)
      → Runs (plan_keys (poll_plans finalized_head)) (run_active ports config index finalized_head)
  unfolding run_active
  run_active-Runs finalized_head =
      subst (λ k. Runs k (run_active ports config index finalized_head)) whole
        (Runs-bind
          (plan_keys (flatten (plan_windows (poll_plans finalized_head) config.batch_size))) []
          (run_windows ports config index
            (plan_windows (poll_plans finalized_head) config.batch_size) 0
            (map (λ m. m.cursor) index.monitors))
          _
          (run_windows-Runs (plan_windows (poll_plans finalized_head) config.batch_size) 0
            (map (λ m. m.cursor) index.monitors))
          (λ (d, p) _ _ _.
            Runs-silent
              (finish ports config index.monitors finalized_head p >>= λ _.
                pure (poll_result finalized_head d))
              (finish-silent finalized_head p d)))
    where
      whole :
          plan_keys (flatten (plan_windows (poll_plans finalized_head) config.batch_size)) ++ []
          ≡ plan_keys (poll_plans finalized_head)
      whole =
          append-nil _
          ∙ ap plan_keys (flatten-plan_windows (poll_plans finalized_head) config.batch_size)

  -- The poll of an index, idle or active.
  run_loaded-Runs :
      (finalized_head : BlockNumber)
      → Runs (plan_keys (poll_plans finalized_head)) (run_loaded ports config index finalized_head)
  unfolding run_loaded run_idle plan_blocks
  run_loaded-Runs finalized_head =
      Runs-if (plan_keys (poll_plans finalized_head)) (is_empty index.monitors)
        (run_idle ports config finalized_head) (run_active ports config index finalized_head)
        (λ e.
          subst
            (λ ms.
              Runs (plan_keys (plan_blocks ms finalized_head config.batch_size))
                (run_idle ports config finalized_head))
            (sym (is_empty-eq index.monitors e))
            (Runs-bind [] [] check _ (Runs-silent check check-silent)
              (λ _ _ _ _. Runs-silent (idle_end ports config finalized_head) (λ w. refl))))
        (λ e. run_active-Runs finalized_head)

-- A poll that loads the monitors and the head, and builds its index, commits a first part of its plans in
-- their order: each block with exactly the monitors that are planned for it, and all of them if the poll
-- was neither cancelled nor failed. Nothing else is committed, and a committed block is never undone.
pub run_once-Commits :
    {C : Type 0} (ports : Ports C) (config : WorkerConfig) (monitors : List Monitor)
    (finalized_head : BlockNumber) (index : MonitorIndex)
    → ports.finalized_head ≡ ok finalized_head
    → ports.load_monitors ≡ ok monitors
    → new_index ports.alloy monitors ≡ ok index
    → (w : World C)
    → Commits w.committed
        (map (plan_key index) (plan_blocks index.monitors finalized_head config.batch_size))
        (run_once ports config w)
unfolding run_once
run_once-Commits {C} ports config monitors finalized_head index head loaded built =
    Runs-bind [] todo check _ (Runs-silent check check-silent) (λ _ _ _ _.
      Runs-bind [] todo (try ports.finalized_head) _
        (Runs-silent (try ports.finalized_head) (λ w. refl))
        (λ h _ _ e. Runs-bind [] todo check _ (Runs-silent check check-silent) (λ _ _ _ _.
          Runs-bind [] todo (try ports.load_monitors) _
            (Runs-silent (try ports.load_monitors) (λ w. refl))
            (λ ms _ _ e'.
              Runs-bind [] todo (try (new_index ports.alloy ms)) _
                (Runs-silent (try (new_index ports.alloy ms)) (λ w. refl))
                (λ i _ _ e''.
                  let at : h ≡ finalized_head =
                    ground (arith, try-ok ports.finalized_head h _ _ e, head) in
                  let these : ms ≡ monitors =
                    ground (arith, try-ok ports.load_monitors ms _ _ e', loaded) in
                  let made : new_index ports.alloy monitors ≡ ok i =
                    subst (λ x. new_index ports.alloy x ≡ ok i) these
                      (try-ok (new_index ports.alloy ms) i _ _ e'') in
                  let same : i ≡ index = ground (arith, made, built) in
                  subst (λ x. Runs todo (run_loaded ports config x h)) (sym same)
                    (subst (λ x. Runs todo (run_loaded ports config index x)) (sym at)
                      (run_loaded-Runs ports config index finalized_head)))))))
  where
    todo : List Key
    todo = map (plan_key index) (plan_blocks index.monitors finalized_head config.batch_size)
