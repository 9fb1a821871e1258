-- ===== src/Worker/Ready.antt =====
-- What is ready to be committed, for the plans of a window of parseon-core/src/worker/prepare.rs: a block per
-- plan, in the order of the plans, each with the plan's block number and monitors or an error.
use parseon.Common.{
  ℕ, ◌≡◌, inl, inr, refl, ap, subst, ◌∙◌, Bool, true, false, some, List, [], ◌∷◌, map, get_elem?,
  arith, Result, ok, err, Result-cases, Option-cases, if◌then◌else◌,
}
use parseon.Common.Ordered.{Entries, entry_at}
use parseon.Model.{SourceLog, DecodedResult}
use parseon.Monitor.{Monitor}
use parseon.Scheduler.{BlockPlan}
use parseon.Index.{MonitorIndex}
use parseon.Index.Decode.{decode_events, decode_calls}
use parseon.Ports.Source.{LogQuery}
use parseon.Errors.{Error}
use parseon.Worker.Effects.{Ports, World, Stateful, pure, lift, try, on_cache, continue, ◌>>=◌}
use parseon.Worker.Prepare.{
  PreparedCalls, PreparedBlock, has_calls, load_block, candidates_from, hashes_at, fetch_outcomes,
  prepare_calls, prepare_all, finish_prepared, finish_all, resolve_monitors, group_logs,
  prepare_event_window,
}
use parseon.Worker.Order.{Key, plan_key}

abbrev pub block_key : PreparedBlock → Key
block_key prepared = (prepared.block_number, map some prepared.monitors)

-- The monitors of a plan, all of them known.
resolve_monitors-map :
    (index : MonitorIndex) (is : List ℕ) (ms : List Monitor)
    → resolve_monitors index is ≡ ok ms
    → map some ms ≡ map (get_elem? index.monitors) is
unfolding resolve_monitors
resolve_monitors-map index [] ms e = let same : ms ≡ [] = ground arith in ap (map some) same
resolve_monitors-map index (i ∷ is) ms e = elim (Option-cases (get_elem? index.monitors i)) [
  | inl missing ↦ absurd (ground arith)
  | inr (m, at) ↦ elim (Result-cases (resolve_monitors index is)) [
    | inr (x, fails) ↦ absurd (ground arith)
    | inl (rest, found) ↦
        let later : map some rest ≡ map (get_elem? index.monitors) is =
          resolve_monitors-map index is rest found in
        let same : m ∷ rest ≡ ms = ground (arith, e, at, found) in
        subst (λ x. map some x ≡ map (get_elem? index.monitors) (i ∷ is)) same
          (ground (arith, at, later))
  ]
]

-- What a stateful step returns satisfies `P`.
module _ {S E : Type 0} where
  abbrev pub Yields : {A : Type 0} → (A → Type 0) → Stateful S E A → Type 0
  Yields {A} P m = (s : S) (a : A) → (m s).0 ≡ ok a → P a

  pub Yields-pure : {A : Type 0} (P : A → Type 0) (a : A) → P a → Yields P (pure {S = S} {E = E} a)
  Yields-pure P a p s b e = let same : a ≡ b = ground arith in subst P same p

  continue-Yields :
      {A B : Type 0} (Q : A → Type 0) (P : B → Type 0) (f : A → Stateful S E B)
      (out : Result E A × S)
      → ((a : A) → out.0 ≡ ok a → Q a)
      → ((a : A) → Q a → Yields P (f a))
      → (b : B) → (continue f out).0 ≡ ok b
      → P b
  continue-Yields Q P f (ok a, s) first next b e = next a (first a refl) s b e
  continue-Yields Q P f (err x, s) first next b e = absurd (ground (arith, e))

  -- One step after another, which may use what the first yields.
  pub Yields-seq :
      {A B : Type 0} (Q : A → Type 0) (P : B → Type 0) (m : Stateful S E A) (f : A → Stateful S E B)
      → Yields Q m
      → ((a : A) → Q a → Yields P (f a))
      → Yields P (m >>= f)
  Yields-seq Q P m f first next s b e = continue-Yields Q P f (m s) (first s) next b e

  pub Yields-bind :
      {A B : Type 0} (P : B → Type 0) (m : Stateful S E A) (f : A → Stateful S E B)
      → ((a : A) → Yields P (f a))
      → Yields P (m >>= f)
  Yields-bind P m f next = Yields-seq (λ _. Unit {0}) P m f (λ s a e. tt) (λ a _. next a)

  pub Yields-if :
      {A : Type 0} (P : A → Type 0) (b : Bool) (m n : Stateful S E A)
      → Yields P m
      → Yields P n
      → Yields P (if b then m else n)
  Yields-if P true m n yes_m yes_n = yes_m
  Yields-if P false m n yes_m yes_n = yes_n

module _ {C : Type 0} (ports : Ports C) (index : MonitorIndex) where
  pub finish_prepared-key :
      (prepared : PreparedCalls) (logs : List SourceLog) (block : PreparedBlock)
      → finish_prepared ports index prepared logs ≡ ok block
      → block_key block ≡ plan_key index prepared.plan
  unfolding finish_prepared
  finish_prepared-key prepared logs block e =
      elim (Result-cases (
        decode_events ports.alloy prepared.plan.block_number index prepared.plan.monitor_indices
          logs)) [
            | inr (x, fails) ↦ absurd (ground arith)
            | inl (events, decoded) ↦
                elim (Result-cases (resolve_monitors index prepared.plan.monitor_indices)) [
                  | inr (x, fails) ↦ absurd (ground arith)
                  | inl (ms, resolved) ↦
                      let number : block.block_number ≡ prepared.plan.block_number =
                        ground (arith, e, decoded, resolved) in
                      let who : block.monitors ≡ ms = ground (arith, e, decoded, resolved) in
                      let known : map some ms
                          ≡ map (get_elem? index.monitors) prepared.plan.monitor_indices =
                        resolve_monitors-map index prepared.plan.monitor_indices ms resolved in
                      ground (arith, number, who, known)
                ]
          ]

  -- The plan stays with its calls.
  pub prepare_calls-plan :
      (plan : BlockPlan) → Yields (λ p. p.plan ≡ plan) (prepare_calls ports index plan)
  unfolding prepare_calls
  prepare_calls-plan plan =
      Yields-if (λ p. p.plan ≡ plan) (has_calls index plan) _ _
        (Yields-bind (λ p. p.plan ≡ plan) (load_block ports index plan.block_number) _
          (λ block.
            Yields-bind (λ p. p.plan ≡ plan)
              (lift (
                fetch_outcomes ports index plan.block_number
                  (hashes_at block.transactions (candidates_from 0 index plan block.transactions))))
              _
              (λ outcomes.
                Yields-bind (λ p. p.plan ≡ plan)
                  (lift (
                    decode_calls ports.alloy index plan.monitor_indices block
                      (candidates_from 0 index plan block.transactions) outcomes))
                  _
                  (λ calls.
                    Yields-pure (λ p. p.plan ≡ plan)
                      (record { plan = plan; results = map DecodedResult.call calls }) refl))))
        (Yields-pure (λ p. p.plan ≡ plan) (record { plan = plan; results = [] }) refl)

  -- The calls of the plans, one for each.
  abbrev pub AreCalls : List BlockPlan → List (Result Error PreparedCalls) → Type 0
  AreCalls [] [] = Unit
  AreCalls (p ∷ ps) (r ∷ rs) = ((c : PreparedCalls) → r ≡ ok c → c.plan ≡ p) × AreCalls ps rs
  AreCalls _ _ = ⊥

  -- The blocks of the plans, one for each.
  abbrev pub AreBlocks : List BlockPlan → List (Result Error PreparedBlock) → Type 0
  AreBlocks [] [] = Unit
  AreBlocks (p ∷ ps) (r ∷ rs) =
      ((b : PreparedBlock) → r ≡ ok b → block_key b ≡ plan_key index p) × AreBlocks ps rs
  AreBlocks _ _ = ⊥

  pub on_cache-plan :
      (plan : BlockPlan) (w : World C) (r : Result Error PreparedCalls)
      → ((on_cache (prepare_calls ports index plan) w).0) ≡ ok r
      → (c : PreparedCalls) → r ≡ ok c
      → c.plan ≡ plan
  on_cache-plan plan w r e c is = prepare_calls-plan plan w.cache c (ground (arith, e, is))

  pub prepare_all-AreCalls :
      (plans : List BlockPlan) → Yields (AreCalls plans) (prepare_all ports index plans)
  unfolding prepare_all
  prepare_all-AreCalls [] = Yields-pure (AreCalls []) [] tt
  prepare_all-AreCalls (plan ∷ plans) =
      Yields-seq (λ r. (c : PreparedCalls) → r ≡ ok c → c.plan ≡ plan) (AreCalls (plan ∷ plans))
        (on_cache (prepare_calls ports index plan))
        (λ r. prepare_all ports index plans >>= λ rest. pure (r ∷ rest))
        (λ w r e c is. on_cache-plan plan w r e c is)
        (λ r good.
          Yields-seq (AreCalls plans) (AreCalls (plan ∷ plans)) (prepare_all ports index plans)
            (λ rest. pure (r ∷ rest)) (prepare_all-AreCalls plans)
            (λ rest are. Yields-pure (AreCalls (plan ∷ plans)) (r ∷ rest) (good, are)))

  finish_all-AreBlocks :
      (logs : Entries SourceLog) (plans : List BlockPlan)
      (calls : List (Result Error PreparedCalls))
      → AreCalls plans calls
      → AreBlocks plans (finish_all ports index logs calls)
  unfolding finish_all
  finish_all-AreBlocks logs [] [] h = tt
  finish_all-AreBlocks logs [] (r ∷ rs) h = absurd h
  finish_all-AreBlocks logs (p ∷ ps) [] h = absurd h
  finish_all-AreBlocks logs (p ∷ ps) (ok c ∷ rs) (here, rest) = (
    (λ b e.
        finish_prepared-key c (entry_at c.plan.block_number logs) b e
        ∙ ap (plan_key index) (here c refl)),
    finish_all-AreBlocks logs ps rs rest,
  )
  finish_all-AreBlocks logs (p ∷ ps) (err x ∷ rs) (here, rest) =
      ((λ b e. absurd (ground (arith, e))), finish_all-AreBlocks logs ps rs rest)

  -- A window of events yields a block for each plan.
  pub prepare_event_window-AreBlocks :
      (plans : List BlockPlan) (query : LogQuery)
      → Yields (AreBlocks plans) (prepare_event_window ports index plans query)
  unfolding prepare_event_window
  prepare_event_window-AreBlocks plans query =
      Yields-seq (AreCalls plans) (AreBlocks plans) (prepare_all ports index plans) _
        (prepare_all-AreCalls plans)
        (λ calls are. Yields-bind (AreBlocks plans) (try (ports.fetch_logs query)) _ (λ logs.
          Yields-bind (AreBlocks plans) (try (group_logs query.range logs [])) _ (λ by_block.
            Yields-pure (AreBlocks plans) (finish_all ports index by_block calls)
              (finish_all-AreBlocks by_block plans calls are))))
