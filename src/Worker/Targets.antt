-- ===== src/Worker/Targets.antt =====
-- What `log_query` of parseon-core/src/worker/prepare.rs asks for: exactly the targets of the planned event monitors.
use parseon.Common.{
  ℕ, ◌≡◌, refl, sym, ap, ◌∙◌, subst, ◌↔◌, ◌⊎◌, inl, inr, Option, none, some, List, [], ◌∷◌,
  get_elem?, last?, In, ok, arith, Option-cases, Result-cases,
}
use parseon.Common.Eq.{list_eq, nat_eq}
use parseon.Model.{Target, EventTarget}
use parseon.Monitor.{Monitor}
use parseon.Scheduler.{BlockPlan}
use parseon.Index.{MonitorIndex}
use parseon.Ports.Source.{LogTarget, LogQuery, new_range, new_query}
use parseon.Ports.Source.Sets.{insert_target_iff, sort_dedup_iff}
use parseon.Worker.Query.{add_target, add_monitors, add_plans, query_between, log_query}

-- A monitor at an index targets this event.
abbrev pub Targets : MonitorIndex → ℕ → LogTarget → Type 0
Targets index i x =
    (m : Monitor) × (t : EventTarget) × (get_elem? index.monitors i ≡ some m)
    × (m.target ≡ Target.event t)
    × (x ≡ record { address = t.address; topic0 = t.topic0 })

-- The target of a planned monitor.
abbrev pub IsWanted : MonitorIndex → List BlockPlan → LogTarget → Type 0
IsWanted index plans x =
    (p : BlockPlan) × (i : ℕ) × In p plans × In i p.monitor_indices × Targets index i x

add_target_iff :
    (index : MonitorIndex) (i : ℕ) (m : Monitor)
    → get_elem? index.monitors i ≡ some m
    → (t : Target) → m.target ≡ t
    → (acc : List LogTarget) (x : LogTarget)
    → In x (add_target t acc) ↔ (Targets index i x ⊎ In x acc)
unfolding add_target
add_target_iff index i m at (Target.call t) has acc x = (
  (λ h. inr h),
  λ h. elim h [
    | inl (n, u, at', has', e) ↦
        let one : m ≡ n = ground (arith, at, at') in absurd (ground (arith, has, has', one))
    | inr k ↦ k
  ],
)
add_target_iff index i m at (Target.event t) has acc x =
    let step = insert_target_iff (record { address = t.address; topic0 = t.topic0 }) acc x in
    (
      (λ h. elim (step.0 h) [ inl e ↦ inl (m, t, at, has, e) | inr k ↦ inr k ]),
      λ h. elim h [
        | inl (n, u, at', has', e) ↦
            let one : m ≡ n = ground (arith, at, at') in
            let target : Target.event t ≡ Target.event u =
              sym has ∙ ap (λ k. k.target) one ∙ has' in
            let event : t ≡ u = ground (arith, target) in
            step.1
              (inl (e ∙ ap (λ k. record { address = k.address; topic0 = k.topic0 }) (sym event)))
        | inr k ↦ step.1 (inr k)
      ],
    )

-- The targets that the monitors at some indices add.
abbrev AnyTargets : MonitorIndex → List ℕ → LogTarget → Type 0
AnyTargets index is x = (i : ℕ) × In i is × Targets index i x

add_monitors_iff :
    (index : MonitorIndex) (is : List ℕ) (acc out : List LogTarget)
    → add_monitors index is acc ≡ ok out
    → (x : LogTarget) → In x out ↔ (AnyTargets index is x ⊎ In x acc)
unfolding add_monitors
add_monitors_iff index [] acc out e x =
    let same : acc ≡ out = ground arith in
    (
      (λ h. inr (subst (In x) (sym same) h)),
      λ h. elim h [ inl a ↦ elim (a.1) [ ] | inr k ↦ subst (In x) same k ],
    )
add_monitors_iff index (i ∷ is) acc out e x = elim (Option-cases (get_elem? index.monitors i)) [
  | inl missing ↦ absurd (ground arith)
  | inr (m, at) ↦
      let run : add_monitors index is (add_target m.target acc) ≡ ok out = ground (arith, e, at) in
      let rest = add_monitors_iff index is (add_target m.target acc) out run x in
      let step = add_target_iff index i m at m.target refl acc x in
      (
        (λ h. elim (rest.0 h) [
          | inl (j, inside, targets) ↦ inl (j, inr inside, targets)
          | inr k ↦ elim (step.0 k) [ inl targets ↦ inl (i, inl refl, targets) | inr old ↦ inr old ]
        ]),
        λ h. elim h [
          | inl (j, inside, targets) ↦ elim inside [
            | inl here ↦ rest.1 (inr (step.1 (inl (subst (λ k. Targets index k x) here targets))))
            | inr more ↦ rest.1 (inl (j, more, targets))
          ]
          | inr old ↦ rest.1 (inr (step.1 (inr old)))
        ],
      )
]

add_plans_iff :
    (index : MonitorIndex) (plans : List BlockPlan) (acc out : List LogTarget)
    → add_plans index plans acc ≡ ok out
    → (x : LogTarget) → In x out ↔ (IsWanted index plans x ⊎ In x acc)
unfolding add_plans
add_plans_iff index [] acc out e x =
    let same : acc ≡ out = ground arith in
    (
      (λ h. inr (subst (In x) (sym same) h)),
      λ h. elim h [ inl a ↦ elim (a.2) [ ] | inr k ↦ subst (In x) same k ],
    )
add_plans_iff index (p ∷ ps) acc out e x =
    elim (Result-cases (add_monitors index p.monitor_indices acc)) [
      | inr (failure, fails) ↦ absurd (ground arith)
      | inl (added, here) ↦
          let run : add_plans index ps added ≡ ok out = ground (arith, e, here) in
          let rest = add_plans_iff index ps added out run x in
          let step = add_monitors_iff index p.monitor_indices acc added here x in
          (
            (λ h. elim (rest.0 h) [
              | inl (q, i, at, inside, targets) ↦ inl (q, i, inr at, inside, targets)
              | inr k ↦ elim (step.0 k) [
                | inl (i, inside, targets) ↦ inl (p, i, inl refl, inside, targets)
                | inr old ↦ inr old
              ]
            ]),
            λ h. elim h [
              | inl (q, i, at, inside, targets) ↦ elim at [
                | inl is_p ↦ rest.1 (
                    inr
                      (step.1 (inl (i, subst (λ k. In i k.monitor_indices) is_p inside, targets))))
                | inr more ↦ rest.1 (inl (q, i, more, inside, targets))
              ]
              | inr old ↦ rest.1 (inr (step.1 (inr old)))
            ],
          )
    ]

-- The targets of a query, none if there is no query.
abbrev pub targets_of : Option LogQuery → List LogTarget
targets_of none = []
targets_of (some query) = query.targets

query_between_iff :
    (first last : BlockPlan) (found : List LogTarget) (query : Option LogQuery)
    → query_between first last found ≡ ok query
    → (x : LogTarget) → In x (targets_of query) ↔ In x found
unfolding query_between new_query
query_between_iff first last [] query e x =
    let same : none ≡ query = ground arith in
    ((λ h. subst (λ q. In x (targets_of q)) (sym same) h), λ h. elim h [ ])
query_between_iff first last (t ∷ ts) query e x =
    elim (Option-cases (new_range first.block_number last.block_number)) [
      | inl missing ↦ absurd (ground arith)
      | inr (range, at) ↦
          let same : some (new_query range (t ∷ ts)) ≡ query = ground (arith, e, at) in
          let sorted = sort_dedup_iff (t ∷ ts) x in
          (
            (λ h. sorted.0 (subst (λ q. In x (targets_of q)) (sym same) h)),
            λ h. subst (λ q. In x (targets_of q)) same (sorted.1 h),
          )
    ]

-- When `log_query` succeeds on plans, the targets of its query are exactly the address and topic of the
-- planned event monitors; there is no query when there is no such monitor.
pub log_query_iff :
    (index : MonitorIndex) (plans : List BlockPlan) (query : Option LogQuery)
    → log_query plans index ≡ ok query
    → (x : LogTarget) → In x (targets_of query) ↔ IsWanted index plans x
unfolding log_query
log_query_iff index [] query e x =
    let same : none ≡ query = ground arith in
    ((λ h. elim (subst (λ q. In x (targets_of q)) (sym same) h) [ ]), λ h. elim (h.2) [ ])
log_query_iff index (p ∷ ps) query e x = elim (Option-cases (last? (p ∷ ps))) [
  | inl missing ↦ absurd (last?-some p ps missing)
  | inr (last, is_last) ↦ elim (Result-cases (add_plans index (p ∷ ps) [])) [
    | inr (failure, fails) ↦ absurd (ground (arith, e, is_last, fails))
    | inl (found, here) ↦
        let run : query_between p last found ≡ ok query = ground (arith, e, is_last, here) in
        let asked = query_between_iff p last found query run x in
        let wanted = add_plans_iff index (p ∷ ps) [] found here x in
        (
          (λ h. elim (wanted.0 (asked.0 h)) [ inl w ↦ w | inr absent ↦ elim absent [ ] ]),
          λ h. asked.1 (wanted.1 (inl h)),
        )
  ]
]
  where
    last?-some : (q : BlockPlan) (qs : List BlockPlan) → last? (q ∷ qs) ≡ none → ⊥
    last?-some q [] h = ground (arith, h)
    last?-some q (r ∷ rs) h = last?-some r rs h
