-- ===== src/Index/Groups.antt =====
-- The groups of parseon-core/src/indexer.rs as `MonitorIndex::new` builds them: what holds of every group
-- holds after an insertion, and an insertion is found again.
use parseon.Common.{
  ap, ℕ, ◌≡◌, sym, subst, ◌↔◌, any, eqb, get_elem?, true, inl, inr, some, List, [], ◌∷◌, ◌++◌, All,
  All-append, In, Result, ok, arith, Bool-cases, Result-cases,
}
use parseon.Common.Eq.{Eq, ◌==◌}
use parseon.Monitor.{Monitor, needs_block}
use parseon.Errors.{Error}
use parseon.Index.{
  Group, Layouts, Targets, MonitorIndex, monitor_is_planned, any_layout_planned, get,
  add_to_layouts, add_to_targets,
}

-- A group whose decoder satisfies `Q` and all of whose monitors satisfy `P`.
abbrev pub IsGroup : {D : Type 0} → (ℕ → Type 0) → (D → Type 0) → Group D → Type 0
IsGroup P Q group = Q group.decoder × All P group.monitor_indices

abbrev pub AreLayouts : {L D : Type 0} → (L → ℕ → Type 0) → (L → D → Type 0) → Layouts L D → Type 0
AreLayouts P Q layouts = All (λ (l, group). IsGroup (P l) (Q l) group) layouts

abbrev pub AreTargets :
    {K L D : Type 0} → (K → L → ℕ → Type 0) → (K → L → D → Type 0) → Targets K L D → Type 0
AreTargets P Q targets = All (λ (k, layouts). AreLayouts (P k) (Q k) layouts) targets

module _ {L D : Type 0} ⦃f : Eq L⦄ (P : L → ℕ → Type 0) (Q : L → D → Type 0) (layout : L)
    (index : ℕ) (decoder : Result Error D) where
  add_to_layouts-AreLayouts :
      P layout index
      → ((d : D) → decoder ≡ ok d → Q layout d)
      → (layouts : Layouts L D) → AreLayouts P Q layouts
      → (added : Layouts L D) → add_to_layouts layout index decoder layouts ≡ ok added
      → AreLayouts P Q added
  unfolding add_to_layouts
  add_to_layouts-AreLayouts p q [] h added e = elim (Result-cases decoder) [
    | inl (d, eq) ↦
        let fresh : AreLayouts P Q
            ((layout, record { monitor_indices = index ∷ []; decoder = d }) ∷ []) =
          ((q d eq, (p, tt)), tt) in
        let same : (layout, record { monitor_indices = index ∷ []; decoder = d }) ∷ [] ≡ added =
          ground (arith, e, eq) in
        subst (AreLayouts P Q) same fresh
    | inr (x, eq) ↦ absurd (ground arith)
  ]
  add_to_layouts-AreLayouts p q ((l, group) ∷ rest) h added e = elim (Bool-cases (l == layout)) [
    | inl hit ↦
        let at : l ≡ layout = (f.test_iff l layout).0 hit in
        let grown : AreLayouts P Q
            ((l, record group { monitor_indices = group.monitor_indices ++ index ∷ [] }) ∷ rest) =
          (
            (
              h.0.0,
              All-append (P l) group.monitor_indices (index ∷ []) h.0.1
                  (subst (λ k. P k index) (sym at) p, tt),
            ),
            h.1,
          ) in
        let same : (l, record group { monitor_indices = group.monitor_indices ++ index ∷ [] })
              ∷ rest
            ≡ added =
          ground (arith, e, hit) in
        subst (AreLayouts P Q) same grown
    | inr miss ↦ elim (Result-cases (add_to_layouts layout index decoder rest)) [
      | inl (later, eq) ↦
          let same : (l, group) ∷ later ≡ added = ground (arith, e, eq, miss) in
          subst (AreLayouts P Q) same (h.0, add_to_layouts-AreLayouts p q rest h.1 later eq)
      | inr (x, eq) ↦ absurd (ground arith)
    ]
  ]

module _ {K L D : Type 0} ⦃e : Eq K⦄ ⦃f : Eq L⦄ (P : K → L → ℕ → Type 0) (Q : K → L → D → Type 0)
    (target : K) (layout : L) (index : ℕ) (decoder : Result Error D) where
  pub add_to_targets-AreTargets :
      P target layout index
      → ((d : D) → decoder ≡ ok d → Q target layout d)
      → (targets : Targets K L D) → AreTargets P Q targets
      → (added : Targets K L D) → add_to_targets target layout index decoder targets ≡ ok added
      → AreTargets P Q added
  unfolding add_to_targets
  add_to_targets-AreTargets p q [] h added eq =
      elim (Result-cases (add_to_layouts layout index decoder [])) [
        | inl (layouts, made) ↦
            let are : AreLayouts (P target) (Q target) layouts =
              add_to_layouts-AreLayouts (P target) (Q target) layout index decoder p q [] tt layouts
                made in
            let same : (target, layouts) ∷ [] ≡ added = ground (arith, eq, made) in
            subst (AreTargets P Q) same (are, tt)
        | inr (x, made) ↦ absurd (ground arith)
      ]
  add_to_targets-AreTargets p q ((k, layouts) ∷ rest) h added eq = elim (Bool-cases (k == target)) [
    | inl hit ↦
        let at : target ≡ k = sym ((e.test_iff k target).0 hit) in
        elim (Result-cases (add_to_layouts layout index decoder layouts)) [
          | inl (grown, made) ↦
              let are : AreLayouts (P k) (Q k) grown =
                add_to_layouts-AreLayouts (P k) (Q k) layout index decoder
                  (subst (λ j. P j layout index) at p)
                  (λ d made'. subst (λ j. Q j layout d) at (q d made')) layouts h.0 grown made in
              let same : (k, grown) ∷ rest ≡ added = ground (arith, eq, made, hit) in
              subst (AreTargets P Q) same (are, h.1)
          | inr (x, made) ↦ absurd (ground arith)
        ]
    | inr miss ↦ elim (Result-cases (add_to_targets target layout index decoder rest)) [
      | inl (later, made) ↦
          let same : (k, layouts) ∷ later ≡ added = ground (arith, eq, made, miss) in
          subst (AreTargets P Q) same (h.0, add_to_targets-AreTargets p q rest h.1 later made)
      | inr (x, made) ↦ absurd (ground arith)
    ]
  ]

-- What is found at a target satisfies what all groups do.
pub get-AreLayouts :
    {K L D : Type 0} ⦃e : Eq K⦄ (P : K → L → ℕ → Type 0) (Q : K → L → D → Type 0) (target : K)
    (targets : Targets K L D)
    → AreTargets P Q targets
    → (layouts : Layouts L D) → get target targets ≡ some layouts
    → AreLayouts (P target) (Q target) layouts
get-AreLayouts P Q target [] h layouts found = absurd (ground arith)
get-AreLayouts ⦃e⦄ P Q target ((k, ls) ∷ rest) h layouts found = elim (Bool-cases (k == target)) [
  | inl hit ↦
      let same : ls ≡ layouts = ground (arith, found, hit) in
      let at : k ≡ target = (e.test_iff k target).0 hit in
      subst (λ j. AreLayouts (P j) (Q j) layouts) at (subst (AreLayouts (P k) (Q k)) same h.0)
  | inr miss ↦
      let later : get target rest ≡ some layouts = ground (arith, found, miss) in
      get-AreLayouts P Q target rest h.1 layouts later
]

-- What is planned, in its parts.
pub monitor_is_planned_iff :
    (index : MonitorIndex) (i block_number : ℕ) (planned : List ℕ) (m : Monitor)
    → get_elem? index.monitors i ≡ some m
    → (monitor_is_planned index i block_number planned ≡ true)
      ↔ ((any (eqb i) planned ≡ true) × (needs_block m block_number ≡ true))
unfolding monitor_is_planned
monitor_is_planned_iff index i block_number planned m at = ground (arith, at)

-- What all groups of a list of layouts satisfy, for one of them.
pub AreLayouts-In :
    {L D : Type 0} (P : L → ℕ → Type 0) (Q : L → D → Type 0) (layouts : Layouts L D)
    → AreLayouts P Q layouts
    → (l : L) (g : _) → In (l, g) layouts
    → Q l g.decoder × ((i : ℕ) → In i g.monitor_indices → P l i)
AreLayouts-In P Q [] h l g at = elim at [ ]
AreLayouts-In P Q ((k, group) ∷ layouts) h l g (inl at) =
    subst (λ x. Q x.0 x.1.decoder × ((i : ℕ) → In i x.1.monitor_indices → P x.0 i)) (sym at)
      (h.0.0, All-In (P k) group.monitor_indices h.0.1)
  where
    All-In : (R : ℕ → Type 0) (is : List ℕ) → All R is → (i : ℕ) → In i is → R i
    All-In R [] all i inside = elim inside [ ]
    All-In R (j ∷ is) all i (inl same) = subst R (sym same) (all.0)
    All-In R (j ∷ is) all i (inr inside) = All-In R is (all.1) i inside
AreLayouts-In P Q ((k, group) ∷ layouts) h l g (inr at) = AreLayouts-In P Q layouts (h.1) l g at

-- A planned monitor of a group makes the group planned.
pub any_planned-In :
    (index : MonitorIndex) (i block_number : ℕ) (planned is : List ℕ)
    → In i is
    → monitor_is_planned index i block_number planned ≡ true
    → any (λ j. monitor_is_planned index j block_number planned) is ≡ true
any_planned-In index i block_number planned [] inside plan = elim inside [ ]
any_planned-In index i block_number planned (j ∷ is) (inl same) plan = ground (arith, same, plan)
any_planned-In index i block_number planned (j ∷ is) (inr inside) plan =
    ground (arith, any_planned-In index i block_number planned is inside plan)

-- A planned monitor of a group makes the layouts planned.
pub any_layout_planned-In :
    {L D : Type 0} (index : MonitorIndex) (block_number : ℕ) (planned : List ℕ)
    (layouts : Layouts L D) (l : L) (g : Group D) (i : ℕ)
    → In (l, g) layouts
    → In i g.monitor_indices
    → monitor_is_planned index i block_number planned ≡ true
    → any_layout_planned index block_number planned layouts ≡ true
any_layout_planned-In index block_number planned [] l g i at inside plan = elim at [ ]
any_layout_planned-In index block_number planned ((k, group) ∷ layouts) l g i (inl at) inside plan =
    let one : g ≡ group = ap (λ x. x.1) at in
    ground (
      arith,
      any_planned-In index i block_number planned group.monitor_indices
          (subst (λ x. In i x.monitor_indices) one inside) plan,
    )
any_layout_planned-In index block_number planned ((k, group) ∷ layouts) l g i (inr at) inside plan =
    ground (arith, any_layout_planned-In index block_number planned layouts l g i at inside plan)
