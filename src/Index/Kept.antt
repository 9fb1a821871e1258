-- ===== src/Index/Kept.antt =====
-- An index that parseon-core/src/indexer.rs adds to its groups is found there, and those added before stay.
use parseon.Common.{
  ℕ, ◌≡◌, refl, sym, ap, subst, true, inl, inr, some, [], ◌∷◌, ◌++◌, In, In-append_left,
  In-append_right, Result, ok, arith, Bool-cases, Result-cases,
}
use parseon.Common.Eq.{Eq, ◌==◌}
use parseon.Errors.{Error}
use parseon.Index.{Group, Layouts, Targets, get, add_to_layouts, add_to_targets}

-- An index is in a group of a layout.
abbrev pub InLayouts : {L D : Type 0} → L → ℕ → Layouts L D → Type 0
InLayouts {L} {D} l i layouts = (g : Group D) × In (l, g) layouts × In i g.monitor_indices

-- An index is in a group of a target and a layout, where a lookup finds it.
abbrev pub InTargets : {K L D : Type 0} ⦃e : Eq K⦄ → K → L → ℕ → Targets K L D → Type 0
InTargets {K} {L} {D} k l i targets =
    (layouts : Layouts L D) × (get k targets ≡ some layouts) × InLayouts l i layouts

abbrev skip_layout :
    {L D : Type 0} (entry : L × Group D) (layouts : Layouts L D) {l : L} {i : ℕ}
    → InLayouts l i layouts
    → InLayouts l i (entry ∷ layouts)
skip_layout entry layouts (g, at, inside) = (g, inr at, inside)

module _ {L D : Type 0} ⦃f : Eq L⦄ (layout : L) (index : ℕ) (decoder : Result Error D) where
  add_to_layouts-adds :
      (layouts added : Layouts L D)
      → add_to_layouts layout index decoder layouts ≡ ok added
      → InLayouts layout index added
  unfolding add_to_layouts
  add_to_layouts-adds [] added e = elim (Result-cases decoder) [
    | inl (d, eq) ↦
        let same : (layout, record { monitor_indices = index ∷ []; decoder = d }) ∷ [] ≡ added =
          ground (arith, e, eq) in
        subst (InLayouts layout index) same
          (record { monitor_indices = index ∷ []; decoder = d }, inl refl, inl refl)
    | inr (x, eq) ↦ absurd (ground arith)
  ]
  add_to_layouts-adds ((l, group) ∷ rest) added e = elim (Bool-cases (l == layout)) [
    | inl hit ↦
        let at : l ≡ layout = (f.test_iff l layout).0 hit in
        let same : (l, record group { monitor_indices = group.monitor_indices ++ index ∷ [] })
              ∷ rest
            ≡ added =
          ground (arith, e, hit) in
        subst (InLayouts layout index) same (
          record group { monitor_indices = group.monitor_indices ++ index ∷ [] },
          inl (
              ap (λ k. (k, record group { monitor_indices = group.monitor_indices ++ index ∷ [] }))
                (sym at)),
          In-append_right index group.monitor_indices (index ∷ []) (inl refl),
        )
    | inr miss ↦ elim (Result-cases (add_to_layouts layout index decoder rest)) [
      | inl (later, eq) ↦
          let same : (l, group) ∷ later ≡ added = ground (arith, e, eq, miss) in
          subst (InLayouts layout index) same
            (skip_layout (l, group) later (add_to_layouts-adds rest later eq))
      | inr (x, eq) ↦ absurd (ground arith)
    ]
  ]

  add_to_layouts-keeps :
      (layouts added : Layouts L D)
      → add_to_layouts layout index decoder layouts ≡ ok added
      → (l : L) (i : ℕ) → InLayouts l i layouts
      → InLayouts l i added
  unfolding add_to_layouts
  add_to_layouts-keeps [] added e k i (g, at, inside) = elim at [ ]
  add_to_layouts-keeps ((l, group) ∷ rest) added e k i (g, at, inside) =
      elim (Bool-cases (l == layout)) [
        | inl hit ↦
            let same : (l, record group { monitor_indices = group.monitor_indices ++ index ∷ [] })
                  ∷ rest
                ≡ added =
              ground (arith, e, hit) in
            subst (InLayouts k i) same (elim at [
              | inl here ↦ (
                record group { monitor_indices = group.monitor_indices ++ index ∷ [] },
                inl (
                    ap
                      (λ x. (
                        x.0,
                        record group { monitor_indices = group.monitor_indices ++ index ∷ [] },
                      ))
                      here),
                In-append_left i group.monitor_indices (index ∷ [])
                    (subst (λ x. In i x.1.monitor_indices) here inside),
              )
              | inr there ↦ (g, inr there, inside)
            ])
        | inr miss ↦ elim (Result-cases (add_to_layouts layout index decoder rest)) [
          | inl (later, eq) ↦
              let same : (l, group) ∷ later ≡ added = ground (arith, e, eq, miss) in
              subst (InLayouts k i) same (elim at [
                | inl here ↦ (g, inl here, inside)
                | inr there ↦
                    skip_layout (l, group) later
                      (add_to_layouts-keeps rest later eq k i (g, there, inside))
              ])
          | inr (x, eq) ↦ absurd (ground arith)
        ]
      ]

module _ {K L D : Type 0} ⦃e : Eq K⦄ ⦃f : Eq L⦄ (target : K) (layout : L) (index : ℕ)
    (decoder : Result Error D) where
  pub add_to_targets-adds :
      (targets added : Targets K L D)
      → add_to_targets target layout index decoder targets ≡ ok added
      → InTargets target layout index added
  unfolding add_to_targets
  add_to_targets-adds [] added eq = elim (Result-cases (add_to_layouts layout index decoder [])) [
    | inl (layouts, made) ↦
        let hit : target == target ≡ true = (e.test_iff target target).1 refl in
        let same : (target, layouts) ∷ [] ≡ added = ground (arith, eq, made) in
        subst (InTargets target layout index) same
          (layouts, ground (arith, hit), add_to_layouts-adds layout index decoder [] layouts made)
    | inr (x, made) ↦ absurd (ground arith)
  ]
  add_to_targets-adds ((k, layouts) ∷ rest) added eq = elim (Bool-cases (k == target)) [
    | inl hit ↦ elim (Result-cases (add_to_layouts layout index decoder layouts)) [
      | inl (grown, made) ↦
          let same : (k, grown) ∷ rest ≡ added = ground (arith, eq, made, hit) in
          subst (InTargets target layout index) same (
            grown,
            ground (arith, hit),
            add_to_layouts-adds layout index decoder layouts grown made,
          )
      | inr (x, made) ↦ absurd (ground arith)
    ]
    | inr miss ↦ elim (Result-cases (add_to_targets target layout index decoder rest)) [
      | inl (later, made) ↦
          let same : (k, layouts) ∷ later ≡ added = ground (arith, eq, made, miss) in
          let (found, at, inside) = add_to_targets-adds rest later made in
          subst (InTargets target layout index) same (found, ground (arith, at, miss), inside)
      | inr (x, made) ↦ absurd (ground arith)
    ]
  ]

  pub add_to_targets-keeps :
      (targets added : Targets K L D)
      → add_to_targets target layout index decoder targets ≡ ok added
      → (j : K) (l : L) (i : ℕ) → InTargets j l i targets
      → InTargets j l i added
  unfolding add_to_targets
  add_to_targets-keeps [] added eq j l i (found, at, inside) = absurd (ground arith)
  add_to_targets-keeps ((k, layouts) ∷ rest) added eq j l i (found, at, inside) =
      elim (Bool-cases (k == target)) [
        | inl hit ↦ elim (Result-cases (add_to_layouts layout index decoder layouts)) [
          | inl (grown, made) ↦
              let same : (k, grown) ∷ rest ≡ added = ground (arith, eq, made, hit) in
              subst (InTargets j l i) same (elim (Bool-cases (k == j)) [
                | inl here ↦
                    let was : found ≡ layouts = ground (arith, at, here) in
                    (
                      grown,
                      ground (arith, here),
                      add_to_layouts-keeps layout index decoder layouts grown made l i
                          (subst (InLayouts l i) was inside),
                    )
                | inr there ↦ (found, ground (arith, at, there), inside)
              ])
          | inr (x, made) ↦ absurd (ground arith)
        ]
        | inr miss ↦ elim (Result-cases (add_to_targets target layout index decoder rest)) [
          | inl (later, made) ↦
              let same : (k, layouts) ∷ later ≡ added = ground (arith, eq, made, miss) in
              subst (InTargets j l i) same (elim (Bool-cases (k == j)) [
                | inl here ↦ (found, ground (arith, at, here), inside)
                | inr there ↦
                    let before : get j rest ≡ some found = ground (arith, at, there) in
                    let (grown, at', inside') =
                      add_to_targets-keeps rest later made j l i (found, before, inside) in
                    (grown, ground (arith, at', there), inside')
              ])
          | inr (x, made) ↦ absurd (ground arith)
        ]
      ]
