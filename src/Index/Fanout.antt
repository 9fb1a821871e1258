-- ===== src/Index/Fanout.antt =====
-- The loops of parseon-core/src/indexer.rs over the layouts of a target and the monitors of a layout: what
-- they emit, and that they emit all of it.
use parseon.Common.{
  ℕ, ◌≡◌, refl, sym, ap, subst, true, false, inl, inr, some, List, [], ◌∷◌, ◌++◌, In,
  In-append_left, In-append_right, In-append_cases, Result, ok, get_elem?, arith, Bool-cases,
  Result-cases, Option-cases,
}
use parseon.Model.{BlockNumber, DecodedValue}
use parseon.Filter.Evaluate.{evaluate_filter}
use parseon.Monitor.{Monitor}
use parseon.Abi.{AbiError}
use parseon.Index.{Group, Layouts, MonitorIndex, monitor_is_planned, any_planned}
use parseon.Index.Groups.{any_planned-In}
use parseon.Index.Decode.{Emission, emit, fan_out, fan_out_decoded, decode_layouts}

module _ {R : Type 0} (index : MonitorIndex) (block_number : BlockNumber) (planned : List ℕ)
    (emission : Emission R) where
  -- A result for a monitor: it is planned and its filter accepts the parameters.
  abbrev pub Emits : List DecodedValue → ℕ → R → Type 0
  Emits params i r =
      (m : Monitor) × (monitor_is_planned index i block_number planned ≡ true)
      × (get_elem? index.monitors i ≡ some m)
      × (evaluate_filter m.filter (emission.context params) ≡ ok true)
      × (r ≡ emission.result m.id params)

  -- A result of the layouts of a target: for a monitor of a layout that decodes.
  abbrev pub EmitsOf :
      {L D : Type 0} → (D → Result AbiError (List DecodedValue)) → Layouts L D → R → Type 0
  EmitsOf {L} {D} decode layouts r =
      (l : L) × (group : Group D) × (params : List DecodedValue) × (i : ℕ) × In (l, group) layouts
      × (decode group.decoder ≡ ok params)
      × In i group.monitor_indices
      × Emits params i r

  emit_sound :
      (params : List DecodedValue) (i : ℕ) (m : Monitor)
      → monitor_is_planned index i block_number planned ≡ true
      → get_elem? index.monitors i ≡ some m
      → (found : List R) → emit index block_number planned emission params m ≡ ok found
      → (r : R) → In r found
      → Emits params i r
  unfolding emit
  emit_sound params i m plan at found e r h =
      elim (Result-cases (evaluate_filter m.filter (emission.context params))) [
        | inl (true, accepts) ↦
            let same : found ≡ emission.result m.id params ∷ [] = ground (arith, e, accepts) in
            elim (subst (In r) same h) [
              | inl is ↦ (m, plan, at, accepts, is)
              | inr absent ↦ elim absent [ ]
            ]
        | inl (false, rejects) ↦
            let same : found ≡ [] = ground (arith, e, rejects) in elim (subst (In r) same h) [ ]
        | inr (x, fails) ↦ absurd (ground arith)
      ]

  emit_complete :
      (params : List DecodedValue) (i : ℕ) (m : Monitor)
      → get_elem? index.monitors i ≡ some m
      → (found : List R) → emit index block_number planned emission params m ≡ ok found
      → (r : R) → Emits params i r
      → In r found
  unfolding emit
  emit_complete params i m at found e r (n, _, at', accepts, is) =
      let one : m ≡ n = ground (arith, at, at') in
      let accepts' : evaluate_filter m.filter (emission.context params) ≡ ok true =
        subst (λ k. evaluate_filter k.filter (emission.context params) ≡ ok true) (sym one)
          accepts in
      let same : emission.result m.id params ∷ [] ≡ found = ground (arith, e, accepts') in
      let is' : r ≡ emission.result m.id params =
        subst (λ k. r ≡ emission.result k.id params) (sym one) is in
      subst (In r) same (inl is')

  -- A successful pass over a planned monitor, in its parts.
  fan_out-planned :
      (params : List DecodedValue) (i : ℕ) (is : List ℕ) (found : List R)
      → monitor_is_planned index i block_number planned ≡ true
      → fan_out index block_number planned emission params (i ∷ is) ≡ ok found
      → (m : Monitor) × (here : List R) × (later : List R) × (get_elem? index.monitors i ≡ some m)
        × (emit index block_number planned emission params m ≡ ok here)
        × (fan_out index block_number planned emission params is ≡ ok later)
        × (here ++ later ≡ found)
  unfolding fan_out
  fan_out-planned params i is found plan e = elim (Option-cases (get_elem? index.monitors i)) [
    | inr (m, at) ↦ elim (Result-cases (emit index block_number planned emission params m)) [
      | inl (here, emits) ↦
          elim (Result-cases (fan_out index block_number planned emission params is)) [
            | inl (later, rest) ↦
                (m, here, later, at, emits, rest, ground (arith, e, at, emits, rest, plan))
            | inr (x, fails) ↦ absurd (ground arith)
          ]
      | inr (x, fails) ↦ absurd (ground arith)
    ]
    | inl missing ↦ absurd (ground arith)
  ]

  fan_out_sound :
      (params : List DecodedValue) (is : List ℕ) (found : List R)
      → fan_out index block_number planned emission params is ≡ ok found
      → (r : R) → In r found
      → (i : ℕ) × In i is × Emits params i r
  unfolding fan_out
  fan_out_sound params [] found e r h =
      let same : found ≡ [] = ground arith in elim (subst (In r) same h) [ ]
  fan_out_sound params (i ∷ is) found e r h =
      elim (Bool-cases (monitor_is_planned index i block_number planned)) [
        | inl plan ↦
            let (m, here, later, at, emits, rest, same) =
              fan_out-planned params i is found plan e in
            elim (In-append_cases r here later (subst (In r) (sym same) h)) [
              | inl l ↦ (i, inl refl, emit_sound params i m plan at here emits r l)
              | inr l ↦
                  let (j, inside, out) = fan_out_sound params is later rest r l in
                  (j, inr inside, out)
            ]
        | inr off ↦
            let rest : fan_out index block_number planned emission params is ≡ ok found =
              ground (arith, e, off) in
            let (j, inside, out) = fan_out_sound params is found rest r h in (j, inr inside, out)
      ]

  fan_out_complete :
      (params : List DecodedValue) (is : List ℕ) (found : List R)
      → fan_out index block_number planned emission params is ≡ ok found
      → (r : R) (i : ℕ) → In i is
      → Emits params i r
      → In r found
  unfolding fan_out
  fan_out_complete params [] found e r i inside out = elim inside [ ]
  fan_out_complete params (j ∷ is) found e r i inside out =
      elim (Bool-cases (monitor_is_planned index j block_number planned)) [
        | inl plan ↦
            let (m, here, later, at, emits, rest, same) =
              fan_out-planned params j is found plan e in
            elim inside [
              | inl is_j ↦
                  let out' : Emits params j r = subst (λ k. Emits params k r) is_j out in
                  subst (In r) same
                    (In-append_left r here later (emit_complete params j m at here emits r out'))
              | inr more ↦ subst (In r) same (
                  In-append_right r here later (fan_out_complete params is later rest r i more out))
            ]
        | inr off ↦
            let rest : fan_out index block_number planned emission params is ≡ ok found =
              ground (arith, e, off) in
            elim inside [
              | inl is_j ↦
                  let plan : monitor_is_planned index i block_number planned ≡ true = out.1 in
                  absurd (ground (arith, plan, off, is_j))
              | inr more ↦ fan_out_complete params is found rest r i more out
            ]
      ]

  -- A successful pass over a layout that is planned, in its parts.
  decode_layouts-planned :
      {L D : Type 0} (decode : D → Result AbiError (List DecodedValue)) (l : L) (group : Group D)
      (layouts : Layouts L D) (found : List R)
      → any_planned index block_number planned group ≡ true
      → decode_layouts index block_number planned emission decode ((l, group) ∷ layouts) ≡ ok found
      → (here : List R) × (later : List R) × (fan_out_decoded index block_number planned emission
            (decode group.decoder)
            group.monitor_indices
          ≡ ok here)
        × (decode_layouts index block_number planned emission decode layouts ≡ ok later)
        × (here ++ later ≡ found)
  unfolding decode_layouts
  decode_layouts-planned decode l group layouts found plan e =
      elim (Result-cases (
        fan_out_decoded index block_number planned emission (decode group.decoder)
          group.monitor_indices)) [
            | inl (here, out) ↦
                elim (Result-cases
                  (decode_layouts index block_number planned emission decode layouts)) [
                    | inl (later, rest) ↦
                        (here, later, out, rest, ground (arith, e, out, rest, plan))
                    | inr (x, fails) ↦ absurd (ground arith)
                  ]
            | inr (x, fails) ↦ absurd (ground arith)
          ]

  -- Every result is one of a layout that decodes.
  pub decode_layouts_sound :
      {L D : Type 0} (decode : D → Result AbiError (List DecodedValue)) (layouts : Layouts L D)
      (found : List R)
      → decode_layouts index block_number planned emission decode layouts ≡ ok found
      → (r : R) → In r found
      → EmitsOf decode layouts r
  unfolding decode_layouts fan_out_decoded
  decode_layouts_sound decode [] found e r h =
      let same : found ≡ [] = ground arith in elim (subst (In r) same h) [ ]
  decode_layouts_sound decode ((l, group) ∷ layouts) found e r h =
      elim (Bool-cases (any_planned index block_number planned group)) [
        | inl plan ↦
            let (here, later, out, rest, same) =
              decode_layouts-planned decode l group layouts found plan e in
            elim (In-append_cases r here later (subst (In r) (sym same) h)) [
              | inl inside ↦ elim (Result-cases (decode group.decoder)) [
                | inl (params, decoded) ↦
                    let fans : fan_out index block_number planned emission params
                          group.monitor_indices
                        ≡ ok here =
                      ground (arith, out, decoded) in
                    let (i, member, emits) =
                      fan_out_sound params group.monitor_indices here fans r inside in
                    (l, group, params, i, inl refl, decoded, member, emits)
                | inr (x, fails) ↦
                    let none_here : here ≡ [] = ground (arith, out, fails) in
                    elim (subst (In r) none_here inside) [ ]
              ]
              | inr inside ↦
                  let (k, g, params, i, at, decoded, member, emits) =
                    decode_layouts_sound decode layouts later rest r inside in
                  (k, g, params, i, inr at, decoded, member, emits)
            ]
        | inr off ↦
            let rest : decode_layouts index block_number planned emission decode layouts
                ≡ ok found =
              ground (arith, e, off) in
            let (k, g, params, i, at, decoded, member, emits) =
              decode_layouts_sound decode layouts found rest r h in
            (k, g, params, i, inr at, decoded, member, emits)
      ]

  -- Every result of a layout that decodes is there.
  pub decode_layouts_complete :
      {L D : Type 0} (decode : D → Result AbiError (List DecodedValue)) (layouts : Layouts L D)
      (found : List R)
      → decode_layouts index block_number planned emission decode layouts ≡ ok found
      → (r : R) → EmitsOf decode layouts r
      → In r found
  unfolding decode_layouts fan_out_decoded
  decode_layouts_complete decode [] found e r (l, g, params, i, at, decoded, member, emits) =
      elim at [ ]
  decode_layouts_complete decode ((k, group) ∷ layouts) found e r
        (l, g, params, i, inl at, decoded, member, emits) =
      let one : g ≡ group = ap (λ x. x.1) at in
      let decoded' : decode group.decoder ≡ ok params =
        subst (λ x. decode x.decoder ≡ ok params) one decoded in
      let member' : In i group.monitor_indices = subst (λ x. In i x.monitor_indices) one member in
      let plan : any_planned index block_number planned group ≡ true =
        any_planned-In index i block_number planned group.monitor_indices member' (emits.1) in
      let (here, later, out, rest, same) =
        decode_layouts-planned decode k group layouts found plan e in
      let fans : fan_out index block_number planned emission params group.monitor_indices
          ≡ ok here =
        ground (arith, out, decoded') in
      subst (In r) same (
        In-append_left r here later
          (fan_out_complete params group.monitor_indices here fans r i member' emits))
  decode_layouts_complete decode ((k, group) ∷ layouts) found e r
        (l, g, params, i, inr at, decoded, member, emits) =
      elim (Bool-cases (any_planned index block_number planned group)) [
        | inl plan ↦
            let (here, later, out, others, same) =
              decode_layouts-planned decode k group layouts found plan e in
            subst (In r) same (
              In-append_right r here later (
                decode_layouts_complete decode layouts later others r
                  (l, g, params, i, at, decoded, member, emits)))
        | inr off ↦
            let others : decode_layouts index block_number planned emission decode layouts
                ≡ ok found =
              ground (arith, e, off) in
            decode_layouts_complete decode layouts found others r
              (l, g, params, i, at, decoded, member, emits)
      ]
