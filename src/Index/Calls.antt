-- ===== src/Index/Calls.antt =====
-- What `decode_calls` of parseon-core/src/indexer.rs returns, over all layouts and monitors at once.
use parseon.Common.{
  ℕ, ◌≡◌, refl, sym, ap, subst, ◌∙◌, ◌↔◌, true, inl, inr, some, List, [], ◌∷◌, ◌++◌, any, eqb, keep,
  drop, length, zip, In, In-append_left, In-append_right, In-append_cases, Result, ok, get_elem?,
  arith, Bool-cases, Result-cases, Option-cases,
}
use parseon.Common.Eq.{◌==◌, nat_eq, string_eq, list_eq, pair_eq}
use parseon.Model.{
  Selector, SourceBlock, BlockTransaction, ExecutionOutcome, DecodedCall, DecodedValue, CallTarget,
  Target,
}
use parseon.Filter.Evaluate.{evaluate_filter}
use parseon.Monitor.{Monitor, needs_block}
use parseon.Abi.{Alloy, AbiError, CallDecoder, new_call_decoder, decode_call}
use parseon.Index.{MonitorIndex, Group, Layouts, CallLayout, get, is_active, new_index, call_layout}
use parseon.Index.Decode.{
  call_emission, selector_of, decode_layouts, decode_transaction_at, decode_candidate,
  decode_candidates, decode_calls,
}
use parseon.Index.Groups.{AreTargets, get-AreLayouts, AreLayouts-In, monitor_is_planned_iff}
use parseon.Index.Built.{NamesTypes, HasCall, DecodesCalls, new_index-IsIndexOf}
use parseon.Index.Placed.{IsPlaced, new_index-IsPlaced}
use parseon.Index.Fanout.{EmitsOf, decode_layouts_sound, decode_layouts_complete}

module _ (alloy : Alloy) where
  -- A call of a transaction for a monitor: the monitor is planned and needs the block, the transaction
  -- goes to its address with its selector, the calldata decodes by its own schema and its filter accepts.
  abbrev pub CallMatches :
      List Monitor → List ℕ → SourceBlock → BlockTransaction → DecodedCall → Type 0
  CallMatches monitors planned block tx c =
      (i : ℕ) × (m : Monitor) × (t : CallTarget) × (params : List DecodedValue) × (get_elem?
          monitors i
        ≡ some m)
      × (any (eqb i) planned ≡ true)
      × (needs_block m block.number ≡ true)
      × (m.target ≡ Target.call t)
      × (t.address ≡ tx.to)
      × (selector_of tx.input ≡ some t.selector)
      × (decode_call alloy (new_call_decoder t.inputs) (drop 4 tx.input) ≡ ok params)
      × (evaluate_filter m.filter ((call_emission block tx).context params) ≡ ok true)
      × (c ≡ (call_emission block tx).result m.id params)

module _ (alloy : Alloy) (names : NamesTypes alloy) (ms : List Monitor) (index : MonitorIndex)
    (built : new_index alloy ms ≡ ok index) (planned : List ℕ) (block : SourceBlock) where
  are : AreTargets (HasCall alloy (keep is_active ms)) (DecodesCalls alloy) index.calls
  are = (new_index-IsIndexOf alloy names ms index built).1

  over : index.monitors ≡ keep is_active ms
  over = (new_index-IsIndexOf alloy names ms index built).0

  abbrev decode_input : BlockTransaction → CallDecoder → Result AbiError (List DecodedValue)
  decode_input tx decoder = decode_call alloy decoder (drop 4 tx.input)

  -- What the groups of a target are.
  layouts-are :
      (tx : BlockTransaction) (selector : Selector) (layouts : Layouts CallLayout CallDecoder)
      → get (tx.to, selector) index.calls ≡ some layouts
      → (l : CallLayout) (g : Group CallDecoder) → In (l, g) layouts
      → DecodesCalls alloy (tx.to, selector) l g.decoder
        × ((i : ℕ)
            → In i g.monitor_indices
            → HasCall alloy (keep is_active ms) (tx.to, selector) l i)
  layouts-are tx selector layouts found =
      AreLayouts-In (HasCall alloy (keep is_active ms) (tx.to, selector))
        (DecodesCalls alloy (tx.to, selector)) layouts
        (get-AreLayouts (HasCall alloy (keep is_active ms)) (DecodesCalls alloy) (tx.to, selector)
          index.calls are layouts found)

  transaction-found :
      (tx : BlockTransaction) (selector : Selector) (layouts : Layouts CallLayout CallDecoder)
      → selector_of tx.input ≡ some selector
      → get (tx.to, selector) index.calls ≡ some layouts
      → decode_transaction_at alloy index planned block tx (selector_of tx.input)
        ≡ decode_layouts index block.number planned
            (call_emission block tx)
            (decode_input tx)
            layouts
  unfolding decode_transaction_at
  transaction-found tx selector layouts has found = rw (has, decode_transaction_at, found)

  emits-matches :
      (tx : BlockTransaction) (selector : Selector) (layouts : Layouts CallLayout CallDecoder)
      → selector_of tx.input ≡ some selector
      → get (tx.to, selector) index.calls ≡ some layouts
      → (c : DecodedCall)
      → EmitsOf index block.number planned (call_emission block tx) (decode_input tx) layouts c
      → CallMatches alloy (keep is_active ms) planned block tx c
  emits-matches tx selector layouts has found c
        (l, g, params, i, at, decoded, inside, (m, plan, here, accepts, is)) =
      matched ((layouts-are tx selector layouts found l g at).0)
        ((layouts-are tx selector layouts found l g at).1 i inside)
    where
      matched :
          DecodesCalls alloy (tx.to, selector) l g.decoder
          → HasCall alloy (keep is_active ms) (tx.to, selector) l i
          → CallMatches alloy (keep is_active ms) planned block tx c
      matched good (n, t, at', has', key, layout) =
          let here' : get_elem? (keep is_active ms) i ≡ some m =
            subst (λ k. get_elem? k i ≡ some m) over here in
          let one : n ≡ m = ground (arith, at', here') in
          let decoder : new_call_decoder t.inputs ≡ g.decoder = good t.inputs layout in
          let both = (monitor_is_planned_iff index i block.number planned m here).0 plan in
          (
            i,
            m,
            t,
            params,
            here',
            both.0,
            both.1,
            subst (λ k. k.target ≡ Target.call t) one has',
            ap (λ k. k.0) key,
            subst (λ s. selector_of tx.input ≡ some s) (sym (ap (λ k. k.1) key)) has,
            subst (λ d. decode_input tx d ≡ ok params) (sym decoder) decoded,
            accepts,
            is,
          )

  transaction_sound :
      (tx : BlockTransaction) (calls : List DecodedCall)
      → decode_transaction_at alloy index planned block tx (selector_of tx.input) ≡ ok calls
      → (c : DecodedCall) → In c calls
      → CallMatches alloy (keep is_active ms) planned block tx c
  unfolding decode_transaction_at
  transaction_sound tx calls e c h = elim (Option-cases (selector_of tx.input)) [
    | inl missing ↦
        let same : calls ≡ [] = ground (arith, e, missing) in elim (subst (In c) same h) [ ]
    | inr (selector, has) ↦ elim (Option-cases (get (tx.to, selector) index.calls)) [
      | inl missing ↦
          let same : calls ≡ [] = ground (arith, e, has, missing) in elim (subst (In c) same h) [ ]
      | inr (layouts, found) ↦ emits-matches tx selector layouts has found c (
          decode_layouts_sound index block.number planned (call_emission block tx) (decode_input tx)
            layouts calls (sym (transaction-found tx selector layouts has found) ∙ e) c h)
    ]
  ]

  transaction_complete :
      (tx : BlockTransaction) (calls : List DecodedCall)
      → decode_transaction_at alloy index planned block tx (selector_of tx.input) ≡ ok calls
      → (c : DecodedCall) → CallMatches alloy (keep is_active ms) planned block tx c
      → In c calls
  transaction_complete tx calls e c
        (i, m, t, params, here, listed, needs, has, to, sel, decoded, accepts, is) =
      emitted (
        subst (λ u. IsPlaced alloy u i index) has
          (new_index-IsPlaced alloy ms index built i m here))
    where
      emitted : IsPlaced alloy (Target.call t) i index → In c calls
      emitted (layouts, found, (g, at, inside)) =
          let found' : get (tx.to, t.selector) index.calls ≡ some layouts =
            subst (λ a. get (a, t.selector) index.calls ≡ some layouts) to found in
          let here' : get_elem? index.monitors i ≡ some m =
            subst (λ k. get_elem? k i ≡ some m) (sym over) here in
          let decoder : new_call_decoder t.inputs ≡ g.decoder =
            (layouts-are tx t.selector layouts found' (call_layout alloy t.inputs) g at).0 t.inputs
              refl in
          decode_layouts_complete index block.number planned (call_emission block tx)
            (decode_input tx) layouts calls
            (sym (transaction-found tx t.selector layouts sel found') ∙ e) c
            (
              call_layout alloy t.inputs,
              g,
              params,
              i,
              at,
              subst (λ d. decode_input tx d ≡ ok params) decoder decoded,
              inside,
              (
                m,
                (monitor_is_planned_iff index i block.number planned m here').1 (listed, needs),
                here',
                accepts,
                is,
              ),
            )

  -- A call of a candidate with its outcome.
  abbrev pub CandidateMatches : ℕ → ExecutionOutcome → DecodedCall → Type 0
  CandidateMatches candidate outcome c =
      (tx : BlockTransaction) × (get_elem? block.transactions candidate ≡ some tx)
      × (outcome.succeeded ≡ true)
      × CallMatches alloy (keep is_active ms) planned block tx c

  candidate_iff :
      (candidate : ℕ) (outcome : ExecutionOutcome) (calls : List DecodedCall)
      → decode_candidate alloy index planned block candidate outcome ≡ ok calls
      → (c : DecodedCall) → In c calls ↔ CandidateMatches candidate outcome c
  unfolding decode_candidate
  candidate_iff candidate outcome calls e c =
      elim (Option-cases (get_elem? block.transactions candidate)) [
        | inl missing ↦ absurd (ground arith)
        | inr (tx, at) ↦ elim (Bool-cases (outcome.transaction_hash == tx.hash)) [
          | inr differs ↦ absurd (ground arith)
          | inl same_hash ↦ elim (Bool-cases outcome.succeeded) [
            | inr failed ↦
                let same : calls ≡ [] = ground (arith, e, at, same_hash, failed) in
                ((λ h. elim (subst (In c) same h) [ ]), λ h. absurd (ground (arith, h.2, failed)))
            | inl succeeded ↦
                let run : decode_transaction_at alloy index planned block tx (selector_of tx.input)
                    ≡ ok calls =
                  ground (arith, e, at, same_hash, succeeded) in
                (
                  (λ h. (tx, at, succeeded, transaction_sound tx calls run c h)),
                  λ (tx', at', _, matches).
                      let one : tx' ≡ tx = ground (arith, at, at') in
                      transaction_complete tx calls run c (
                        subst (λ x. CallMatches alloy (keep is_active ms) planned block x c) one
                          matches),
                )
          ]
        ]
      ]

  -- The same over all candidates.
  abbrev pub SomeCandidateMatches : List ℕ → List ExecutionOutcome → DecodedCall → Type 0
  SomeCandidateMatches candidates outcomes c =
      (candidate : ℕ) × (outcome : ExecutionOutcome) × In (candidate, outcome)
        (zip candidates outcomes)
      × CandidateMatches candidate outcome c

  candidates_iff :
      (candidates : List ℕ) (outcomes : List ExecutionOutcome) (calls : List DecodedCall)
      → decode_candidates alloy index planned block candidates outcomes ≡ ok calls
      → (c : DecodedCall) → In c calls ↔ SomeCandidateMatches candidates outcomes c
  unfolding decode_candidates
  candidates_iff [] outcomes calls e c =
      let same : calls ≡ [] = ground arith in
      ((λ h. elim (subst (In c) same h) [ ]), λ h. elim (h.2) [ ])
  candidates_iff (i ∷ candidates) [] calls e c =
      let same : calls ≡ [] = ground arith in
      ((λ h. elim (subst (In c) same h) [ ]), λ h. elim (h.2) [ ])
  candidates_iff (i ∷ candidates) (o ∷ outcomes) calls e c =
      elim (Result-cases (decode_candidate alloy index planned block i o)) [
        | inr (x, fails) ↦ absurd (ground arith)
        | inl (found, here) ↦
            elim (Result-cases (decode_candidates alloy index planned block candidates outcomes)) [
              | inr (x, fails) ↦ absurd (ground arith)
              | inl (later, rest) ↦
                  let same : found ++ later ≡ calls = ground (arith, e, here, rest) in
                  let first = candidate_iff i o found here c in
                  let others = candidates_iff candidates outcomes later rest c in
                  (
                    (λ h. elim (In-append_cases c found later (subst (In c) (sym same) h)) [
                      | inl l ↦ (i, o, inl refl, first.0 l)
                      | inr l ↦ let (j, p, at, matches) = others.0 l in (j, p, inr at, matches)
                    ]),
                    λ (j, p, at, matches). subst (In c) same (elim at [
                      | inl is ↦
                          In-append_left c found later
                            (first.1 (subst (λ x. CandidateMatches (x.0) (x.1) c) is matches))
                      | inr more ↦ In-append_right c found later (others.1 (j, p, more, matches))
                    ]),
                  )
            ]
      ]

  -- When `decode_calls` succeeds with an index built of the monitors, it returns exactly the calls that
  -- match: for a candidate whose transaction succeeded, and an active monitor that is planned, needs the
  -- block, has the transaction's address and selector as its target, whose own schema decodes the calldata
  -- and whose filter accepts the parameters. It is assumed that no two types have one name.
  pub decode_calls_iff :
      (candidates : List ℕ) (outcomes : List ExecutionOutcome) (calls : List DecodedCall)
      → decode_calls alloy index planned block candidates outcomes ≡ ok calls
      → (c : DecodedCall) → In c calls ↔ SomeCandidateMatches candidates outcomes c
  unfolding decode_calls
  decode_calls_iff candidates outcomes calls e c =
      elim (Bool-cases (eqb (length candidates) (length outcomes))) [
        | inl same ↦ candidates_iff candidates outcomes calls (ground (arith, e, same)) c
        | inr differ ↦ absurd (ground arith)
      ]
