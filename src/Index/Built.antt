-- ===== src/Index/Built.antt =====
-- What `MonitorIndex::new` of parseon-core/src/indexer.rs promises of its groups: their monitors are active
-- ones with the group's target and wire layout, and their decoder is the one that each of them needs.
use parseon.Common.{
  ℕ, suc, ◌+◌, ◌≡◌, inl, inr, refl, subst, some, List, [], ◌∷◌, map, not, keep, ok, get_elem?,
  arith, Result-cases,
}
use parseon.Common.Eq.{nat_eq, string_eq, bool_eq, list_eq, pair_eq}
use parseon.Model.{B256, SolType, AbiParam, Target, CallTarget, EventTarget}
use parseon.Monitor.{Monitor}
use parseon.Abi.{Alloy, CallDecoder, EventDecoder, types, new_call_decoder, new_event_decoder}
use parseon.Errors.{Error}
use parseon.Index.{
  MonitorIndex, CallKey, CallLayout, EventKey, EventLayout, is_active, map_err, call_layout,
  event_layout, add_to_targets, add_monitor, add_monitors, new_index,
}
use parseon.Index.Groups.{AreTargets, add_to_targets-AreTargets}

module _ (alloy : Alloy) where
  -- The monitor at an index has this call target and layout.
  abbrev pub HasCall : List Monitor → CallKey → CallLayout → ℕ → Type 0
  HasCall monitors k l i =
      (m : Monitor) × (t : CallTarget) × (get_elem? monitors i ≡ some m)
      × (m.target ≡ Target.call t)
      × ((t.address, t.selector) ≡ k)
      × (call_layout alloy t.inputs ≡ l)

  abbrev pub HasEvent : List Monitor → EventKey → EventLayout → ℕ → Type 0
  HasEvent monitors k l i =
      (m : Monitor) × (t : EventTarget) × (get_elem? monitors i ≡ some m)
      × (m.target ≡ Target.event t)
      × ((t.address, t.topic0) ≡ k)
      × (event_layout alloy t.params ≡ l)

  -- The decoder is the one of every schema with this layout.
  abbrev pub DecodesCalls : CallKey → CallLayout → CallDecoder → Type 0
  DecodesCalls k l d =
      (params : List AbiParam) → call_layout alloy params ≡ l → new_call_decoder params ≡ d

  abbrev pub DecodesEvents : EventKey → EventLayout → EventDecoder → Type 0
  DecodesEvents k l d =
      (params : List AbiParam)
      → event_layout alloy params ≡ l
      → new_event_decoder alloy params (k.1) ≡ ok d

  -- A type is known by its name, which `Display` of alloy's types writes.
  abbrev pub NamesTypes : Type 0
  NamesTypes = (a b : SolType) → alloy.type_name a ≡ alloy.type_name b → a ≡ b

  types-call_layout :
      NamesTypes
      → (ps qs : List AbiParam) → call_layout alloy ps ≡ call_layout alloy qs
      → types ps ≡ types qs
  types-call_layout names [] [] h = refl
  types-call_layout names [] (q ∷ qs) h = absurd (ground arith)
  types-call_layout names (p ∷ ps) [] h = absurd (ground arith)
  types-call_layout names (p ∷ ps) (q ∷ qs) h =
      let rest : types ps ≡ types qs = types-call_layout names ps qs (ground arith) in
      let here : p.ty ≡ q.ty = names p.ty q.ty (ground arith) in ground (arith, rest, here)

  -- What an event decoder reads of a schema.
  new_event_decoder-event_layout :
      NamesTypes
      → (ps qs : List AbiParam) → event_layout alloy ps ≡ event_layout alloy qs
      → (types (keep (λ p. p.indexed) ps) ≡ types (keep (λ p. p.indexed) qs))
        × (types (keep (λ p. not p.indexed) ps) ≡ types (keep (λ p. not p.indexed) qs))
        × (map (λ p. p.indexed) ps ≡ map (λ p. p.indexed) qs)
  new_event_decoder-event_layout names [] [] h = (refl, refl, refl)
  new_event_decoder-event_layout names [] (q ∷ qs) h = absurd (ground arith)
  new_event_decoder-event_layout names (p ∷ ps) [] h = absurd (ground arith)
  new_event_decoder-event_layout names (p ∷ ps) (q ∷ qs) h =
      let rest = new_event_decoder-event_layout names ps qs (ground arith) in
      let here : p.ty ≡ q.ty = names p.ty q.ty (ground arith) in
      let flag : p.indexed ≡ q.indexed = ground arith in
      ground (arith, rest.0, rest.1, rest.2, here, flag)

  -- Schemas with one layout have one decoder.
  new_event_decoder-eq :
      NamesTypes
      → (topic0 : B256) (ps qs : List AbiParam) → event_layout alloy ps ≡ event_layout alloy qs
      → (d : EventDecoder) → map_err Error.abi (new_event_decoder alloy qs topic0) ≡ ok d
      → new_event_decoder alloy ps topic0 ≡ ok d
  unfolding new_event_decoder
  new_event_decoder-eq names topic0 ps qs h d made =
      let (indexed, body, flags) = new_event_decoder-event_layout names ps qs h in
      ground (arith, indexed, body, flags, made)

  -- What holds of an index over a list of monitors.
  abbrev pub IsIndexOf : List Monitor → MonitorIndex → Type 0
  IsIndexOf monitors index =
      (index.monitors ≡ monitors)
      × AreTargets (HasCall monitors) DecodesCalls index.calls
      × AreTargets (HasEvent monitors) DecodesEvents index.events

  add_monitor-IsIndexOf :
      NamesTypes
      → (monitors : List Monitor) (i : ℕ) (m : Monitor) → get_elem? monitors i ≡ some m
      → (t : Target) → m.target ≡ t
      → (state : MonitorIndex) → IsIndexOf monitors state
      → (next : MonitorIndex) → add_monitor alloy i t state ≡ ok next
      → IsIndexOf monitors next
  unfolding add_monitor
  add_monitor-IsIndexOf names monitors i m at (Target.call t) has state (same, calls, events) next
        e =
      elim (Result-cases (
        add_to_targets (t.address, t.selector) (call_layout alloy t.inputs) i
          (ok (new_call_decoder t.inputs)) state.calls)) [
            | inl (added, eq) ↦
                let are : AreTargets (HasCall monitors) DecodesCalls added =
                  add_to_targets-AreTargets (HasCall monitors) DecodesCalls (t.address, t.selector)
                    (call_layout alloy t.inputs) i (ok (new_call_decoder t.inputs))
                    (m, t, at, has, refl, refl)
                    (λ d made params l.
                      ground (arith, made, types-call_layout names params t.inputs l))
                    state.calls calls added eq in
                let to : record state { calls = added } ≡ next = ground (arith, e, eq) in
                subst (IsIndexOf monitors) to (same, are, events)
            | inr (x, eq) ↦ absurd (ground arith)
          ]
  add_monitor-IsIndexOf names monitors i m at (Target.event t) has state (same, calls, events) next
        e =
      elim (Result-cases (
        add_to_targets (t.address, t.topic0) (event_layout alloy t.params) i
          (map_err Error.abi (new_event_decoder alloy t.params t.topic0)) state.events)) [
            | inl (added, eq) ↦
                let are : AreTargets (HasEvent monitors) DecodesEvents added =
                  add_to_targets-AreTargets (HasEvent monitors) DecodesEvents (t.address, t.topic0)
                    (event_layout alloy t.params) i
                    (map_err Error.abi (new_event_decoder alloy t.params t.topic0))
                    (m, t, at, has, refl, refl)
                    (λ d made params l.
                      new_event_decoder-eq names t.topic0 params t.params l d made)
                    state.events events added eq in
                let to : record state { events = added } ≡ next = ground (arith, e, eq) in
                subst (IsIndexOf monitors) to (same, calls, are)
            | inr (x, eq) ↦ absurd (ground arith)
          ]

  add_monitors-IsIndexOf :
      NamesTypes
      → (monitors : List Monitor) (i : ℕ) (ms : List Monitor)
      → ((j : ℕ) → get_elem? ms j ≡ get_elem? monitors (i + j))
      → (state : MonitorIndex) → IsIndexOf monitors state
      → (index : MonitorIndex) → add_monitors alloy i ms state ≡ ok index
      → IsIndexOf monitors index
  unfolding add_monitors
  add_monitors-IsIndexOf names monitors i [] suffix state h index e =
      let same : state ≡ index = ground arith in subst (IsIndexOf monitors) same h
  add_monitors-IsIndexOf names monitors i (m ∷ ms) suffix state h index e =
      elim (Result-cases (add_monitor alloy i m.target state)) [
        | inl (next, eq) ↦
            let here : i + 0 ≡ i = omega arith in
            let at : get_elem? monitors i ≡ some m = ground (arith, suffix 0, here) in
            let later : add_monitors alloy (suc i) ms next ≡ ok index = ground (arith, e, eq) in
            add_monitors-IsIndexOf names monitors (suc i) ms
              (λ j.
                let shift : i + suc j ≡ suc i + j = omega arith in
                ground (arith, suffix (suc j), shift))
              next (add_monitor-IsIndexOf names monitors i m at m.target refl state h next eq) index
              later
        | inr (x, eq) ↦ absurd (ground arith)
      ]

  -- The index that is built of a list of monitors is one over the active ones.
  pub new_index-IsIndexOf :
      NamesTypes
      → (ms : List Monitor) (index : MonitorIndex) → new_index alloy ms ≡ ok index
      → IsIndexOf (keep is_active ms) index
  unfolding new_index
  new_index-IsIndexOf names ms index e =
      add_monitors-IsIndexOf names (keep is_active ms) 0 (keep is_active ms)
        (λ j. let z : 0 + j ≡ j = omega arith in ground (arith, z))
        (record { monitors = keep is_active ms; calls = []; events = [] }) (refl, tt, tt) index e
