-- ===== src/Index/Placed.antt =====
-- Every active monitor is in the index that parseon-core/src/indexer.rs builds, under its target and layout.
use parseon.Common.{
  ℕ, zero, suc, ◌+◌, ◌≡◌, subst, inl, inr, some, List, [], ◌∷◌, keep, ok, get_elem?, arith,
  Result-cases,
}
use parseon.Common.Eq.{nat_eq, string_eq, bool_eq, list_eq, pair_eq}
use parseon.Model.{Target}
use parseon.Monitor.{Monitor}
use parseon.Abi.{Alloy, new_call_decoder, new_event_decoder}
use parseon.Errors.{Error}
use parseon.Index.{
  MonitorIndex, is_active, map_err, call_layout, event_layout, add_to_targets, add_monitor,
  add_monitors, new_index,
}
use parseon.Index.Kept.{InTargets, add_to_targets-adds, add_to_targets-keeps}

module _ (alloy : Alloy) where
  -- An index is in the group of a target.
  abbrev pub IsPlaced : Target → ℕ → MonitorIndex → Type 0
  IsPlaced (Target.call t) i index =
      InTargets (t.address, t.selector) (call_layout alloy t.inputs) i index.calls
  IsPlaced (Target.event t) i index =
      InTargets (t.address, t.topic0) (event_layout alloy t.params) i index.events

  -- What adding a monitor does to the places in the index.
  add_monitor-IsPlaced :
      (i : ℕ) (t : Target) (state next : MonitorIndex)
      → add_monitor alloy i t state ≡ ok next
      → IsPlaced t i next × ((u : Target) (j : ℕ) → IsPlaced u j state → IsPlaced u j next)
  unfolding add_monitor
  add_monitor-IsPlaced i (Target.call t) state next e =
      elim (Result-cases (
        add_to_targets (t.address, t.selector) (call_layout alloy t.inputs) i
          (ok (new_call_decoder t.inputs)) state.calls)) [
            | inl (added, eq) ↦
                let to : record state { calls = added } ≡ next = ground (arith, e, eq) in
                let adds : IsPlaced (Target.call t) i (record state { calls = added }) =
                  add_to_targets-adds (t.address, t.selector) (call_layout alloy t.inputs) i
                    (ok (new_call_decoder t.inputs)) state.calls added eq in
                (
                  subst (IsPlaced (Target.call t) i) to adds,
                  λ u j before. subst (IsPlaced u j) to (keeps added eq u j before),
                )
            | inr (x, eq) ↦ absurd (ground arith)
          ]
    where
      keeps :
          (added : _)
          → add_to_targets
              (t.address, t.selector)
              (call_layout alloy t.inputs)
              i
              (ok (new_call_decoder t.inputs))
              state.calls
            ≡ ok added
          → (u : Target) (j : ℕ) → IsPlaced u j state
          → IsPlaced u j (record state { calls = added })
      keeps added eq (Target.call u) j before =
          add_to_targets-keeps (t.address, t.selector) (call_layout alloy t.inputs) i
            (ok (new_call_decoder t.inputs)) state.calls added eq (u.address, u.selector)
            (call_layout alloy u.inputs) j before
      keeps added eq (Target.event u) j before = before
  add_monitor-IsPlaced i (Target.event t) state next e =
      elim (Result-cases (
        add_to_targets (t.address, t.topic0) (event_layout alloy t.params) i
          (map_err Error.abi (new_event_decoder alloy t.params t.topic0)) state.events)) [
            | inl (added, eq) ↦
                let to : record state { events = added } ≡ next = ground (arith, e, eq) in
                let adds : IsPlaced (Target.event t) i (record state { events = added }) =
                  add_to_targets-adds (t.address, t.topic0) (event_layout alloy t.params) i
                    (map_err Error.abi (new_event_decoder alloy t.params t.topic0)) state.events
                    added eq in
                (
                  subst (IsPlaced (Target.event t) i) to adds,
                  λ u j before. subst (IsPlaced u j) to (keeps added eq u j before),
                )
            | inr (x, eq) ↦ absurd (ground arith)
          ]
    where
      keeps :
          (added : _)
          → add_to_targets
              (t.address, t.topic0)
              (event_layout alloy t.params)
              i
              (map_err Error.abi (new_event_decoder alloy t.params t.topic0))
              state.events
            ≡ ok added
          → (u : Target) (j : ℕ) → IsPlaced u j state
          → IsPlaced u j (record state { events = added })
      keeps added eq (Target.call u) j before = before
      keeps added eq (Target.event u) j before =
          add_to_targets-keeps (t.address, t.topic0) (event_layout alloy t.params) i
            (map_err Error.abi (new_event_decoder alloy t.params t.topic0)) state.events added eq
            (u.address, u.topic0) (event_layout alloy u.params) j before

  add_monitors-IsPlaced :
      (i : ℕ) (ms : List Monitor) (state index : MonitorIndex)
      → add_monitors alloy i ms state ≡ ok index
      → ((u : Target) (j : ℕ) → IsPlaced u j state → IsPlaced u j index)
        × ((j : ℕ) (m : Monitor) → get_elem? ms j ≡ some m → IsPlaced m.target (i + j) index)
  unfolding add_monitors
  add_monitors-IsPlaced i [] state index e =
      let same : state ≡ index = ground arith in
      ((λ u j before. subst (IsPlaced u j) same before), λ j m at. absurd (ground arith))
  add_monitors-IsPlaced i (n ∷ ns) state index e =
      elim (Result-cases (add_monitor alloy i n.target state)) [
        | inl (next, eq) ↦
            let later : add_monitors alloy (suc i) ns next ≡ ok index = ground (arith, e, eq) in
            let (adds, keeps) = add_monitor-IsPlaced i n.target state next eq in
            let (stays, places) = add_monitors-IsPlaced (suc i) ns next index later in
            ((λ u j before. stays u j (keeps u j before)), split stays adds places)
        | inr (x, eq) ↦ absurd (ground arith)
      ]
    where
      split :
          {next : MonitorIndex}
          → ((u : Target) (j : ℕ) → IsPlaced u j next → IsPlaced u j index)
          → IsPlaced n.target i next
          → ((j : ℕ) (m : Monitor) → get_elem? ns j ≡ some m → IsPlaced m.target (suc i + j) index)
          → (j : ℕ) (m : Monitor) → get_elem? (n ∷ ns) j ≡ some m
          → IsPlaced m.target (i + j) index
      split stays adds places zero m at =
          let same : n ≡ m = ground arith in
          let here : i ≡ i + 0 = omega arith in
          subst (λ k. IsPlaced m.target k index) here
            (subst (λ k. IsPlaced k.target i index) same (stays n.target i adds))
      split stays adds places (suc j) m at =
          let shift : suc i + j ≡ i + suc j = omega arith in
          subst (λ k. IsPlaced m.target k index) shift (places j m at)

  -- Every active monitor is found under its target and layout.
  pub new_index-IsPlaced :
      (ms : List Monitor) (index : MonitorIndex)
      → new_index alloy ms ≡ ok index
      → (i : ℕ) (m : Monitor) → get_elem? (keep is_active ms) i ≡ some m
      → IsPlaced m.target i index
  unfolding new_index
  new_index-IsPlaced ms index e i m at =
      let here : 0 + i ≡ i = omega arith in
      subst (λ k. IsPlaced m.target k index) here
        ((add_monitors-IsPlaced 0 (keep is_active ms)
            (record { monitors = keep is_active ms; calls = []; events = [] }) index e).1
          i m at)
