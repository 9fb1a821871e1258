-- ===== src/Index.antt =====
-- `MonitorIndex` of parseon-core/src/indexer.rs: the active monitors, grouped by target and by the wire
-- layout of their parameters.
pub mod Decode
pub mod Groups
pub mod Built
pub mod Kept
pub mod Placed
pub mod Fanout
pub mod Calls
pub mod Events
use parseon.Common.{
  ℕ, zero, suc, Bool, true, false, not, ◌&&◌, String, Option, none, some, List, [], ◌∷◌, ◌++◌, map,
  any, keep, eqb, if◌then◌else◌, Result, ok, err, ◌>>=◌, get_elem?, is_some_and,
}
use parseon.Common.Eq.{Eq, ◌==◌, nat_eq, string_eq, bool_eq, list_eq, pair_eq}
use parseon.Model.{Address, Selector, B256, BlockNumber, AbiParam, Target, CallTarget, EventTarget}
use parseon.Monitor.{Monitor, needs_block}
use parseon.Abi.{Alloy, AbiError, CallDecoder, EventDecoder, new_call_decoder, new_event_decoder}
use parseon.Errors.{Error}

-- `IndexedCallLayout` and `IndexedEventLayout`: the monitors of a layout and their decoder.
pub record Group (D : Type 0) : Type 0 where
  pub monitor_indices : List ℕ
  pub decoder : D

-- A hash map from targets to hash maps from layouts to groups, each as an association list.
abbrev pub Layouts : Type 0 → Type 0 → Type 0
Layouts L D = List (L × Group D)

abbrev pub Targets : Type 0 → Type 0 → Type 0 → Type 0
Targets K L D = List (K × Layouts L D)

abbrev pub get {ℓ} : {K V : Type ℓ} ⦃e : Eq K⦄ → K → List (K × V) → Option V
get k [] = none
get k ((j, v) ∷ m) = let later = get k m in if j == k then some v else later

module _ {L D : Type 0} ⦃f : Eq L⦄ where
  -- `get_mut` of the layout and a push, or an insertion with a new decoder.
  unfoldable pub add_to_layouts : L → ℕ → Result Error D → Layouts L D → Result Error (Layouts L D)
  add_to_layouts layout index decoder [] = do
    d ← decoder
    ok ((layout, record { monitor_indices = index ∷ []; decoder = d }) ∷ [])
  add_to_layouts layout index decoder ((l, group) ∷ rest) =
      let later = add_to_layouts layout index decoder rest in
      if l == layout
      then ok ((l, record group { monitor_indices = group.monitor_indices ++ index ∷ [] }) ∷ rest)
      else (later >>= λ layouts. ok ((l, group) ∷ layouts))

module _ {K L D : Type 0} ⦃e : Eq K⦄ ⦃f : Eq L⦄ where
  -- `entry(target).or_insert_with(default)`, then the same in the layouts.
  unfoldable pub add_to_targets :
      K → L → ℕ → Result Error D → Targets K L D → Result Error (Targets K L D)
  unfolding add_to_layouts
  add_to_targets target layout index decoder [] = do
    layouts ← add_to_layouts layout index decoder []
    ok ((target, layouts) ∷ [])
  add_to_targets target layout index decoder ((k, layouts) ∷ rest) =
      let later = add_to_targets target layout index decoder rest in
      if k == target
      then (add_to_layouts layout index decoder layouts >>= λ added. ok ((k, added) ∷ rest))
      else (later >>= λ targets. ok ((k, layouts) ∷ targets))

abbrev pub CallLayout : Type 0
CallLayout = List String

abbrev pub EventLayout : Type 0
EventLayout = List (String × Bool)

abbrev pub CallKey : Type 0
CallKey = Address × Selector

abbrev pub EventKey : Type 0
EventKey = Address × B256

-- `MonitorIndex`
pub record MonitorIndex : Type 0 where
  pub monitors : List Monitor
  pub calls : Targets CallKey CallLayout CallDecoder
  pub events : Targets EventKey EventLayout EventDecoder

-- The filter of `MonitorIndex::new`.
abbrev pub is_active : Monitor → Bool
is_active m = m.enabled && not m.completed

abbrev pub map_err {ℓ} : {E F A : Type ℓ} → (E → F) → Result E A → Result F A
map_err f (ok a) = ok a
map_err f (err e) = err (f e)

module _ (alloy : Alloy) where
  abbrev pub call_layout : List AbiParam → CallLayout
  call_layout params = map (λ p. alloy.type_name p.ty) params

  abbrev pub event_layout : List AbiParam → EventLayout
  event_layout params = map (λ p. (alloy.type_name p.ty, p.indexed)) params

  -- The body of the loop over the monitors.
  unfoldable pub add_monitor : ℕ → Target → MonitorIndex → Result Error MonitorIndex
  unfolding add_to_targets
  add_monitor index (Target.call target) state = do
    calls ←
        add_to_targets (target.address, target.selector) (call_layout target.inputs) index
          (ok (new_call_decoder target.inputs)) state.calls
    ok (record state { calls = calls })
  add_monitor index (Target.event target) state = do
    events ←
        add_to_targets (target.address, target.topic0) (event_layout target.params) index
          (map_err Error.abi (new_event_decoder alloy target.params target.topic0)) state.events
    ok (record state { events = events })

  unfoldable pub add_monitors : ℕ → List Monitor → MonitorIndex → Result Error MonitorIndex
  unfolding add_monitor
  add_monitors index [] state = ok state
  add_monitors index (m ∷ ms) state = do
    next ← add_monitor index m.target state
    add_monitors (suc index) ms next

  -- `MonitorIndex::new`
  unfoldable pub new_index : List Monitor → Result Error MonitorIndex
  unfolding add_monitors
  new_index monitors =
      let active = keep is_active monitors in
      add_monitors 0 active (record { monitors = active; calls = []; events = [] })

-- `monitor_is_planned`. The planned indices are in ascending order, so that `binary_search` finds
-- exactly those that are there.
unfoldable pub monitor_is_planned : MonitorIndex → ℕ → BlockNumber → List ℕ → Bool
unfolding needs_block
monitor_is_planned index i block_number planned =
    any (eqb i) planned
    && is_some_and (get_elem? index.monitors i) (λ m. needs_block m block_number)

-- Whether a monitor of a group is planned.
abbrev pub any_planned : {D : Type 0} → MonitorIndex → BlockNumber → List ℕ → Group D → Bool
any_planned index block_number planned group =
    any (λ i. monitor_is_planned index i block_number planned) group.monitor_indices

abbrev pub any_layout_planned :
    {L D : Type 0} → MonitorIndex → BlockNumber → List ℕ → Layouts L D → Bool
any_layout_planned index block_number planned layouts =
    any (λ entry. any_planned index block_number planned entry.1) layouts

-- `has_call`
unfoldable pub has_call : MonitorIndex → BlockNumber → Address → Selector → List ℕ → Bool
unfolding monitor_is_planned
has_call index block_number address selector planned =
    is_some_and (get (address, selector) index.calls)
      (any_layout_planned index block_number planned)
