-- ===== src/Index/Events.antt =====
-- What `decode_events` of parseon-core/src/indexer.rs returns, over all layouts and monitors at once.
use parseon.Common.{
  ℕ, ◌≡◌, refl, sym, ap, subst, ◌↔◌, true, false, inl, inr, some, List, [], ◌∷◌, ◌++◌, any, eqb,
  keep, In, In-append_left, In-append_right, In-append_cases, Result, ok, get_elem?, arith,
  Bool-cases, Result-cases, Option-cases,
}
use parseon.Common.Eq.{nat_eq, string_eq, bool_eq, list_eq, pair_eq}
use parseon.Model.{BlockNumber, B256, SourceLog, DecodedEvent, DecodedValue, EventTarget, Target}
use parseon.Filter.Evaluate.{evaluate_filter}
use parseon.Monitor.{Monitor, needs_block}
use parseon.Abi.{Alloy, AbiError, EventDecoder, new_event_decoder, decode_event}
use parseon.Index.{
  MonitorIndex, Group, Layouts, EventLayout, get, is_active, monitor_is_planned, any_layout_planned,
  new_index, event_layout,
}
use parseon.Index.Decode.{
  event_emission, is_of_block, decode_layouts, decode_planned_log, decode_log_at, decode_log,
  decode_events,
}
use parseon.Index.Groups.{
  AreTargets, get-AreLayouts, AreLayouts-In, any_layout_planned-In, monitor_is_planned_iff,
}
use parseon.Index.Built.{NamesTypes, HasEvent, DecodesEvents, new_index-IsIndexOf}
use parseon.Index.Placed.{IsPlaced, new_index-IsPlaced}
use parseon.Index.Fanout.{EmitsOf, decode_layouts_sound, decode_layouts_complete}

-- The guards on a log of a planned target: it is not removed, it says that it is of the block, and it has
-- its transaction hash and its index.
abbrev pub IsSound : BlockNumber → SourceLog → B256 → ℕ → Type 0
IsSound block_number log h n =
    (log.removed ≡ false)
    × (is_of_block block_number log.block_number ≡ true)
    × (log.transaction_hash ≡ some h)
    × (log.log_index ≡ some n)

module _ (alloy : Alloy) where
  -- An event of a log for a monitor: the monitor is planned and needs the block, the log is of its address
  -- with its first topic and passes the guards, its data decodes by the monitor's own schema and its filter
  -- accepts.
  abbrev pub EventMatches :
      List Monitor → List ℕ → BlockNumber → SourceLog → B256 → DecodedEvent → Type 0
  EventMatches monitors planned block_number log topic0 r =
      (h : B256) × (n : ℕ) × (i : ℕ) × (m : Monitor) × (t : EventTarget) × (d : EventDecoder)
      × (params : List DecodedValue) × IsSound block_number log h n
      × (get_elem? monitors i ≡ some m)
      × (any (eqb i) planned ≡ true)
      × (needs_block m block_number ≡ true)
      × (m.target ≡ Target.event t)
      × (t.address ≡ log.address)
      × (t.topic0 ≡ topic0)
      × (new_event_decoder alloy t.params topic0 ≡ ok d)
      × (decode_event alloy d log.topics log.log_data ≡ ok params)
      × (evaluate_filter m.filter ((event_emission block_number log h n).context params) ≡ ok true)
      × (r ≡ (event_emission block_number log h n).result m.id params)

module _ (alloy : Alloy) (names : NamesTypes alloy) (ms : List Monitor) (index : MonitorIndex)
    (built : new_index alloy ms ≡ ok index) (planned : List ℕ) (block_number : BlockNumber) where
  are : AreTargets (HasEvent alloy (keep is_active ms)) (DecodesEvents alloy) index.events
  are = (new_index-IsIndexOf alloy names ms index built).2

  over : index.monitors ≡ keep is_active ms
  over = (new_index-IsIndexOf alloy names ms index built).0

  abbrev decode_data : SourceLog → EventDecoder → Result AbiError (List DecodedValue)
  decode_data log decoder = decode_event alloy decoder log.topics log.log_data

  -- What the groups of a target are.
  layouts-are :
      (log : SourceLog) (topic0 : B256) (layouts : Layouts EventLayout EventDecoder)
      → get (log.address, topic0) index.events ≡ some layouts
      → (l : EventLayout) (g : Group EventDecoder) → In (l, g) layouts
      → DecodesEvents alloy (log.address, topic0) l g.decoder
        × ((i : ℕ)
            → In i g.monitor_indices
            → HasEvent alloy (keep is_active ms) (log.address, topic0) l i)
  layouts-are log topic0 layouts found =
      AreLayouts-In (HasEvent alloy (keep is_active ms) (log.address, topic0))
        (DecodesEvents alloy (log.address, topic0)) layouts
        (get-AreLayouts (HasEvent alloy (keep is_active ms)) (DecodesEvents alloy)
          (log.address, topic0) index.events are layouts found)

  -- The guards, when a log of a planned target decodes.
  planned_log-guards :
      (log : SourceLog) (layouts : Layouts EventLayout EventDecoder) (events : List DecodedEvent)
      → decode_planned_log alloy block_number index planned log layouts ≡ ok events
      → (h : B256) × (n : ℕ) × IsSound block_number log h n
        × (decode_layouts index block_number planned
              (event_emission block_number log h n)
              (decode_data log)
              layouts
            ≡ ok events)
  unfolding decode_planned_log
  planned_log-guards log layouts events e = elim (Option-cases log.transaction_hash) [
    | inl missing ↦ absurd (ground arith)
    | inr (h, has) ↦ elim (Option-cases log.log_index) [
      | inl missing ↦ absurd (ground arith)
      | inr (n, at) ↦
          let kept : log.removed ≡ false = ground arith in
          let numbered : is_of_block block_number log.block_number ≡ true = ground arith in
          (h, n, (kept, numbered, has, at), ground (arith, e, has, at, kept, numbered))
    ]
  ]

  emits-matches :
      (log : SourceLog) (topic0 : B256) (layouts : Layouts EventLayout EventDecoder)
      → get (log.address, topic0) index.events ≡ some layouts
      → (h : B256) (n : ℕ) → IsSound block_number log h n
      → (r : DecodedEvent)
      → EmitsOf index block_number planned
          (event_emission block_number log h n)
          (decode_data log)
          layouts
          r
      → EventMatches alloy (keep is_active ms) planned block_number log topic0 r
  emits-matches log topic0 layouts found h n sound r
        (l, g, params, i, at, decoded, inside, (m, plan, here, accepts, is)) =
      matched ((layouts-are log topic0 layouts found l g at).0)
        ((layouts-are log topic0 layouts found l g at).1 i inside)
    where
      matched :
          DecodesEvents alloy (log.address, topic0) l g.decoder
          → HasEvent alloy (keep is_active ms) (log.address, topic0) l i
          → EventMatches alloy (keep is_active ms) planned block_number log topic0 r
      matched good (n', t, at', has', key, layout) =
          let here' : get_elem? (keep is_active ms) i ≡ some m =
            subst (λ k. get_elem? k i ≡ some m) over here in
          let one : n' ≡ m = ground (arith, at', here') in
          let both = (monitor_is_planned_iff index i block_number planned m here).0 plan in
          (
            h,
            n,
            i,
            m,
            t,
            g.decoder,
            params,
            sound,
            here',
            both.0,
            both.1,
            subst (λ k. k.target ≡ Target.event t) one has',
            ap (λ k. k.0) key,
            ap (λ k. k.1) key,
            good t.params layout,
            decoded,
            accepts,
            is,
          )

  layouts_sound :
      (log : SourceLog) (topic0 : B256) (layouts : Layouts EventLayout EventDecoder)
      → get (log.address, topic0) index.events ≡ some layouts
      → (events : List DecodedEvent)
      → decode_planned_log alloy block_number index planned log layouts ≡ ok events
      → (r : DecodedEvent) → In r events
      → EventMatches alloy (keep is_active ms) planned block_number log topic0 r
  layouts_sound log topic0 layouts found events e r inside =
      guarded (planned_log-guards log layouts events e)
    where
      guarded :
          (h : B256) × (n : ℕ) × IsSound block_number log h n
            × (decode_layouts index block_number planned
                  (event_emission block_number log h n)
                  (decode_data log)
                  layouts
                ≡ ok events)
          → EventMatches alloy (keep is_active ms) planned block_number log topic0 r
      guarded (h, n, sound, run) = emits-matches log topic0 layouts found h n sound r (
          decode_layouts_sound index block_number planned (event_emission block_number log h n)
            (decode_data log) layouts events run r inside)

  log_at_sound :
      (log : SourceLog) (topic0 : B256) (events : List DecodedEvent)
      → decode_log_at alloy block_number index planned log (get (log.address, topic0) index.events)
        ≡ ok events
      → (r : DecodedEvent) → In r events
      → EventMatches alloy (keep is_active ms) planned block_number log topic0 r
  unfolding decode_log_at
  log_at_sound log topic0 events e r inside =
      elim (Option-cases (get (log.address, topic0) index.events)) [
        | inl missing ↦
            let same : events ≡ [] = ground (arith, e, missing) in
            elim (subst (In r) same inside) [ ]
        | inr (layouts, found) ↦
            elim (Bool-cases (any_layout_planned index block_number planned layouts)) [
              | inl plan ↦
                  layouts_sound log topic0 layouts found events (ground (arith, e, found, plan)) r
                    inside
              | inr off ↦
                  let same : events ≡ [] = ground (arith, e, found, off) in
                  elim (subst (In r) same inside) [ ]
            ]
      ]

  log_at_complete :
      (log : SourceLog) (topic0 : B256) (events : List DecodedEvent)
      → decode_log_at alloy block_number index planned log (get (log.address, topic0) index.events)
        ≡ ok events
      → (r : DecodedEvent)
      → EventMatches alloy (keep is_active ms) planned block_number log topic0 r
      → In r events
  unfolding decode_log_at
  log_at_complete log topic0 events e r
        (
          h, n, i, m, t, d, params, sound, here, listed, needs, has, to, topic, made, decoded,
          accepts, is,
        ) =
      emitted (
        subst (λ u. IsPlaced alloy u i index) has
          (new_index-IsPlaced alloy ms index built i m here))
    where
      here' : get_elem? index.monitors i ≡ some m
      here' = subst (λ k. get_elem? k i ≡ some m) (sym over) here

      plan : monitor_is_planned index i block_number planned ≡ true
      plan = (monitor_is_planned_iff index i block_number planned m here').1 (listed, needs)

      -- The guards found the same hash and index.
      guarded :
          (layouts : Layouts EventLayout EventDecoder) (g : Group EventDecoder)
          → In (event_layout alloy t.params, g) layouts
          → In i g.monitor_indices
          → decode_data log g.decoder ≡ ok params
          → (h' : B256) × (n' : ℕ) × IsSound block_number log h' n'
            × (decode_layouts index block_number planned
                  (event_emission block_number log h' n')
                  (decode_data log)
                  layouts
                ≡ ok events)
          → In r events
      guarded layouts g at inside decodes (h', n', sound', run) =
          let same_h : h' ≡ h = ground (arith, sound.2, sound'.2) in
          let same_n : n' ≡ n = ground (arith, sound.3, sound'.3) in
          let run' : decode_layouts index block_number planned (event_emission block_number log h n)
                (decode_data log) layouts
              ≡ ok events =
            subst
              (λ k.
                decode_layouts index block_number planned (event_emission block_number log h k)
                  (decode_data log) layouts
                ≡ ok events)
              same_n
              (subst
                (λ k.
                  decode_layouts index block_number planned (event_emission block_number log k n')
                    (decode_data log) layouts
                  ≡ ok events)
                same_h run) in
          decode_layouts_complete index block_number planned (event_emission block_number log h n)
            (decode_data log) layouts events run' r
            (
              event_layout alloy t.params,
              g,
              params,
              i,
              at,
              decodes,
              inside,
              (m, plan, here', accepts, is),
            )

      emitted : IsPlaced alloy (Target.event t) i index → In r events
      emitted (layouts, found, (g, at, inside)) =
          let found' : get (log.address, topic0) index.events ≡ some layouts =
            subst (λ k. get (log.address, k) index.events ≡ some layouts) topic
              (subst (λ a. get (a, t.topic0) index.events ≡ some layouts) to found) in
          let good : new_event_decoder alloy t.params topic0 ≡ ok g.decoder =
            (layouts-are log topic0 layouts found' (event_layout alloy t.params) g at).0 t.params
              refl in
          let one : d ≡ g.decoder = ground (arith, made, good) in
          let any : any_layout_planned index block_number planned layouts ≡ true =
            any_layout_planned-In index block_number planned layouts (event_layout alloy t.params) g
              i at inside plan in
          let run : decode_planned_log alloy block_number index planned log layouts ≡ ok events =
            ground (arith, e, found', any) in
          guarded layouts g at inside (subst (λ x. decode_data log x ≡ ok params) one decoded)
            (planned_log-guards log layouts events run)

  -- An event of a log, under the log's first topic.
  abbrev pub LogMatches : SourceLog → DecodedEvent → Type 0
  LogMatches log r =
      (topic0 : B256) × (topics : List B256) × (log.topics ≡ topic0 ∷ topics)
      × EventMatches alloy (keep is_active ms) planned block_number log topic0 r

  log_iff :
      (log : SourceLog) (topics : List B256)
      → log.topics ≡ topics
      → (events : List DecodedEvent)
      → decode_log alloy block_number index planned log topics ≡ ok events
      → (r : DecodedEvent) → In r events ↔ LogMatches log r
  unfolding decode_log
  log_iff log [] has events e r =
      let same : events ≡ [] = ground arith in
      ((λ inside. elim (subst (In r) same inside) [ ]), λ h. absurd (ground (arith, h.2, has)))
  log_iff log (topic0 ∷ topics) has events e r = (
    (λ inside. (topic0, topics, has, log_at_sound log topic0 events e r inside)),
    λ (topic, others, has', matches).
        let one : topic ≡ topic0 = ground (arith, has, has') in
        log_at_complete log topic0 events e r (
          subst (λ k. EventMatches alloy (keep is_active ms) planned block_number log k r) one
            matches),
  )

  -- When `decode_events` succeeds with an index built of the monitors, it returns exactly the events that
  -- match: for a log with a topic, not removed, of the block and with its hash and index, and an active
  -- monitor that is planned, needs the block, has the log's address and first topic as its target, whose
  -- own schema decodes the log and whose filter accepts the parameters. It is assumed that no two types
  -- have one name.
  pub decode_events_iff :
      (logs : List SourceLog) (events : List DecodedEvent)
      → decode_events alloy block_number index planned logs ≡ ok events
      → (r : DecodedEvent) → In r events ↔ ((log : SourceLog) × In log logs × LogMatches log r)
  unfolding decode_events
  decode_events_iff [] events e r =
      let same : events ≡ [] = ground arith in
      ((λ inside. elim (subst (In r) same inside) [ ]), λ h. elim (h.1) [ ])
  decode_events_iff (log ∷ logs) events e r =
      elim (Result-cases (decode_log alloy block_number index planned log log.topics)) [
        | inr (x, fails) ↦ absurd (ground arith)
        | inl (found, here) ↦
            elim (Result-cases (decode_events alloy block_number index planned logs)) [
              | inr (x, fails) ↦ absurd (ground arith)
              | inl (later, rest) ↦
                  let same : found ++ later ≡ events = ground (arith, e, here, rest) in
                  let first = log_iff log log.topics refl found here r in
                  let others = decode_events_iff logs later rest r in
                  (
                    (λ inside.
                        elim (In-append_cases r found later (subst (In r) (sym same) inside)) [
                          | inl l ↦ (log, inl refl, first.0 l)
                          | inr l ↦
                              let (other, at, matches) = others.0 l in (other, inr at, matches)
                        ]),
                    λ (other, at, matches). subst (In r) same (elim at [
                      | inl is ↦
                          In-append_left r found later
                            (first.1 (subst (λ x. LogMatches x r) is matches))
                      | inr more ↦ In-append_right r found later (others.1 (other, more, matches))
                    ]),
                  )
            ]
      ]
