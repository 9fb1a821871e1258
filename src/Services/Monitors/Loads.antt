-- ===== src/Services/Monitors/Loads.antt =====
-- `MonitorService::create` of parseon-core/src/services.rs over the storage of parseon-postgres, up to the monitor that
-- the worker loads.
use parseon.Common.{
  ◌≡◌, refl, ap, ◌∙◌, sym, subst, String, Option, none, some, List, [], ◌∷◌, ◌++◌, All, Result, ok,
  and_then,
}
use parseon.Model.{AbiParam, Address, Target}
use parseon.Filter.Ast.{FilterExpression, FilterDefinition, Filter, Codecs}
use parseon.Filter.Definition.{prepare}
use parseon.Filter.Canonical.{AreCanonical}
use parseon.Filter.Rewritten.{AreCompact, prepare-compiles}
use parseon.Index.{map_err}
use parseon.Errors.{Error}
use parseon.Abi.{Alloy}
use parseon.Abi.Signature.{AbiItem, TargetSpec, parse_target_signature}
use parseon.Abi.Signature.Schema.{IsColumn, IsSchema}
use parseon.Ports.Storage.{ChainRecord, ChainRepository, NewMonitor, MonitorRecord}
use parseon.Services.Requests.{CreateMonitor, Heads}
use parseon.Services.Monitors.{create}
use parseon.Services.Monitors.Valid.{IsTarget, IsDefinition, IsValid, create-IsValid}
use parseon.Postgres.Tables.{MonitorRow, Database, Session}
use parseon.Postgres.Read.{params_of}
use parseon.Postgres.Loaded.{to_monitor}
use parseon.Postgres.Monitors.{create_monitor, postgres_monitors}
use parseon.Postgres.Monitors.Stored.{IsRead, IsStorable, record_of, compiled_filter, monitor_of}
use parseon.Postgres.Monitors.Created.{Created, create_monitor-Created}
use parseon.Postgres.Monitors.Inserted.{row_at}

-- The filter of a monitor: of all results, or the one that was checked when it was created.
abbrev pub IsFilter : Codecs → Option FilterExpression → Target → Filter → Type 0
IsFilter codecs none target filter = filter ≡ Filter.all
IsFilter codecs (some e) target filter =
    (definition : FilterDefinition) × (prepare codecs e target ≡ ok (definition, filter))

module _ (codecs : Codecs) (laws : AreCanonical codecs) (compact : AreCompact codecs)
    (parse_item : String → Option AbiItem) where
  filter-compiles :
      (asked : Option FilterExpression) (target : Target) (definition : Option FilterDefinition)
      → IsDefinition codecs parse_item asked target definition
      → (filter : Filter) × (compiled_filter codecs definition target ≡ ok filter)
        × IsFilter codecs asked target filter
  filter-compiles none target definition h =
      (Filter.all, ap (λ d. compiled_filter codecs d target) h, refl)
  filter-compiles (some e) target definition (prepared, filter, made, is) = (
    filter,
    ap (λ d. compiled_filter codecs d target) is
        ∙ ap (map_err Error.filter)
            (prepare-compiles codecs compact laws e target prepared filter made),
    (prepared, made),
  )

-- The parameters of a specification.
abbrev pub spec_params : TargetSpec → List AbiParam
spec_params (TargetSpec.call spec) = spec.params
spec_params (TargetSpec.event spec) = spec.params

-- The types of a signature parse back from their names.
abbrev pub AreRead : Alloy → (String → Option AbiItem) → String → Type 0
AreRead alloy parse_item signature =
    (spec : TargetSpec)
    → parse_target_signature parse_item signature ≡ ok spec
    → All (IsRead alloy) (spec_params spec)

All-IsStorable :
    (alloy : Alloy) (ps : List AbiParam)
    → All IsColumn ps
    → All (IsRead alloy) ps
    → All (IsStorable alloy) ps
All-IsStorable alloy [] h k = tt
All-IsStorable alloy (p ∷ ps) h k = ((h.0.0, k.0), All-IsStorable alloy ps h.1 k.1)

IsTarget-IsStorable :
    (alloy : Alloy) (address : Address) (spec : TargetSpec) (target : Target)
    → IsTarget address spec target
    → IsSchema spec
    → All (IsRead alloy) (spec_params spec)
    → All (IsStorable alloy) (params_of target)
IsTarget-IsStorable alloy address (TargetSpec.call spec) (Target.call t) is h k =
    subst (All (IsStorable alloy)) (sym is.2) (All-IsStorable alloy spec.params h.1 k)
IsTarget-IsStorable alloy address (TargetSpec.event spec) (Target.event t) is h k =
    subst (All (IsStorable alloy)) (sym is.2) (All-IsStorable alloy spec.params h.1 k)
IsTarget-IsStorable alloy address (TargetSpec.call spec) (Target.event t) is h k = absurd is
IsTarget-IsStorable alloy address (TargetSpec.event spec) (Target.call t) is h k = absurd is

-- What a creation leaves: a monitor at the end of the rows, with the record that is returned, and the monitor that the
-- worker loads from its row.
abbrev pub Leaves : Alloy → Codecs → CreateMonitor → NewMonitor → MonitorRecord → Database → Type 0
Leaves alloy codecs command input r after =
    (r ≡ record_of input r.id)
    × (earlier : List MonitorRow) × (row : MonitorRow) × (filter : Filter) × (after.monitors
        ≡ earlier ++ row ∷ [])
    × (to_monitor alloy codecs row ≡ ok (monitor_of input r.id filter))
    × IsFilter codecs command.filter input.target filter

module _ (alloy : Alloy) (codecs : Codecs) (laws : AreCanonical codecs)
    (compact : AreCompact codecs) (parse_item : String → Option AbiItem) where
  created-Leaves :
      (heads : Heads) (registered : ChainRecord) (command : CreateMonitor) (input : NewMonitor)
      (s t : Session) (r : MonitorRecord)
      → AreRead alloy parse_item command.signature
      → IsValid codecs parse_item heads registered command input
      → create_monitor alloy input s ≡ (ok r, t)
      → Leaves alloy codecs command input r t.db
  created-Leaves heads registered command input s t r reads valid h =
      let storable =
        IsTarget-IsStorable alloy command.address valid.spec input.target valid.target valid.schema
          (reads valid.spec valid.parsed) in
      let (is, db, made, loaded) =
        subst (Created alloy input codecs s) h
          (create_monitor-Created alloy input codecs s storable) in
      let (filter, compiled, checked) =
        filter-compiles codecs laws compact parse_item command.filter input.target input.filter
          valid.definition in
      let id : r.id ≡ s.next_id = ap (λ (x : MonitorRecord). x.id) is in
      (
        is ∙ ap (record_of input) (sym id),
        s.db.monitors,
        row_at alloy input s,
        filter,
        ap (λ (d : Database). d.monitors) db,
        loaded
            ∙ ap
                (λ (f : Result Error Filter).
                  and_then f (λ filter. ok (monitor_of input s.next_id filter)))
                compiled
            ∙ ap (λ n. ok (monitor_of input n filter)) (sym id),
        checked,
      )

  -- A monitor that is created through the service, over PostgreSQL, is one that the command asks for: on its chain,
  -- which is registered, from the block that it names or else from the finalized head of the chain's endpoint, up to
  -- its end block, with its address, the target of its signature and its filter. The worker loads this monitor, with no
  -- cursor and the filter that was checked. It is assumed that the types of the signature parse back from their names,
  -- that printed literals parse back and are not longer than what was read, and that an expression is not encoded longer
  -- with such literals.
  pub create-Leaves :
      (chains : ChainRepository Session) (heads : Heads) (command : CreateMonitor) (s t : Session)
      (r : MonitorRecord)
      → AreRead alloy parse_item command.signature
      → create (postgres_monitors alloy) codecs parse_item chains heads command s ≡ (ok r, t)
      → (registered : ChainRecord) × (s' : Session) × (input : NewMonitor) × (chains.get_chain
            (record { id = command.chain_id })
            s
          ≡ (ok registered, s'))
        × IsValid codecs parse_item heads registered command input
        × Leaves alloy codecs command input r t.db
  unfolding postgres_monitors
  create-Leaves chains heads command s t r reads h =
      let (registered, s', input, known, valid, made) =
        create-IsValid codecs parse_item (postgres_monitors alloy) chains heads command s t r h in
      (
        registered,
        s',
        input,
        known,
        valid,
        created-Leaves heads registered command input s' t r reads valid made,
      )
