-- ===== src/Services/Monitors/Valid.antt =====
-- What `MonitorService::create` of parseon-core/src/services.rs lets through to the storage.
use parseon.Common.{
  ◌≤◌, ◌≡◌, refl, ap, sym, subst, String, Option, none, some, Result, ok, err, >>=-eq-ok, ok_inj,
  arith,
}
use parseon.Common.Stateful.{>>=-ok, lift->>=-ok}
use parseon.Model.{Address, BlockNumber, Target}
use parseon.Filter.Ast.{FilterExpression, FilterDefinition, Filter, Codecs}
use parseon.Filter.Definition.{prepare}
use parseon.Abi.Signature.{AbiItem, TargetSpec, parse_target_signature}
use parseon.Abi.Signature.Schema.{IsSchema, parse_target_signature-IsSchema}
use parseon.Index.{map_err}
use parseon.Ports.Storage.{
  ChainRecord, ChainRepository, NewMonitor, MonitorRecord, MonitorRepository,
}
use parseon.Services.Requests.{
  CreateMonitor, Heads, validate_range, start_of, target_at, definition_for, invalid, new_monitor,
}
use parseon.Services.Monitors.{create}

-- The end, if there is one, is not before the start.
abbrev pub InRange : BlockNumber → Option BlockNumber → Type 0
InRange start_block none = Unit
InRange start_block (some end) = start_block ≤ end

-- The start is the block that is asked for, or else the finalized head of the chain's endpoint.
abbrev pub StartsAt : Heads → ChainRecord → Option BlockNumber → BlockNumber → Type 0
StartsAt heads registered (some block) start_block = start_block ≡ block
StartsAt heads registered none start_block = heads registered.rpc_url ≡ ok start_block

-- A target at an address with the parts of a specification.
abbrev pub IsTarget : Address → TargetSpec → Target → Type 0
IsTarget address (TargetSpec.call spec) (Target.call t) =
    (t.address ≡ address) × (t.selector ≡ spec.selector) × (t.inputs ≡ spec.params)
IsTarget address (TargetSpec.event spec) (Target.event t) =
    (t.address ≡ address) × (t.topic0 ≡ spec.topic0) × (t.params ≡ spec.params)
IsTarget address (TargetSpec.call spec) (Target.event t) = ⊥
IsTarget address (TargetSpec.event spec) (Target.call t) = ⊥

module _ (codecs : Codecs) (parse_item : String → Option AbiItem) where
  -- A definition is the canonical form of the filter that is asked for, which compiles against the target.
  abbrev pub IsDefinition : Option FilterExpression → Target → Option FilterDefinition → Type 0
  IsDefinition none target definition = definition ≡ none
  IsDefinition (some expression) target definition =
      (prepared : FilterDefinition) × (filter : Filter) × (prepare codecs expression target
        ≡ ok (prepared, filter))
      × (definition ≡ some prepared)

  -- What a command asks for, of a chain that is registered.
  pub record IsValid (heads : Heads) (registered : ChainRecord) (command : CreateMonitor)
      (input : NewMonitor) : Type 0 where
    pub chain : input.chain.id ≡ command.chain_id
    pub end_block : input.end_block ≡ command.end_block
    pub start : StartsAt heads registered command.start_block input.start_block
    pub range : InRange input.start_block input.end_block
    pub spec : TargetSpec
    pub parsed : parse_target_signature parse_item command.signature ≡ ok spec
    pub schema : IsSchema spec
    pub target : IsTarget command.address spec input.target
    pub definition : IsDefinition command.filter input.target input.filter

  start_of-StartsAt :
      (heads : Heads) (registered : ChainRecord) (asked : Option BlockNumber)
      (start_block : BlockNumber)
      → start_of heads registered.rpc_url asked ≡ ok start_block
      → StartsAt heads registered asked start_block
  start_of-StartsAt heads registered none start_block h = h
  start_of-StartsAt heads registered (some block) start_block h = sym (ok_inj h)

  target_at-IsTarget :
      (address : Address) (spec : TargetSpec) → IsTarget address spec (target_at address spec)
  target_at-IsTarget address (TargetSpec.call spec) = (refl, refl, refl)
  target_at-IsTarget address (TargetSpec.event spec) = (refl, refl, refl)

  validate_range-InRange :
      (start_block : BlockNumber) (end_block : Option BlockNumber) (u : Unit {0})
      → validate_range start_block end_block ≡ ok u
      → InRange start_block end_block
  unfolding validate_range
  validate_range-InRange start_block none u h = tt
  validate_range-InRange start_block (some end) u h = ground (arith, h)

  map_err-ok : {E F A : Type 0} (f : E → F) (r : Result E A) (a : A) → map_err f r ≡ ok a → r ≡ ok a
  map_err-ok f (ok x) a h = ap ok (ok_inj h)
  map_err-ok f (err e) a h = absurd (ground (arith, h))

  definition_for-IsDefinition :
      (asked : Option FilterExpression) (target : Target) (definition : Option FilterDefinition)
      → definition_for codecs parse_item asked target ≡ ok definition
      → IsDefinition asked target definition
  definition_for-IsDefinition none target definition h = sym (ok_inj h)
  definition_for-IsDefinition (some expression) target definition h =
      let ((prepared, filter), made, result) = >>=-eq-ok (prepare codecs expression target) _ h in
      (prepared, filter, made, sym (ok_inj result))

  new_monitor-IsValid :
      (heads : Heads) (registered : ChainRecord) (command : CreateMonitor) (input : NewMonitor)
      → new_monitor codecs parse_item heads registered command ≡ ok input
      → IsValid heads registered command input
  unfolding new_monitor
  new_monitor-IsValid heads registered command input h =
      let (b, start, after) =
        >>=-eq-ok (start_of heads registered.rpc_url command.start_block) _ h in
      let (u, range, after1) = >>=-eq-ok (validate_range b command.end_block) _ after in
      let (spec, parsed, after2) =
        >>=-eq-ok (map_err invalid (parse_target_signature parse_item command.signature)) _
          after1 in
      let (f, filtered, result) =
        >>=-eq-ok
          (map_err invalid
            (definition_for codecs parse_item command.filter (target_at command.address spec)))
          _ after2 in
      let parses =
        map_err-ok invalid (parse_target_signature parse_item command.signature) spec parsed in
      subst (IsValid heads registered command) (ok_inj result) (record {
        chain = refl;
        end_block = refl;
        start = start_of-StartsAt heads registered command.start_block b start;
        range = validate_range-InRange b command.end_block u range;
        spec = spec;
        parsed = parses;
        schema = parse_target_signature-IsSchema parse_item command.signature spec parses;
        target = target_at-IsTarget command.address spec;
        definition = definition_for-IsDefinition command.filter (target_at command.address spec) f (
            map_err-ok invalid
              (definition_for codecs parse_item command.filter (target_at command.address spec)) f
              filtered);
      })

  -- A monitor that is created was asked for: the storage created one on the chain of the command, which is in the
  -- registry, from the block that the command names or else from the finalized head of the chain's endpoint, up to the
  -- end block of the command, which is not before it, with the address of the command and the target of its signature,
  -- whose schema is in order, and with the canonical form of its filter, which compiles against the target.
  pub create-IsValid :
      {S : Type 0} (monitors : MonitorRepository S) (chains : ChainRepository S) (heads : Heads)
      (command : CreateMonitor) (s t : S) (r : MonitorRecord)
      → create monitors codecs parse_item chains heads command s ≡ (ok r, t)
      → (registered : ChainRecord) × (s' : S) × (input : NewMonitor) × (chains.get_chain
            (record { id = command.chain_id })
            s
          ≡ (ok registered, s'))
        × IsValid heads registered command input
        × (monitors.create_monitor input s' ≡ (ok r, t))
  unfolding create
  create-IsValid monitors chains heads command s t r h =
      let (registered, s', known, after) =
        >>=-ok (chains.get_chain (record { id = command.chain_id })) _ s t h in
      let (input, made, ends) =
        lift->>=-ok (new_monitor codecs parse_item heads registered command) _ s' t after in
      (registered, s', input, known, new_monitor-IsValid heads registered command input made, ends)
