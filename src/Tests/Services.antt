-- ===== src/Tests/Services.antt =====
-- The services of parseon-core/src/services.rs over the registry of parseon-postgres, and signatures that are
-- accepted, at concrete inputs.
use parseon.Common.{
  ◌≡◌, refl, map, if◌then◌else◌, String, true, false, Option, none, some, List, [], ◌∷◌, All, ok,
}
use parseon.Common.Eq.{◌==◌, string_eq}
use parseon.Common.Maps.{lookup}
use parseon.Common.Int.{pos}
use parseon.Model.{SolType}
use parseon.Abi.Signature.{AbiItem, TargetSpec, parse_target_signature}
use parseon.Abi.Signature.Schema.{IsSchema, parse_target_signature-IsSchema}
use parseon.Ports.Storage.{ChainRecord, ChainRepository}
use parseon.Common.Decimal.{decimal}
use parseon.Supervisor.{Endpoints, reconcile_startup, never}
use parseon.Postgres.Tables.{Session}
use parseon.Postgres.Chains.{postgres_chains}
use parseon.Postgres.Chains.Lawful.{find, find_in, postgres_chains-IsLawful}
use parseon.Services.Chains.{registered, Platform, create, update, delete}
use parseon.Services.Chains.Agreement.{Agree}
use parseon.Services.Chains.Reached.{
  Reach, here, next, created, updated, deleted, begun, Reach-Agrees,
}

-- The endpoint of each URL is of chain 7, but for one of chain 9.
abbrev endpoints : Endpoints
endpoints = record {
  connects = λ url. true;
  probe = λ url. some (if url == "c" then 9 else 7, 20);
  rotates = λ old url. false;
}

abbrev repository : ChainRepository Session
repository = postgres_chains some

-- A registry of one chain, and no worker yet.
abbrev start : Platform Session
start = record {
  store = record {
    db = record {
      chains = record { chain_id = pos 7; rpc_url = "a"; enabled = true } ∷ [];
      monitors = [];
      tables = [];
    };
    next_id = 1;
    statements_left = none;
  };
  control = record { closed = false; workers = []; statuses = []; stopped = [] };
}

abbrev known : List ChainRecord
known = record { chain = record { id = 7 }; rpc_url = "a"; enabled = true } ∷ []

starts : Agree find start.store start.control
unfolding lookup
starts = (λ j. tt, tt)

is_known : All (λ (r : ChainRecord). find start.store r.chain.id ≡ some r) known
unfolding find_in
is_known = (refl, tt)

abbrev begun_at : Platform Session
begun_at = record {
  store = start.store;
  control = reconcile_startup endpoints never (map registered known) start.control;
}

abbrev after_create : Platform Session
after_create = (create endpoints repository (record { rpc_url = "c"; enabled = true }) begun_at).1

abbrev after_update : Platform Session
after_update =
    (update endpoints repository 7 (record { rpc_url = some "b"; enabled = none }) after_create).1

abbrev after_delete : Platform Session
after_delete = (delete endpoints repository 9 after_update).1

runs :
    (lookup 7 after_update.control.workers ≡ some (record { rpc_url = "b" }))
    × (lookup 9 after_update.control.workers ≡ some (record { rpc_url = "c" }))
unfolding create update lookup postgres_chains reconcile_startup
runs = (refl, refl)

abbrev reached : Reach find repository start after_delete
reached =
    next
      (next
        (next (next here (begun endpoints never known start is_known))
          (created endpoints (record { rpc_url = "c"; enabled = true }) begun_at))
        (updated endpoints 7 (record { rpc_url = some "b"; enabled = none }) after_create))
      (deleted endpoints 9 after_update)

Reach-Agrees_example : Agree find after_delete.store after_delete.control
Reach-Agrees_example =
    Reach-Agrees find repository (postgres_chains-IsLawful some (λ u. refl)) start after_delete
      starts reached

-- `event E(uint8 indexed, uint8 value)`, in which a name is missing.
abbrev parse_item : String → Option AbiItem
parse_item signature = some (
    AbiItem.event (5 ∷ []) false (
      record { name = ""; resolved = some (SolType.uint 8); indexed = true }
      ∷ record { name = "value"; resolved = some (SolType.uint 8); indexed = false }
      ∷ []))

abbrev spec : TargetSpec
spec = TargetSpec.event (record {
  topic0 = 5 ∷ [];
  params =
      record { name = "arg0"; ty = SolType.uint 8; indexed = true }
      ∷ record { name = "value"; ty = SolType.uint 8; indexed = false }
      ∷ [];
})

parses : parse_target_signature parse_item "event E(uint8 indexed, uint8 value)" ≡ ok spec
unfolding parse_target_signature decimal
parses = refl

parse_target_signature-IsSchema_example : IsSchema spec
parse_target_signature-IsSchema_example =
    parse_target_signature-IsSchema parse_item "event E(uint8 indexed, uint8 value)" spec parses
