-- ===== src/Services/Chains/Reached.antt =====
-- The platform of parseon-core/src/services.rs and supervisor.rs as a step relation: its services, the startup and the
-- shutdown.
use parseon.Common.{ℕ, ◌≡◌, refl, some, List, map, All}
use parseon.Common.Maps.{lookup}
use parseon.Model.{Chain}
use parseon.Ports.Storage.{NewChain, ChainUpdate, ChainRecord, ChainRepository, Registry, IsLawful}
use parseon.Supervisor.{Endpoints, shutdown, reconcile_startup, Cancellation}
use parseon.Services.Chains.{
  CreateChain, UpdateChain, Platform, registered, create_locked, create, update_locked, update,
  delete,
}
use parseon.Services.Chains.Agreement.{Agree}
use parseon.Services.Chains.Steps.{
  create_locked-Agrees, update_locked-Agrees, delete-Agrees, create-Agrees, update-Agrees,
  startup-Agree,
}

module _ {S : Type 0} (find : S → Registry) where
  -- A step of the platform. The endpoints may answer differently at each; what `create` and `update` do before the
  -- guard may have been done in an earlier state.
  pub data Step (repository : ChainRepository S) : Platform S → Platform S → Type 0 where
    created :
        (e : Endpoints) (command : CreateChain) (p : Platform S)
        → Step repository p (create e repository command p).1
    created_late :
        (e : Endpoints) (input : NewChain) (p : Platform S)
        → Step repository p (create_locked e repository input p).1
    updated :
        (e : Endpoints) (chain_id : ℕ) (command : UpdateChain) (p : Platform S)
        → Step repository p (update e repository chain_id command p).1
    updated_late :
        (e : Endpoints) (chain : Chain) (change : ChainUpdate) (p : Platform S)
        → Step repository p (update_locked e repository chain change p).1
    deleted :
        (e : Endpoints) (chain_id : ℕ) (p : Platform S)
        → Step repository p (delete e repository chain_id p).1
    begun :
        (e : Endpoints) (cancellation : Cancellation) (records : List ChainRecord) (p : Platform S)
        → All (λ r. find p.store r.chain.id ≡ some r) records
        → Step repository p (record {
          store = p.store;
          control = reconcile_startup e cancellation (map registered records) p.control;
        })
    ended :
        (e : Endpoints) (p : Platform S)
        → Step repository p (record { store = p.store; control = shutdown e p.control })

  pub data Reach (repository : ChainRepository S) (p : Platform S) : Platform S → Type 0 where
    here : Reach repository p p
    next : {q r : Platform S} → Reach repository p q → Step repository q r → Reach repository p r

  Step-Agrees :
      (repository : ChainRepository S) (lawful : IsLawful find repository) {p q : Platform S}
      → Step repository p q
      → Agree find p.store p.control
      → Agree find q.store q.control
  unfolding shutdown lookup
  Step-Agrees repository lawful (created e command p) h =
      create-Agrees find repository lawful e command p h
  Step-Agrees repository lawful (created_late e input p) h =
      create_locked-Agrees find repository lawful e input p h
  Step-Agrees repository lawful (updated e id command p) h =
      update-Agrees find repository lawful e id command p h
  Step-Agrees repository lawful (updated_late e chain change p) h =
      update_locked-Agrees find repository lawful e chain change p h
  Step-Agrees repository lawful (deleted e id p) h = delete-Agrees find repository lawful e id p h
  Step-Agrees repository lawful (begun e at records p known) h =
      startup-Agree find repository lawful e at p.store records p.control known h
  Step-Agrees repository lawful (ended e p) h = (λ j. tt, refl)

  -- Whatever operations of the services, startups and shutdowns come in whatever order, each worker that runs is one
  -- of a chain that is registered and enabled, and runs on the registered URL: if it was so at the start, and the
  -- storage does what its port says.
  pub Reach-Agrees :
      (repository : ChainRepository S) (lawful : IsLawful find repository) (p q : Platform S)
      → Agree find p.store p.control
      → Reach repository p q
      → Agree find q.store q.control
  Reach-Agrees repository lawful p q h here = h
  Reach-Agrees repository lawful p q h (next steps step) =
      Step-Agrees repository lawful step (Reach-Agrees repository lawful p _ h steps)
