-- ===== src/Services/Chains/Steps.antt =====
-- Every operation of `ChainService` of parseon-core/src/services.rs, in any order and number, keeps the workers those
-- that the registry asks for.
use parseon.Common.{
  ℕ, zero, suc, ◌≡◌, refl, sym, ap, ◌∙◌, subst, inl, inr, not, ◌&&◌, none, some, List, [], ◌∷◌, map,
  eqb, eqb_iff, if◌then◌else◌, Result, ok, err, All, Bool-cases,
}
use parseon.Common.Stateful.{continue, pure, ◌>>◌}
use parseon.Model.{Chain}
use parseon.Errors.{Error}
use parseon.Ports.Storage.{
  NewChain, ChainUpdate, ChainRecord, ChainRepository, Registry, SetsAt, Creates, Gets, Updates,
  Deletes, IsLawful,
}
use parseon.Supervisor.{
  ControlPlane, Endpoints, apply, retire, reconcile_startup, Cancellation, never, before, during,
}
use parseon.Services.Chains.{
  CreateChain, UpdateChain, Platform, Service, registered, validate_source, stored_in, on_control,
  create_locked, create, update_locked, is_none, validate_update, update_valid, update, delete,
}
use parseon.Services.Chains.Agreement.{
  Agree, Agree-same, apply-Agree, retire-Agree, interrupted-Agree,
}

module _ {S : Type 0} (find : S → Registry) where
  module _ (repository : ChainRepository S) (lawful : IsLawful find repository) where
    abbrev pub Agrees : Platform S → Type 0
    Agrees p = Agree find p.store p.control

    -- What `create` does with the answer of the storage.
    create-out :
        (e : Endpoints) (input : NewChain) (s : S) (c : ControlPlane)
        (out : Result Error ChainRecord × S)
        → Creates find input s out
        → Agree find s c
        → Agrees
            (continue (λ r. on_control (apply e (registered r)) >> pure r) (stored_in s c out)).1
    create-out e input s c (ok r, t) (absent, is, set) agree =
        apply-Agree find e s t c r
          (subst (λ i. SetsAt i (some r) (find s) (find t))
            (sym (ap (λ (x : ChainRecord). x.chain.id) is)) set)
          agree
    create-out e input s c (err x, t) law agree = Agree-same find s t c law agree

    pub create_locked-Agrees :
        (e : Endpoints) (input : NewChain) (p : Platform S)
        → Agrees p
        → Agrees (create_locked e repository input p).1
    unfolding create_locked
    create_locked-Agrees e input p agree =
        create-out e input p.store p.control (repository.create_chain input p.store)
          (lawful.creates input p.store) agree

    update-out :
        (e : Endpoints) (chain : Chain) (change : ChainUpdate) (s : S) (c : ControlPlane)
        (out : Result Error ChainRecord × S)
        → Updates find chain change s out
        → Agree find s c
        → Agrees
            (continue (λ r. on_control (apply e (registered r)) >> pure r) (stored_in s c out)).1
    update-out e chain change s c (ok r, t) (old, found, is, same, set) agree =
        apply-Agree find e s t c r
          (subst (λ i. SetsAt i (some r) (find s) (find t)) (sym (ap (λ (x : Chain). x.id) same))
            set)
          agree
    update-out e chain change s c (err x, t) law agree = Agree-same find s t c law agree

    get-Agree :
        (chain : Chain) (s : S) (c : ControlPlane) (out : Result Error ChainRecord × S)
        → Gets find chain s out
        → Agree find s c
        → Agree find out.1 c
    get-Agree chain s c (ok r, t) (found, same) agree = Agree-same find s t c same agree
    get-Agree chain s c (err x, t) same agree = Agree-same find s t c same agree

    -- The steps after one that only reads the registry.
    after-get :
        (chain : Chain) (next : ChainRecord → Service S ChainRecord) (p : Platform S)
        → ((r : ChainRecord) (q : Platform S) → Agrees q → Agrees (next r q).1)
        → Agrees p
        → Agrees
            (continue next (stored_in p.store p.control (repository.get_chain chain p.store))).1
    after-get chain next p keeps agree = each (repository.get_chain chain p.store) (
        get-Agree chain p.store p.control (repository.get_chain chain p.store)
          (lawful.gets chain p.store) agree)
      where
        each :
            (out : Result Error ChainRecord × S)
            → Agree find out.1 p.control
            → Agrees (continue next (stored_in p.store p.control out)).1
        each (ok r, t) h = keeps r (record { store = t; control = p.control }) h
        each (err x, t) h = h

    pub update_locked-Agrees :
        (e : Endpoints) (chain : Chain) (change : ChainUpdate) (p : Platform S)
        → Agrees p
        → Agrees (update_locked e repository chain change p).1
    unfolding update_locked
    update_locked-Agrees e chain change p agree =
        after-get chain _ p
          (λ r q h.
            update-out e chain change q.store q.control
              (repository.update_chain chain change q.store) (lawful.updates chain change q.store)
              h)
          agree

    delete-out :
        (chain_id : ℕ) (s : S) (c : ControlPlane) (e : Endpoints)
        (out : Result Error (Unit {0}) × S)
        → Deletes find (record { id = chain_id }) s out
        → Agree find s c
        → Agrees (stored_in s (retire e chain_id c) out).1
    delete-out chain_id s c e (ok u, t) set agree =
        retire-Agree find e s t c chain_id
          (λ j other. set j ∙ ap (λ b. if b then none else find s j) other) agree
    delete-out chain_id s c e (err x, t) same agree =
        retire-Agree find e s t c chain_id (λ j other. same j) agree

    pub delete-Agrees :
        (e : Endpoints) (chain_id : ℕ) (p : Platform S)
        → Agrees p
        → Agrees (delete e repository chain_id p).1
    unfolding delete
    delete-Agrees e chain_id p agree =
        delete-out chain_id p.store p.control e
          (repository.delete_chain (record { id = chain_id }) p.store)
          (lawful.deletes (record { id = chain_id }) p.store) agree

    pub create-Agrees :
        (e : Endpoints) (command : CreateChain) (p : Platform S)
        → Agrees p
        → Agrees (create e repository command p).1
    unfolding create
    create-Agrees e command p agree = each (validate_source e command.rpc_url none)
      where
        each :
            (found : Result Error Chain)
            → Agrees
                (continue
                  (λ chain. create_locked e repository (record {
                    chain = chain;
                    rpc_url = command.rpc_url;
                    enabled = command.enabled;
                  }))
                  (found, p)).1
        each (ok chain) = create_locked-Agrees e _ p agree
        each (err x) = agree

    update_valid-Agrees :
        (e : Endpoints) (chain : Chain) (command : UpdateChain) (p : Platform S)
        → Agrees p
        → Agrees (update_valid e repository chain command p).1
    unfolding update_valid
    update_valid-Agrees e chain command p agree = each (validate_update e chain command.rpc_url)
      where
        each :
            (test : Result Error (Unit {0}))
            → Agrees
                (continue
                  (λ u.
                    update_locked e repository chain
                      (record { rpc_url = command.rpc_url; enabled = command.enabled }))
                  (test, p)).1
        each (ok u) = update_locked-Agrees e chain _ p agree
        each (err x) = agree

    pub update-Agrees :
        (e : Endpoints) (chain_id : ℕ) (command : UpdateChain) (p : Platform S)
        → Agrees p
        → Agrees (update e repository chain_id command p).1
    unfolding update
    update-Agrees e chain_id command p agree =
        elim (Bool-cases (not (is_none command.rpc_url && is_none command.enabled))) [
          | inr empty ↦ rw empty agree
          | inl asks ↦ rw asks (
              after-get (record { id = chain_id })
                (λ known. update_valid e repository (record { id = chain_id }) command) p
                (λ r q h. update_valid-Agrees e (record { id = chain_id }) command q h) agree)
        ]

    is-set :
        (s : S) (r : ChainRecord)
        → find s r.chain.id ≡ some r
        → SetsAt r.chain.id (some r) (find s) (find s)
    is-set s r known j = elim (Bool-cases (eqb r.chain.id j)) [
      | inl here ↦ rw here (ap (find s) (sym ((eqb_iff r.chain.id j).0 here)) ∙ known)
      | inr other ↦ rw other refl
    ]

    -- The registrations of the startup are those of the registry.
    abbrev pub AreRegistered : S → List ChainRecord → Type 0
    AreRegistered s records = All (λ r. find s r.chain.id ≡ some r) records

    pub startup-Agree :
        (e : Endpoints) (cancellation : Cancellation) (s : S) (records : List ChainRecord)
        (c : ControlPlane)
        → AreRegistered s records
        → Agree find s c
        → Agree find s (reconcile_startup e cancellation (map registered records) c)
    unfolding reconcile_startup
    startup-Agree e at s [] c known agree = agree
    startup-Agree e never s (r ∷ rs) c known agree =
        startup-Agree e never s rs (apply e (registered r) c) known.1
          (apply-Agree find e s s c r (is-set s r known.0) agree)
    startup-Agree e (before zero) s (r ∷ rs) c known agree = agree
    startup-Agree e (before (suc n)) s (r ∷ rs) c known agree =
        startup-Agree e (before n) s rs (apply e (registered r) c) known.1
          (apply-Agree find e s s c r (is-set s r known.0) agree)
    startup-Agree e (during zero) s (r ∷ rs) c known agree =
        interrupted-Agree find e s c (registered r) agree
    startup-Agree e (during (suc n)) s (r ∷ rs) c known agree =
        startup-Agree e (during n) s rs (apply e (registered r) c) known.1
          (apply-Agree find e s s c r (is-set s r known.0) agree)
