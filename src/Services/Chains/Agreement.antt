-- ===== src/Services/Chains/Agreement.antt =====
-- The workers that `ChainService` of parseon-core/src/services.rs leaves running are those that the registry asks for.
use parseon.Common.{
  ℕ, ◌≡◌, refl, sym, ap, ◌∙◌, subst, inl, inr, Bool, true, false, Option, none, some, [], eqb,
  eqb_iff, if◌then◌else◌, Bool-cases, Option-cases, not, ◌&&◌, arith,
}
use parseon.Common.Maps.{Map, lookup}
use parseon.Ports.Storage.{ChainRecord, Registry, IsSame, SetsAt}
use parseon.Supervisor.{
  RegisteredChain, WorkerRuntime, ControlPlane, Endpoints, apply, retire, stop_if, awaits_stop,
  interrupted,
}
use parseon.Supervisor.Applied.{apply-IsSame}
use parseon.Supervisor.Workers.{
  IsCurrent, apply-IsCurrent, apply-closed, apply-shut, retire-closed, retire-idle, retire-none,
  retire-other,
}
use parseon.Services.Chains.{registered}

-- A worker is one of an enabled chain that is registered, and runs on the registered URL.
abbrev pub Backs : Option ChainRecord → Option WorkerRuntime → Type 0
Backs record' none = Unit
Backs none (some runtime) = ⊥
Backs (some record') (some runtime) = (record'.enabled ≡ true) × (runtime.rpc_url ≡ record'.rpc_url)

-- A control plane that is closed has no worker.
abbrev pub IdleIf : Bool → Map WorkerRuntime → Type 0
IdleIf true workers = workers ≡ []
IdleIf false workers = Unit

module _ {S : Type 0} (find : S → Registry) where
  abbrev pub Agree : S → ControlPlane → Type 0
  Agree s c = ((j : ℕ) → Backs (find s j) (lookup j c.workers)) × IdleIf c.closed c.workers

  pub Agree-same : (s t : S) (c : ControlPlane) → IsSame (find s) (find t) → Agree s c → Agree t c
  Agree-same s t c same (backs, idle) =
      (λ j. subst (λ r. Backs r (lookup j c.workers)) (sym (same j)) (backs j), idle)

  Backs-none : (r : Option ChainRecord) (w : Option WorkerRuntime) → w ≡ none → Backs r w
  Backs-none r w is = subst (Backs r) (sym is) tt

  idle-none : (j : ℕ) (workers : Map WorkerRuntime) → workers ≡ [] → lookup j workers ≡ none
  unfolding lookup
  idle-none j workers h = ap (lookup j) h

  Backs-current :
      (e : Endpoints) (r : ChainRecord) (w : Option WorkerRuntime)
      → IsCurrent e (registered r) w
      → Backs (some r) w
  Backs-current e r none h = tt
  Backs-current e r (some runtime) h = h

  module _ (e : Endpoints) where
    apply-IdleIf :
        (r : RegisteredChain) (c : ControlPlane)
        → IdleIf c.closed c.workers
        → IdleIf (apply e r c).closed (apply e r c).workers
    apply-IdleIf r c idle = elim (Bool-cases c.closed) [
      | inl shut ↦
          subst (λ (d : ControlPlane). IdleIf d.closed d.workers) (sym (apply-shut e r c shut)) idle
      | inr live ↦ subst (λ b. IdleIf b (apply e r c).workers) (sym (apply-closed e r c ∙ live)) tt
    ]

    -- The record of the registration that is applied is in the registry.
    pub apply-Agree :
        (s t : S) (c : ControlPlane) (r : ChainRecord)
        → SetsAt r.chain.id (some r) (find s) (find t)
        → Agree s c
        → Agree t (apply e (registered r) c)
    apply-Agree s t c r set (backs, idle) =
        (λ j. each j (eqb r.chain.id j) refl, apply-IdleIf (registered r) c idle)
      where
        own :
            (b : Bool)
            → c.closed ≡ b
            → Backs (some r) (lookup r.chain.id (apply e (registered r) c).workers)
        own true shut = Backs-none (some r) _ (
            ap (λ (d : ControlPlane). lookup r.chain.id d.workers)
              (apply-shut e (registered r) c shut)
            ∙ idle-none r.chain.id c.workers (subst (λ b. IdleIf b c.workers) shut idle))
        own false live = Backs-current e r _ (apply-IsCurrent e (registered r) c live)

        each :
            (j : ℕ) (b : Bool)
            → eqb r.chain.id j ≡ b
            → Backs (find t j) (lookup j (apply e (registered r) c).workers)
        each j true here =
            let same = (eqb_iff r.chain.id j).0 here in
            subst (λ f. Backs f (lookup j (apply e (registered r) c).workers))
              (sym (set j ∙ ap (λ b. if b then some r else find s j) here))
              (subst (λ i. Backs (some r) (lookup i (apply e (registered r) c).workers)) same
                (own c.closed refl))
        each j false other =
            subst (λ f. Backs f (lookup j (apply e (registered r) c).workers))
              (sym (set j ∙ ap (λ b. if b then some r else find s j) other))
              (subst (Backs (find s j)) (sym (apply-IsSame e (registered r) j c other).0) (backs j))

    pub retire-Agree :
        (s t : S) (c : ControlPlane) (id : ℕ)
        → ((j : ℕ) → eqb id j ≡ false → find t j ≡ find s j)
        → Agree s c
        → Agree t (retire e id c)
    retire-Agree s t c id same (backs, idle) = (λ j. each j (eqb id j) refl, still c.closed refl)
      where
        each :
            (j : ℕ) (b : Bool) → eqb id j ≡ b → Backs (find t j) (lookup j (retire e id c).workers)
        each j true here = Backs-none (find t j) _ (
            subst (λ i. lookup i (retire e id c).workers ≡ none) ((eqb_iff id j).0 here)
              (retire-none e id c))
        each j false other =
            subst (λ f. Backs f (lookup j (retire e id c).workers)) (sym (same j other))
              (subst (Backs (find s j)) (sym (retire-other e id c j other)) (backs j))

        still : (b : Bool) → c.closed ≡ b → IdleIf (retire e id c).closed (retire e id c).workers
        still true shut =
            subst (λ b. IdleIf b (retire e id c).workers) (sym (retire-closed e id c ∙ shut))
              (retire-idle e id c (subst (λ b. IdleIf b c.workers) shut idle))
        still false live =
            subst (λ b. IdleIf b (retire e id c).workers) (sym (retire-closed e id c ∙ live)) tt

    -- An application that is interrupted has removed a worker at most.
    pub interrupted-Agree :
        (s : S) (c : ControlPlane) (r : RegisteredChain) → Agree s c → Agree s (interrupted e r c)
    unfolding interrupted retire
    interrupted-Agree s c r agree =
        elim (Bool-cases (not c.closed && awaits_stop e r (lookup r.chain.id c.workers))) [
          | inr waits ↦ rw waits agree
          | inl stops ↦ elim (Option-cases (lookup r.chain.id c.workers)) [
            | inl idle ↦ absurd (ground (arith, stops, idle))
            | inr (runtime, runs) ↦
                let retired : Agree s (retire e r.chain.id c) =
                  retire-Agree s s c r.chain.id (λ j other. refl) agree in
                rw stops (
                  subst (λ w. Agree s (record (stop_if e w r.chain.id c) { statuses = c.statuses }))
                    runs retired)
          ]
        ]
