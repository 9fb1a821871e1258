-- ===== src/Supervisor/Workers.antt =====
-- The worker of a chain after an operation of parseon-core/src/supervisor.rs, whichever its source and its state before.
use parseon.Common.{
  ℕ, ◌≡◌, refl, sym, ap, ◌∙◌, subst, inl, inr, Bool, true, false, String, Option, none, some, [],
  eqb, Result, ok, err, Bool-cases, Option-cases,
}
use parseon.Common.Eq.{◌==◌, string_eq}
use parseon.Common.Maps.{lookup, lookup-insert, lookup-remove, lookup-remove_other}
use parseon.Model.{BlockNumber}
use parseon.Supervisor.{
  RegisteredChain, WorkerRuntime, ControlPlane, Endpoints, prepare_source, started, start_worker,
  stop, rotate, reconcile, apply, stop_if, retire,
}
use parseon.Supervisor.Applied.{apply-reconcile}

module _ (endpoints : Endpoints) (r : RegisteredChain) where
  -- If the chain has a worker, it is enabled and its worker has the registered URL.
  abbrev pub IsCurrent : Option WorkerRuntime → Type 0
  IsCurrent none = Unit
  IsCurrent (some runtime) = (r.enabled ≡ true) × (runtime.rpc_url ≡ r.rpc_url)

  started-IsCurrent :
      (source : Result String BlockNumber) (c : ControlPlane)
      → r.enabled ≡ true
      → lookup r.chain.id c.workers ≡ none
      → IsCurrent (lookup r.chain.id (started endpoints r source c).workers)
  unfolding started
  started-IsCurrent (err message) c on idle = subst IsCurrent (sym idle) tt
  started-IsCurrent (ok head) c on idle =
      subst IsCurrent (sym (lookup-insert r.chain.id (record { rpc_url = r.rpc_url }) c.workers))
        (on, refl)

  rotate-IsCurrent :
      (runtime : WorkerRuntime) (c : ControlPlane)
      → r.enabled ≡ true
      → lookup r.chain.id c.workers ≡ some runtime
      → IsCurrent (lookup r.chain.id (rotate endpoints r runtime c).workers)
  unfolding rotate start_worker stop
  rotate-IsCurrent runtime c on at = elim (Bool-cases (runtime.rpc_url == r.rpc_url)) [
    | inl same ↦
        rw same
          (subst IsCurrent (sym at) (on, (string_eq.test_iff runtime.rpc_url r.rpc_url).0 same))
    | inr differs ↦ elim (Bool-cases (endpoints.rotates runtime.rpc_url r.rpc_url)) [
      | inl rotates ↦ rw differs (
          rw rotates (
            subst IsCurrent
              (sym (lookup-insert r.chain.id (record { rpc_url = r.rpc_url }) c.workers))
              (on, refl)))
      | inr fails ↦ rw differs (
          rw fails (
            started-IsCurrent (prepare_source endpoints r) (stop endpoints r.chain.id c) on
              (lookup-remove r.chain.id c.workers)))
    ]
  ]

  reconcile-IsCurrent :
      (on : Bool) (runtime : Option WorkerRuntime) (c : ControlPlane)
      → r.enabled ≡ on
      → lookup r.chain.id c.workers ≡ runtime
      → IsCurrent (lookup r.chain.id (reconcile endpoints r on runtime c).workers)
  unfolding reconcile start_worker stop
  reconcile-IsCurrent true (some runtime) c on at = rotate-IsCurrent runtime c on at
  reconcile-IsCurrent true none c on idle = started-IsCurrent (prepare_source endpoints r) c on idle
  reconcile-IsCurrent false (some runtime) c off at =
      subst IsCurrent (sym (lookup-remove r.chain.id c.workers)) tt
  reconcile-IsCurrent false none c off idle = subst IsCurrent (sym idle) tt

  -- After a registration is applied to a control plane that is not closed, the chain has no worker that the
  -- registration does not ask for.
  pub apply-IsCurrent :
      (c : ControlPlane)
      → c.closed ≡ false
      → IsCurrent (lookup r.chain.id (apply endpoints r c).workers)
  apply-IsCurrent c live =
      subst (λ (d : ControlPlane). IsCurrent (lookup r.chain.id d.workers))
        (sym (apply-reconcile endpoints r c live))
        (reconcile-IsCurrent r.enabled (lookup r.chain.id c.workers) c refl refl)

  started-closed :
      (source : Result String BlockNumber) (c : ControlPlane)
      → (started endpoints r source c).closed ≡ c.closed
  unfolding started
  started-closed (ok head) c = refl
  started-closed (err message) c = refl

  rotate-closed :
      (runtime : WorkerRuntime) (c : ControlPlane)
      → (rotate endpoints r runtime c).closed ≡ c.closed
  unfolding rotate start_worker stop
  rotate-closed runtime c = elim (Bool-cases (runtime.rpc_url == r.rpc_url)) [
    | inl same ↦ rw same refl
    | inr differs ↦ elim (Bool-cases (endpoints.rotates runtime.rpc_url r.rpc_url)) [
      | inl rotates ↦ rw differs (rw rotates refl)
      | inr fails ↦
          rw differs
            (rw fails (started-closed (prepare_source endpoints r) (stop endpoints r.chain.id c)))
    ]
  ]

  reconcile-closed :
      (on : Bool) (runtime : Option WorkerRuntime) (c : ControlPlane)
      → (reconcile endpoints r on runtime c).closed ≡ c.closed
  unfolding reconcile start_worker stop
  reconcile-closed true (some runtime) c = rotate-closed runtime c
  reconcile-closed true none c = started-closed (prepare_source endpoints r) c
  reconcile-closed false (some runtime) c = refl
  reconcile-closed false none c = refl

  pub apply-shut : (c : ControlPlane) → c.closed ≡ true → apply endpoints r c ≡ c
  unfolding apply
  apply-shut c shut = rw shut refl

  pub apply-closed : (c : ControlPlane) → (apply endpoints r c).closed ≡ c.closed
  apply-closed c = elim (Bool-cases c.closed) [
    | inl shut ↦ ap (λ (d : ControlPlane). d.closed) (apply-shut c shut)
    | inr live ↦
        ap (λ (d : ControlPlane). d.closed) (apply-reconcile endpoints r c live)
        ∙ reconcile-closed r.enabled (lookup r.chain.id c.workers) c
  ]

module _ (endpoints : Endpoints) (id : ℕ) (c : ControlPlane) where
  pub retire-closed : (retire endpoints id c).closed ≡ c.closed
  unfolding retire stop_if stop
  retire-closed = elim (Option-cases (lookup id c.workers)) [
    | inl idle ↦ rw idle refl
    | inr (runtime, at) ↦ rw at refl
  ]

  pub retire-idle : c.workers ≡ [] → (retire endpoints id c).workers ≡ []
  unfolding retire stop_if stop lookup
  retire-idle idle = rw idle refl

  pub retire-none : lookup id (retire endpoints id c).workers ≡ none
  unfolding retire stop_if stop
  retire-none = elim (Option-cases (lookup id c.workers)) [
    | inl idle ↦ rw idle idle
    | inr (runtime, at) ↦ rw at (lookup-remove id c.workers)
  ]

  pub retire-other :
      (j : ℕ) → eqb id j ≡ false → lookup j (retire endpoints id c).workers ≡ lookup j c.workers
  unfolding retire stop_if stop
  retire-other j other = elim (Option-cases (lookup id c.workers)) [
    | inl idle ↦ rw idle refl
    | inr (runtime, at) ↦ rw at (lookup-remove_other id j c.workers other)
  ]
