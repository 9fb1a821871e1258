-- ===== src/Supervisor/Applied.antt =====
-- What `apply` of parseon-core/src/supervisor.rs reaches.
use parseon.Common.{
  ℕ, ◌≡◌, refl, sym, ap, ◌∙◌, subst, Bool, true, false, String, Option, none, some, eqb,
  if◌then◌else◌, Result, ok, err, arith, inl, inr, Bool-cases,
}
use parseon.Common.Eq.{◌==◌, string_eq}
use parseon.Common.Maps.{
  lookup, lookup-insert, lookup-insert_other, lookup-remove, lookup-remove_other,
}
use parseon.Model.{BlockNumber}
use parseon.Supervisor.{
  RegisteredChain, WorkerRuntime, ControlPlane, Endpoints, disabled_status, starting_status,
  degraded_status, prepare_source, started, start_worker, stop, rotate, reconcile, apply,
}

module _ (endpoints : Endpoints) (r : RegisteredChain) where
  start_worker-ok :
      (c : ControlPlane) (head : BlockNumber)
      → prepare_source endpoints r ≡ ok head
      → lookup r.chain.id (start_worker endpoints r c).workers
        ≡ some (record { rpc_url = r.rpc_url })
  unfolding start_worker started
  start_worker-ok c head good =
      ap (λ source. lookup r.chain.id (started endpoints r source c).workers) good
      ∙ lookup-insert r.chain.id (record { rpc_url = r.rpc_url }) c.workers

  rotate-runs :
      (runtime : WorkerRuntime) (c : ControlPlane) (head : BlockNumber)
      → prepare_source endpoints r ≡ ok head
      → lookup r.chain.id c.workers ≡ some runtime
      → lookup r.chain.id (rotate endpoints r runtime c).workers
        ≡ some (record { rpc_url = r.rpc_url })
  unfolding rotate
  rotate-runs runtime c head good at = elim (Bool-cases (runtime.rpc_url == r.rpc_url)) [
    | inl same ↦
        let url : runtime.rpc_url ≡ r.rpc_url =
          (string_eq.test_iff runtime.rpc_url r.rpc_url).0 same in
        ground (arith, same, at, url)
    | inr differs ↦ elim (Bool-cases (endpoints.rotates runtime.rpc_url r.rpc_url)) [
      | inl rotates ↦ ground (
        arith,
        differs,
        rotates,
        lookup-insert r.chain.id (record { rpc_url = r.rpc_url }) c.workers,
      )
      | inr fails ↦
          ground (arith, differs, fails, start_worker-ok (stop endpoints r.chain.id c) head good)
    ]
  ]

  -- A control plane that is not closed does what the registration asks for.
  pub apply-reconcile :
      (c : ControlPlane)
      → c.closed ≡ false
      → apply endpoints r c ≡ reconcile endpoints r r.enabled (lookup r.chain.id c.workers) c
  unfolding apply
  apply-reconcile c live =
      ap (λ b. if b then c else reconcile endpoints r r.enabled (lookup r.chain.id c.workers) c)
        live

  -- An enabled chain whose endpoint is good has a worker on the registered URL after its registration is
  -- applied to a control plane that is not closed, whether the worker ran before on another URL or not.
  pub apply-runs :
      (c : ControlPlane) (head : BlockNumber)
      → c.closed ≡ false
      → r.enabled ≡ true
      → prepare_source endpoints r ≡ ok head
      → lookup r.chain.id (apply endpoints r c).workers ≡ some (record { rpc_url = r.rpc_url })
  unfolding reconcile
  apply-runs c head live on good =
      ap (λ d. lookup r.chain.id d.workers) (apply-reconcile c live)
      ∙ ap
          (λ b. lookup r.chain.id (reconcile endpoints r b (lookup r.chain.id c.workers) c).workers)
          on
      ∙ runs (lookup r.chain.id c.workers) refl
    where
      runs :
          (runtime : Option WorkerRuntime)
          → lookup r.chain.id c.workers ≡ runtime
          → lookup r.chain.id (reconcile endpoints r true runtime c).workers
            ≡ some (record { rpc_url = r.rpc_url })
      runs none idle = start_worker-ok c head good
      runs (some runtime) at = rotate-runs runtime c head good at

  -- A disabled chain has no worker and the status of a disabled one after its registration is applied to
  -- a control plane that is not closed.
  pub apply-stops :
      (c : ControlPlane)
      → c.closed ≡ false
      → r.enabled ≡ false
      → (lookup r.chain.id (apply endpoints r c).workers ≡ none)
        × (lookup r.chain.id (apply endpoints r c).statuses ≡ some (disabled_status r.chain.id))
  unfolding reconcile stop
  apply-stops c live off =
      subst
        (λ d.
          (lookup r.chain.id d.workers ≡ none)
          × (lookup r.chain.id d.statuses ≡ some (disabled_status r.chain.id)))
        (sym (
          apply-reconcile c live
          ∙ ap (λ b. reconcile endpoints r b (lookup r.chain.id c.workers) c) off))
        (stops (lookup r.chain.id c.workers) refl)
    where
      stops :
          (runtime : Option WorkerRuntime)
          → lookup r.chain.id c.workers ≡ runtime
          → (lookup r.chain.id (reconcile endpoints r false runtime c).workers ≡ none)
            × (lookup r.chain.id (reconcile endpoints r false runtime c).statuses
                ≡ some (disabled_status r.chain.id))
      stops none idle = (idle, lookup-insert r.chain.id (disabled_status r.chain.id) c.statuses)
      stops (some runtime) at = (
        lookup-remove r.chain.id c.workers,
        lookup-insert r.chain.id (disabled_status r.chain.id) c.statuses,
      )

  -- Another chain is as it was.
  abbrev IsSame : ℕ → ControlPlane → ControlPlane → Type 0
  IsSame j c d =
      (lookup j d.workers ≡ lookup j c.workers) × (lookup j d.statuses ≡ lookup j c.statuses)

  started-IsSame :
      (j : ℕ) (c : ControlPlane) (source : Result String BlockNumber)
      → eqb r.chain.id j ≡ false
      → IsSame j c (started endpoints r source c)
  unfolding started
  started-IsSame j c (ok head) other = (
    lookup-insert_other r.chain.id j (record { rpc_url = r.rpc_url }) c.workers other,
    lookup-insert_other r.chain.id j (starting_status r.chain.id (some head)) c.statuses other,
  )
  started-IsSame j c (err message) other =
      (refl, lookup-insert_other r.chain.id j (degraded_status r.chain.id message) c.statuses other)

  start_worker-IsSame :
      (j : ℕ) (c : ControlPlane)
      → eqb r.chain.id j ≡ false
      → IsSame j c (start_worker endpoints r c)
  unfolding start_worker
  start_worker-IsSame j c other = started-IsSame j c (prepare_source endpoints r) other

  rotate-IsSame :
      (j : ℕ) (runtime : WorkerRuntime) (c : ControlPlane)
      → eqb r.chain.id j ≡ false
      → IsSame j c (rotate endpoints r runtime c)
  unfolding rotate stop
  rotate-IsSame j runtime c other = elim (Bool-cases (runtime.rpc_url == r.rpc_url)) [
    | inl same ↦ (ground (arith, same), ground (arith, same))
    | inr differs ↦ elim (Bool-cases (endpoints.rotates runtime.rpc_url r.rpc_url)) [
      | inl rotates ↦ (
        ground (
          arith,
          differs,
          rotates,
          lookup-insert_other r.chain.id j (record { rpc_url = r.rpc_url }) c.workers other,
        ),
        ground (arith, differs, rotates),
      )
      | inr fails ↦
          let started = start_worker-IsSame j (stop endpoints r.chain.id c) other in
          (
            ground (
              arith,
              differs,
              fails,
              started.0,
              lookup-remove_other r.chain.id j c.workers other,
            ),
            ground (arith, differs, fails, started.1),
          )
    ]
  ]

  reconcile-IsSame :
      (j : ℕ) (c : ControlPlane)
      → eqb r.chain.id j ≡ false
      → (on : Bool) (runtime : Option WorkerRuntime)
      → IsSame j c (reconcile endpoints r on runtime c)
  unfolding reconcile stop
  reconcile-IsSame j c other true (some runtime) = rotate-IsSame j runtime c other
  reconcile-IsSame j c other true none = start_worker-IsSame j c other
  reconcile-IsSame j c other false (some runtime) = (
    lookup-remove_other r.chain.id j c.workers other,
    lookup-insert_other r.chain.id j (disabled_status r.chain.id) c.statuses other,
  )
  reconcile-IsSame j c other false none =
      (refl, lookup-insert_other r.chain.id j (disabled_status r.chain.id) c.statuses other)

  -- A registration that is applied leaves the workers and the statuses of other chains as they were.
  pub apply-IsSame :
      (j : ℕ) (c : ControlPlane)
      → eqb r.chain.id j ≡ false
      → (lookup j (apply endpoints r c).workers ≡ lookup j c.workers)
        × (lookup j (apply endpoints r c).statuses ≡ lookup j c.statuses)
  unfolding apply
  apply-IsSame j c other = stays c.closed
    where
      stays :
          (b : Bool)
          → IsSame j c
              (if b then c else reconcile endpoints r r.enabled (lookup r.chain.id c.workers) c)
      stays true = (refl, refl)
      stays false = reconcile-IsSame j c other r.enabled (lookup r.chain.id c.workers)
