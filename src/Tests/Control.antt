-- ===== src/Tests/Control.antt =====
-- Registrations that the supervisor of parseon-core/src/supervisor.rs applies, at concrete inputs.
use parseon.Common.{◌≡◌, refl, Bool, true, false, [], ◌∷◌, some, none, ok}
use parseon.Common.Maps.{lookup}
use parseon.Supervisor.{
  RegisteredChain, ControlPlane, Endpoints, disabled_status, prepare_source, apply, shutdown,
}
use parseon.Supervisor.Applied.{apply-runs, apply-stops, apply-IsSame}
use parseon.Supervisor.Closed.{Reach, here, next, applied, IsClosed, shutdown-IsClosed}

-- Endpoints of chain 7 that cannot be rotated in place.
abbrev endpoints : Endpoints
endpoints = record {
  connects = λ url. true;
  probe = λ url. some (7, 20);
  rotates = λ old url. false;
}

abbrev registered : Bool → RegisteredChain
registered enabled = record { chain = record { id = 7 }; rpc_url = "b"; enabled = enabled }

-- Chain 7 runs on another URL, chain 8 runs.
abbrev control : ControlPlane
control = record {
  closed = false;
  workers = (7, record { rpc_url = "a" }) ∷ (8, record { rpc_url = "c" }) ∷ [];
  statuses = [];
  stopped = [];
}

prepares_source : prepare_source endpoints (registered true) ≡ ok 20
unfolding prepare_source
prepares_source = refl

restarts : (apply endpoints (registered true) control).stopped ≡ 7 ∷ []
unfolding apply
restarts = refl

apply-runs_example :
    lookup 7 (apply endpoints (registered true) control).workers ≡ some (record { rpc_url = "b" })
apply-runs_example = apply-runs endpoints (registered true) control 20 refl refl prepares_source

apply-stops_example :
    (lookup 7 (apply endpoints (registered false) control).workers ≡ none)
    × (lookup 7 (apply endpoints (registered false) control).statuses ≡ some (disabled_status 7))
apply-stops_example = apply-stops endpoints (registered false) control refl refl

apply-IsSame_example :
    (lookup 8 (apply endpoints (registered true) control).workers ≡ lookup 8 control.workers)
    × (lookup 8 (apply endpoints (registered true) control).statuses ≡ lookup 8 control.statuses)
apply-IsSame_example = apply-IsSame endpoints (registered true) 8 control refl

abbrev after_shutdown : ControlPlane
after_shutdown = apply endpoints (registered true) (shutdown endpoints control)

late : Reach endpoints (shutdown endpoints control) after_shutdown
late = next here (applied (registered true) (shutdown endpoints control))

shutdown-IsClosed_example : IsClosed after_shutdown
shutdown-IsClosed_example = shutdown-IsClosed endpoints control after_shutdown late
