-- ===== src/Health/Examples.antt =====
-- Runs of the health server with two scale sets.
use runscaler.Base.{◌<◌, ◌≡◌, ◌↔◌, refl, String, String, true, false, none, List, [], ◌∷◌, length}
use runscaler.Base.Assoc.{lookup, put, modify}
use runscaler.Base.Strings.{insert, sort}
use runscaler.Controller.{Controller, runtime_status, new_controller}
use runscaler.Health.{HealthServer, controllers_observed, new_health_server}
use runscaler.Health.Handlers.{status_of, handle_readyz, handle_healthz, is_running}
use runscaler.Health.Readiness.{handle_readyz_iff}
use runscaler.Health.Events.{
  Event, registers, connects, disconnects, run, seen, view, run-view, handle_readyz-run,
}

abbrev idle_controllers : String → Controller
idle_controllers _ = new_controller 0 2

abbrev calls : List (Event controllers_observed)
calls =
    registers "linux" "linux"
    ∷ registers "mac" "mac"
    ∷ disconnects "linux" "connecting"
    ∷ connects "linux" 7
    ∷ connects "mac" 8
    ∷ disconnects "mac" "EOF"
    ∷ connects "mac" 9
    ∷ []

abbrev served : HealthServer controllers_observed
served = run controllers_observed (new_health_server controllers_observed "1.0" 5) calls

readyz-ok : handle_readyz controllers_observed served idle_controllers ≡ true
unfolding handle_readyz run put lookup new_health_server modify runtime_status new_controller
readyz-ok = refl

healthz-ok : (handle_healthz controllers_observed served idle_controllers 60).status ≡ "ok"
unfolding handle_healthz sort run put lookup new_health_server insert status_of modify
    runtime_status new_controller
healthz-ok = refl

handle_readyz_iff_example : (handle_readyz controllers_observed served idle_controllers ≡ true) ↔ (
    (0 < length served.controllers)
    × ((handle_healthz controllers_observed served idle_controllers 60).status ≡ "ok"))
unfolding run put lookup new_health_server
handle_readyz_iff_example =
    handle_readyz_iff controllers_observed served idle_controllers 60 (refl, (refl, tt))

run-view_example :
    view controllers_observed
      (run controllers_observed (new_health_server controllers_observed "1.0" 5) calls)
      "mac"
    ≡ seen controllers_observed "mac" (none, false) calls
run-view_example = run-view controllers_observed "1.0" 5 calls "mac"

handle_readyz-run_example :
    ((seen controllers_observed "mac" (none, false) calls).1 ≡ true)
    × (is_running controllers_observed
          (controllers_observed.runtime_provider idle_controllers "mac")
        ≡ true)
handle_readyz-run_example =
    handle_readyz-run controllers_observed "1.0" 5 calls idle_controllers "mac" "mac" readyz-ok refl
