-- ===== src/Orchestrator/Examples.antt =====
-- The theorems on the orchestrator, at concrete ports and proxies.
use silkjam.Prelude.{◌≡◌, refl, true, false, none, some, [], ◌∷◌}
use silkjam.Prelude.Sets.{mem}
use silkjam.Prelude.Dict.{lookup}
use silkjam.Config.{Config}
use silkjam.Supervisor.{State, running}
use silkjam.Orchestrator.{acquire_port}
use silkjam.Orchestrator.Ports.{Acquires, acquire_port_lem}
use silkjam.Orchestrator.Reload.{Orchestrator, clean_proxies, clean_proxies-leaves}

port_of_range :
    acquire_port 30000 30003 (30000 ∷ []) (30001 ∷ []) ≡ some (30002, 30002 ∷ 30000 ∷ [])
unfolding acquire_port mem
port_of_range = refl

acquire_port_lem_example :
    Acquires 30000 30003
      (30000 ∷ [])
      (30001 ∷ [])
      (acquire_port 30000 30003 (30000 ∷ []) (30001 ∷ []))
acquire_port_lem_example = acquire_port_lem 30000 30003 (30000 ∷ []) (30001 ∷ [])

abbrev running_state : State
running_state = record {
  restart = true;
  status = running;
  task = some 0;
  result = none;
  pending_start = false;
  pending_stop = false;
  force_pending_stop = false;
  done_entering = true;
  done_exiting = false;
}

abbrev one_proxy : Orchestrator
one_proxy = record {
  supervisor = record {
    units = (7, running_state) ∷ [];
    running_unit_tasks = (0, 7) ∷ [];
    command_queue = [];
    locked = false;
    cancelled = [];
    next_task = 1;
  };
  proxies = (3, 7) ∷ [];
  backends = [];
  next_unit = 8;
}

abbrev no_listing : Config
no_listing = record { proxy_listing = []; server_listing = [] }

clean_proxies-leaves_example :
    (lookup 3 (clean_proxies one_proxy no_listing).proxies ≡ none)
    × (lookup 7 ((clean_proxies one_proxy no_listing).supervisor).units ≡ some running_state)
unfolding lookup
clean_proxies-leaves_example =
    clean_proxies-leaves one_proxy no_listing 3 7 running_state refl refl refl refl
