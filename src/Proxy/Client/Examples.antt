-- ===== src/Proxy/Client/Examples.antt =====
-- Two players log in to a server that sleeps, after a status request.
use silkjam.Prelude.{
  ℕ, ◌≡◌, ◌≤◌, refl, true, false, none, some, Option, List, [], ◌∷◌, Bool, ◌==◌, Bool-cases, inl,
  inr,
}
use silkjam.Prelude.Int.{pos}
use silkjam.Prelude.Dict.{lookup, store}
use silkjam.Supervisor.{Supervisor, new_state, stopped, start}
use silkjam.Supervisor.Commands.{start_unit_nowait}
use silkjam.Supervisor.Queries.{is_starting, is_running, done_stopping}
use silkjam.Proxy.Forwarding.{Handshake, modern}
use silkjam.Supervisor.Invariant.{starts, IsConsistent}
use silkjam.Proxy.Client.{Client, handle_client, handle_clients, wake}
use silkjam.Proxy.Client.Waking.{visited_by, handle_clients_lem}

abbrev handshake : ℕ → Option Handshake
handshake next_state = some (
    modern (record {
      protocol_version = pos 769;
      server_address = [];
      server_port = 25565;
      next_state = pos next_state;
    }))

abbrev client : ℕ → Bool → Client
client next_state started = record {
  before = λ s. s;
  handshake = handshake next_state;
  meanwhile = none;
  started = started;
}

abbrev clients : List Client
clients = client 1 false ∷ client 2 true ∷ client 2 false ∷ []

abbrev asleep : Supervisor
asleep = record {
  units = (4, new_state false stopped) ∷ [];
  running_unit_tasks = [];
  command_queue = [];
  locked = false;
  cancelled = [];
  next_task = 0;
}

asleep-IsConsistent : IsConsistent asleep
unfolding starts lookup new_state
asleep-IsConsistent u = elim (Bool-cases (u == 4)) [
  | inl same ↦ rw (same) (refl, refl)
  | inr other ↦ rw (other) refl
]

handle_clients_lem_example :
    (handle_clients 4 clients asleep ≡ visited_by 4 clients asleep)
    × IsConsistent (handle_clients 4 clients asleep)
    × (starts 4 ((handle_clients 4 clients asleep).command_queue) ≤ 1)
handle_clients_lem_example =
    handle_clients_lem 4 clients asleep ((λ s i. i), tt, ((λ s i. i), tt, ((λ s i. i), tt, tt)))
      asleep-IsConsistent

one_start : (handle_clients 4 clients asleep).command_queue ≡ (start, 4) ∷ []
unfolding handle_clients handle_client wake done_stopping is_starting is_running start_unit_nowait
    lookup store new_state
one_start = refl
