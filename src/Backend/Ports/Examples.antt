-- ===== src/Backend/Ports/Examples.antt =====
-- The ports of a backend at a small range.
use silkjam.Prelude.{ℕ, ◌≡◌, ◌≢◌, refl, true, some, List, [], ◌∷◌}
use silkjam.Prelude.Sets.{mem}
use silkjam.Orchestrator.{PortProtocol, tcp, udp, acquire_port}
use silkjam.Backend.Ports.{
  Acquired, ports_of, Starting, StartedPorts, leave_all, enter_port, start_ports,
}
use silkjam.Backend.Ports.Laws.{start_ports-given_back}
use silkjam.Backend.Ports.Fresh.{IsFree, start_ports-fresh}

abbrev one_taken : Acquired
one_taken = record { tcp_ports = 30000 ∷ []; udp_ports = [] }

abbrev proxy_ports : PortProtocol → List ℕ
proxy_ports tcp = 30002 ∷ []
proxy_ports udp = []

abbrev three_ports : StartedPorts
three_ports = record { server_port = 30001; rcon_port = 30003; voice_port = some 30000 }

abbrev three_taken : Starting
three_taken = record {
  acquired = record { tcp_ports = 30003 ∷ 30001 ∷ 30000 ∷ []; udp_ports = 30000 ∷ [] };
  stack = (udp, 30000) ∷ (tcp, 30003) ∷ (tcp, 30001) ∷ [];
}

takes_three :
    start_ports 30000 30003 proxy_ports true (record { acquired = one_taken; stack = [] })
    ≡ (some three_ports, three_taken)
unfolding start_ports enter_port acquire_port mem
takes_three = refl

start_ports-fresh_example :
    IsFree 30000 30003 proxy_ports one_taken 30001
    × IsFree 30000 30003 proxy_ports one_taken 30003
    × (three_ports.rcon_port ≢ three_ports.server_port)
start_ports-fresh_example =
    start_ports-fresh 30000 30003 proxy_ports true one_taken three_ports three_taken takes_three

-- A range that is too small for the second port.
start_ports-given_back_example :
    mem 30001 (
      ports_of tcp (
        leave_all
          ((start_ports 30000 30001 proxy_ports true
              (record { acquired = one_taken; stack = [] })).1
            ).stack
          ((start_ports 30000 30001 proxy_ports true
              (record { acquired = one_taken; stack = [] })).1
            ).acquired))
    ≡ mem 30001 (ports_of tcp one_taken)
start_ports-given_back_example =
    start_ports-given_back 30000 30001 proxy_ports true one_taken tcp 30001
