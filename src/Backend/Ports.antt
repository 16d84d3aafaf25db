-- ===== src/Backend/Ports.antt =====
-- The ports that `_start` of app/backend/core/backend.py takes from the orchestrator, and that the
-- exit stack gives back in `_stop` or after a failed start.
pub mod Laws
pub mod Fresh
mod Examples
use silkjam.Prelude.{ℕ, Bool, Option, none, some, List, [], ◌∷◌, if◌then◌else◌}
use silkjam.Orchestrator.{PortProtocol, tcp, udp, acquire_port, release_port}

-- `acquired_server_ports`
pub record Acquired : Type 0 where
  pub tcp_ports : List ℕ
  pub udp_ports : List ℕ

abbrev pub ports_of : PortProtocol → Acquired → List ℕ
ports_of tcp a = a.tcp_ports
ports_of udp a = a.udp_ports

abbrev pub set_ports : PortProtocol → List ℕ → Acquired → Acquired
set_ports tcp ports a = record a { tcp_ports = ports }
set_ports udp ports a = record a { udp_ports = ports }

-- The acquired ports, and the ports on the exit stack, the last one first.
pub record Starting : Type 0 where
  pub acquired : Acquired
  pub stack : List (PortProtocol × ℕ)

pub record StartedPorts : Type 0 where
  pub server_port : ℕ
  pub rcon_port : ℕ
  pub voice_port : Option ℕ

-- The exit of the stack.
unfoldable pub leave_all : List (PortProtocol × ℕ) → Acquired → Acquired
unfolding release_port
leave_all [] a = a
leave_all ((protocol, port) ∷ stack) a =
    leave_all stack (set_ports protocol (release_port port (ports_of protocol a)) a)

-- An exception, or on with the port.
abbrev pub with_port :
    (ℕ → Starting → Option StartedPorts × Starting)
    → Option ℕ × Starting
    → Option StartedPorts × Starting
with_port rest (none, s) = (none, s)
with_port rest (some port, s) = rest port s

-- The range of the ports and those that are reserved for proxies.
module _ (lo hi : ℕ) (reserved : PortProtocol → List ℕ) where
  abbrev pub entered_port : PortProtocol → Starting → Option (ℕ × List ℕ) → Option ℕ × Starting
  entered_port protocol s none = (none, s)
  entered_port protocol s (some (port, ports)) = (
    some port,
    record { acquired = set_ports protocol ports s.acquired; stack = (protocol, port) ∷ s.stack },
  )

  -- `self.stack.enter_context(self.port_factory(protocol))`
  unfoldable pub enter_port : PortProtocol → Starting → Option ℕ × Starting
  unfolding acquire_port
  enter_port protocol s =
      entered_port protocol s
        (acquire_port lo hi (ports_of protocol s.acquired) (reserved protocol))

  -- `has_voice` tells whether there are properties of the voice chat.
  unfoldable pub start_ports : Bool → Starting → Option StartedPorts × Starting
  unfolding enter_port
  start_ports has_voice s =
      with_port
        (λ server_port s'.
          with_port
            (λ rcon_port s''.
              if has_voice
              then with_port
                  (λ voice_port s3. (
                    some (record {
                      server_port = server_port;
                      rcon_port = rcon_port;
                      voice_port = some voice_port;
                    }),
                    s3,
                  ))
                  (enter_port udp s'')
              else (
                some (record {
                  server_port = server_port;
                  rcon_port = rcon_port;
                  voice_port = none;
                }),
                s'',
              ))
            (enter_port tcp s'))
        (enter_port tcp s)
