-- ===== src/Backend/Ports/Fresh.antt =====
-- The TCP ports of a backend are free, and they differ.
use silkjam.Prelude.{
  ℕ, ◌≡◌, ◌≢◌, subst, ap, ◌∙◌, Bool, true, false, Option, none, some, List, [], ◌++◌, arith, ◌≤◌,
}
use silkjam.Prelude.Sets.{mem, mem-append}
use silkjam.Orchestrator.{PortProtocol, tcp, udp, acquire_port}
use silkjam.Orchestrator.Ports.{Acquires, acquire_port_lem}
use silkjam.Backend.Ports.{
  Acquired, Starting, StartedPorts, with_port, entered_port, enter_port, start_ports,
}

module _ (lo hi : ℕ) (reserved : PortProtocol → List ℕ) (a : Acquired) where
  -- A port of the range that was free at the start.
  abbrev pub IsFree : ℕ → Type 0
  IsFree port = (lo ≤ port) × (port ≤ hi) × (mem port (a.tcp_ports ++ reserved tcp) ≡ false)

  abbrev AreFresh : Option StartedPorts × Starting → Type 0
  AreFresh (none, s) = Unit
  AreFresh (some ports, s) =
      IsFree ports.server_port × IsFree ports.rcon_port × (ports.rcon_port ≢ ports.server_port)

  -- What entering a TCP port leads to.
  abbrev Takes : Starting → Option ℕ × Starting → Type 0
  Takes s (none, s') = Unit
  Takes s (some port, s') =
      (lo ≤ port)
      × (port ≤ hi)
      × (mem port (s.acquired.tcp_ports ++ reserved tcp) ≡ false)
      × (mem port s'.acquired.tcp_ports ≡ true)
      × ((q : ℕ) → q ≢ port → mem q s'.acquired.tcp_ports ≡ mem q s.acquired.tcp_ports)

  entered_port-Takes :
      (s : Starting) (o : Option (ℕ × List ℕ))
      → Acquires lo hi s.acquired.tcp_ports (reserved tcp) o
      → Takes s (entered_port lo hi reserved tcp s o)
  entered_port-Takes s none h = tt
  entered_port-Takes s (some (port, ports)) (le, ge, free, low, taken, others, back) =
      (le, ge, free, taken, others)

  enter_port-Takes : (s : Starting) → Takes s (enter_port lo hi reserved tcp s)
  unfolding enter_port
  enter_port-Takes s =
      entered_port-Takes s (acquire_port lo hi s.acquired.tcp_ports (reserved tcp))
        (acquire_port_lem lo hi s.acquired.tcp_ports (reserved tcp))

  with_port-AreFresh :
      (rest : ℕ → Starting → Option StartedPorts × Starting) (s : Starting)
      (o : Option ℕ × Starting)
      → Takes s o
      → ((port : ℕ) (s' : Starting) → Takes s (some port, s') → AreFresh (rest port s'))
      → AreFresh (with_port rest o)
  with_port-AreFresh rest s (none, s') h next = tt
  with_port-AreFresh rest s (some port, s') h next = next port s' h

  abbrev start : Starting
  start = record { acquired = a; stack = [] }

  -- The second port is not the first, and was free before it.
  second_port :
      (port other : ℕ) (s s' : Starting)
      → Takes start (some port, s)
      → Takes s (some other, s')
      → IsFree other × (other ≢ port)
  second_port port other s s' (le, ge, free, taken, others) (le', ge', free', taken', others') =
      let parts = mem-append other s.acquired.tcp_ports (reserved tcp) in
      let differs : other ≢ port =
        λ same. ground (arith, parts, free', ap (λ q. mem q s.acquired.tcp_ports) same ∙ taken) in
      (
        (
          le',
          ge',
          ground (
            arith,
            parts,
            free',
            others other differs,
            mem-append other a.tcp_ports (reserved tcp),
          ),
        ),
        differs,
      )

  voice_or_none :
      (server rcon : ℕ) (o : Option ℕ × Starting)
      → IsFree server
      → IsFree rcon × (rcon ≢ server)
      → AreFresh (
          with_port
            (λ voice s. (
              some (record { server_port = server; rcon_port = rcon; voice_port = some voice }),
              s,
            ))
            o)
  voice_or_none server rcon (none, s) h k = tt
  voice_or_none server rcon (some voice, s) h (k, d) = (h, k, d)

  start_ports-AreFresh : (has_voice : Bool) → AreFresh (start_ports lo hi reserved has_voice start)
  unfolding start_ports
  start_ports-AreFresh true =
      with_port-AreFresh _ start (enter_port lo hi reserved tcp start) (enter_port-Takes start)
        (λ server s1 first.
          with_port-AreFresh _ s1 (enter_port lo hi reserved tcp s1) (enter_port-Takes s1)
            (λ rcon s2 then_.
              voice_or_none server rcon (enter_port lo hi reserved udp s2)
                (first.0, first.1, first.2) (second_port server rcon s1 s2 first then_)))
  start_ports-AreFresh false =
      with_port-AreFresh _ start (enter_port lo hi reserved tcp start) (enter_port-Takes start)
        (λ server s1 first.
          with_port-AreFresh _ s1 (enter_port lo hi reserved tcp s1) (enter_port-Takes s1)
            (λ rcon s2 then_.
              let (free, differs) = second_port server rcon s1 s2 first then_ in
              ((first.0, first.1, first.2), free, differs)))

-- Where the start of a backend gets its ports, the port of the server and the RCON port differ, lie
-- in the range, and are neither acquired before nor reserved for a proxy.
pub start_ports-fresh :
    (lo hi : ℕ) (reserved : PortProtocol → List ℕ) (has_voice : Bool) (a : Acquired)
    (ports : StartedPorts) (s : Starting)
    → start_ports lo hi reserved has_voice (record { acquired = a; stack = [] }) ≡ (some ports, s)
    → IsFree lo hi reserved a ports.server_port
      × IsFree lo hi reserved a ports.rcon_port
      × (ports.rcon_port ≢ ports.server_port)
start_ports-fresh lo hi reserved has_voice a ports s e =
    subst (λ o. AreFresh lo hi reserved a o) e (start_ports-AreFresh lo hi reserved a has_voice)
