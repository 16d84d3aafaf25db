-- ===== src/Backend/Ports/Laws.antt =====
-- The exit stack gives back what the start of a backend took.
use silkjam.Prelude.{ℕ, ◌≡◌, refl, sym, ◌∙◌, Bool, true, false, Option, none, some, List, [], ◌∷◌}
use silkjam.Prelude.Sets.{mem, mem-discard, mem-discard_other}
use native.Mathlib.Decide.{ℕ_discrete}
use silkjam.Orchestrator.{PortProtocol, tcp, udp, acquire_port, release_port}
use silkjam.Orchestrator.Ports.{Acquires, acquire_port_lem}
use silkjam.Backend.Ports.{
  Acquired, ports_of, set_ports, Starting, StartedPorts, leave_all, with_port, entered_port,
  enter_port, start_ports,
}

-- The same sets of ports.
abbrev IsSame : Acquired → Acquired → Type 0
IsSame a b =
    (protocol : PortProtocol) (q : ℕ) → mem q (ports_of protocol a) ≡ mem q (ports_of protocol b)

release_port-same :
    (port q : ℕ) (xs ys : List ℕ)
    → mem q xs ≡ mem q ys
    → mem q (release_port port xs) ≡ mem q (release_port port ys)
unfolding release_port
release_port-same port q xs ys e = elim (ℕ_discrete q port) [
  | yes same ↦ rw (same) (mem-discard port xs ∙ sym (mem-discard port ys))
  | no other ↦ mem-discard_other q port xs other ∙ e ∙ sym (mem-discard_other q port ys other)
]

set_ports-IsSame :
    (protocol : PortProtocol) (xs ys : List ℕ) (a b : Acquired)
    → ((q : ℕ) → mem q xs ≡ mem q ys)
    → IsSame a b
    → IsSame (set_ports protocol xs a) (set_ports protocol ys b)
set_ports-IsSame tcp xs ys a b e same tcp q = e q
set_ports-IsSame tcp xs ys a b e same udp q = same udp q
set_ports-IsSame udp xs ys a b e same tcp q = same tcp q
set_ports-IsSame udp xs ys a b e same udp q = e q

leave_all-IsSame :
    (stack : List (PortProtocol × ℕ)) (a b : Acquired)
    → IsSame a b
    → IsSame (leave_all stack a) (leave_all stack b)
unfolding leave_all
leave_all-IsSame [] a b same = same
leave_all-IsSame ((protocol, port) ∷ stack) a b same =
    leave_all-IsSame stack (set_ports protocol (release_port port (ports_of protocol a)) a)
      (set_ports protocol (release_port port (ports_of protocol b)) b)
      (set_ports-IsSame protocol (release_port port (ports_of protocol a))
        (release_port port (ports_of protocol b)) a b
        (λ q.
          release_port-same port q (ports_of protocol a) (ports_of protocol b) (same protocol q))
        same)

-- A port that is taken and given back.
taken_back :
    (protocol : PortProtocol) (port : ℕ) (ports : List ℕ) (a : Acquired)
    → ((q : ℕ) → mem q (release_port port ports) ≡ mem q (ports_of protocol a))
    → IsSame
        (set_ports protocol
          (release_port port (ports_of protocol (set_ports protocol ports a)))
          (set_ports protocol ports a))
        a
taken_back tcp port ports a e tcp q = e q
taken_back tcp port ports a e udp q = refl
taken_back udp port ports a e tcp q = refl
taken_back udp port ports a e udp q = e q

-- Leaving the stack leads to the ports of `a`.
abbrev Restores : Acquired → Starting → Type 0
Restores a s = IsSame (leave_all s.stack s.acquired) a

module _ (lo hi : ℕ) (reserved : PortProtocol → List ℕ) where
  entered_port-Restores :
      (protocol : PortProtocol) (a : Acquired) (s : Starting) (o : Option (ℕ × List ℕ))
      → Acquires lo hi (ports_of protocol s.acquired) (reserved protocol) o
      → Restores a s
      → Restores a ((entered_port lo hi reserved protocol s o).1)
  unfolding leave_all
  entered_port-Restores protocol a s none h same p q = same p q
  entered_port-Restores protocol a s (some (port, ports)) (le, ge, free, low, taken, others, back)
        same p q =
      leave_all-IsSame s.stack
        (set_ports protocol
          (release_port port (ports_of protocol (set_ports protocol ports s.acquired)))
          (set_ports protocol ports s.acquired))
        s.acquired (taken_back protocol port ports s.acquired back) p q
      ∙ same p q

  enter_port-Restores :
      (protocol : PortProtocol) (a : Acquired) (s : Starting)
      → Restores a s
      → Restores a ((enter_port lo hi reserved protocol s).1)
  unfolding enter_port
  enter_port-Restores protocol a s same =
      entered_port-Restores protocol a s
        (acquire_port lo hi (ports_of protocol s.acquired) (reserved protocol))
        (acquire_port_lem lo hi (ports_of protocol s.acquired) (reserved protocol)) same

  with_port-Restores :
      (a : Acquired) (rest : ℕ → Starting → Option StartedPorts × Starting)
      (o : Option ℕ × Starting)
      → ((port : ℕ) (s : Starting) → Restores a s → Restores a ((rest port s).1))
      → Restores a (o.1)
      → Restores a ((with_port rest o).1)
  with_port-Restores a rest (none, s) keeps same = same
  with_port-Restores a rest (some port, s) keeps same = keeps port s same

  start_ports-Restores :
      (has_voice : Bool) (a : Acquired) (s : Starting)
      → Restores a s
      → Restores a ((start_ports lo hi reserved has_voice s).1)
  unfolding start_ports
  start_ports-Restores true a s same =
      with_port-Restores a _ (enter_port lo hi reserved tcp s)
        (λ server s1 same1.
          with_port-Restores a _ (enter_port lo hi reserved tcp s1)
            (λ rcon s2 same2.
              with_port-Restores a _ (enter_port lo hi reserved udp s2) (λ voice s3 same3. same3)
                (enter_port-Restores udp a s2 same2))
            (enter_port-Restores tcp a s1 same1))
        (enter_port-Restores tcp a s same)
  start_ports-Restores false a s same =
      with_port-Restores a _ (enter_port lo hi reserved tcp s)
        (λ server s1 same1.
          with_port-Restores a _ (enter_port lo hi reserved tcp s1) (λ rcon s2 same2. same2)
            (enter_port-Restores tcp a s1 same1))
        (enter_port-Restores tcp a s same)

-- Whether the start of a backend gets all its ports or fails at any of them, the exit of its stack
-- leaves exactly the ports acquired that were acquired before, of each protocol.
pub start_ports-given_back :
    (lo hi : ℕ) (reserved : PortProtocol → List ℕ) (has_voice : Bool) (a : Acquired)
    (protocol : PortProtocol) (q : ℕ)
    → mem q (
        ports_of protocol (
          leave_all
            ((start_ports lo hi reserved has_voice (record { acquired = a; stack = [] })).1).stack
            ((start_ports lo hi reserved has_voice (record { acquired = a; stack = [] })).1
              ).acquired))
      ≡ mem q (ports_of protocol a)
unfolding leave_all
start_ports-given_back lo hi reserved has_voice a protocol q =
    start_ports-Restores lo hi reserved has_voice a (record { acquired = a; stack = [] })
      (λ p r. refl) protocol q
