-- ===== src/Orchestrator.antt =====
-- The ports of `MCOrchestrator`, app/backend/core/orchestrator.py, for one transport protocol.
pub mod Ports
pub mod Reload
mod Examples
use silkjam.Prelude.{
  ℕ, zero, suc, ◌+◌, ◌-◌, ◌≤◌, ◌<◌, ◌≡◌, refl, ◌≢◌, Bool, true, false, not, ◌&&◌, ◌||◌, Option,
  none, some, List, [], ◌∷◌, ◌++◌, if◌then◌else◌, arith, inl, inr, Bool-cases, ◌==◌, ==_refl,
}
use silkjam.Prelude.Sets.{mem, discard, mem-append}
use silkjam.Config.{Text, ProxyListing, valid, Config}

-- `PortProtocol`
pub data PortProtocol : Type 0 where
  tcp udp : PortProtocol

-- An active proxy: its ports.
pub record Proxy : Type 0 where
  pub port : ℕ
  pub voice_port : Option ℕ

abbrev pub cons_some : Option ℕ → List ℕ → List ℕ
cons_some none ports = ports
cons_some (some port) ports = port ∷ ports

abbrev pub port_of : PortProtocol → ℕ → Option ℕ → Option ℕ
port_of tcp port voice_port = some port
port_of udp port voice_port = voice_port

unfoldable pub configured_ports : PortProtocol → List (ℕ × ProxyListing) → List ℕ
configured_ports protocol [] = []
configured_ports protocol ((name, l) ∷ ls) =
    let rest = configured_ports protocol ls in
    if l.enabled && valid l then cons_some (port_of protocol l.port l.voice_port) rest else rest

unfoldable pub active_ports : PortProtocol → List (ℕ × Proxy) → List ℕ
active_ports protocol [] = []
active_ports protocol ((name, p) ∷ ps) =
    cons_some (port_of protocol p.port p.voice_port) (active_ports protocol ps)

unfoldable pub reserved_proxy_ports : PortProtocol → Config → List (ℕ × Proxy) → List ℕ
unfolding configured_ports active_ports
reserved_proxy_ports protocol config proxies =
    configured_ports protocol config.proxy_listing ++ active_ports protocol proxies

-- The first of the `count` ports from `p` on that is available.
unfoldable pub first_available : ℕ → ℕ → List ℕ → Option ℕ
first_available zero p unavailable = none
first_available (suc count) p unavailable =
    let next = first_available count (suc p) unavailable in
    if not (mem p unavailable) then some p else next

-- Entering `acquire_port`: the port and the ports that are acquired then; `none` is
-- `AcquirePortError`. The range is lo, …, hi.
unfoldable pub acquire_port : ℕ → ℕ → List ℕ → List ℕ → Option (ℕ × List ℕ)
unfolding first_available
acquire_port lo hi acquired reserved =
    elim (first_available (suc hi - lo) lo (acquired ++ reserved)) [
      | none ↦ none
      | some port ↦ some (port, port ∷ acquired)
    ]

-- Leaving it.
unfoldable pub release_port : ℕ → List ℕ → List ℕ
release_port port acquired = discard port acquired

-- `get_voice_host`: the voice port in the answer, the only one of those that route to the backend.
abbrev pub routes : ℕ → List (Text × ℕ) → Bool
routes backend [] = false
routes backend ((subdomain, server) ∷ rest) = (backend == server) || routes backend rest

abbrev pub add_new : Option ℕ → List ℕ → List ℕ
add_new none ports = ports
add_new (some port) ports = if mem port ports then ports else port ∷ ports

unfoldable pub voice_ports_of : ℕ → List (ℕ × ProxyListing) → List ℕ
voice_ports_of backend [] = []
voice_ports_of backend ((name, l) ∷ ls) =
    let rest = voice_ports_of backend ls in
    if l.enabled && valid l && routes backend l.subdomains then add_new l.voice_port rest else rest

unfoldable pub get_voice_host : ℕ → Config → Option ℕ
unfolding voice_ports_of
get_voice_host backend config = elim (voice_ports_of backend config.proxy_listing) [
  | [] ↦ none
  | port ∷ more ↦ elim more [ [] ↦ some port | _ ↦ none ]
]
