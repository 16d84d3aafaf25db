-- ===== src/Proxy/Identify.antt =====
-- `_identify_backend` of `MCProxy` in app/backend/core/proxy.py: the backend that the address of a
-- client names. Backends go by their names, which are numbers.
use silkjam.Prelude.{ℕ, Option, none, some, List, [], ◌∷◌, if◌then◌else◌}
use silkjam.Prelude.Sets.{mem}
use silkjam.Protocol.Result.{protocol, Result, ok, err}
use silkjam.Protocol.Bytes.{bytes_eq}
use silkjam.Protocol.Text.{Text}
use silkjam.Protocol.Packet.{HandshakeRequest}
use silkjam.Protocol.Legacy.{LegacyPingRequest}
use silkjam.Protocol.Reader.{PacketReader, read_legacy_ping}
use silkjam.Protocol.Reader.Calls.{read_handshake_packet}
use silkjam.Proxy.Forwarding.{Handshake, legacy, modern}

-- `listing.subdomains` and the names of `self.backends`.
pub record Routes : Type 0 where
  pub subdomains : List (Text × ℕ)
  pub backends : List ℕ

unfoldable pub server_of : Text → List (Text × ℕ) → Option ℕ
server_of subdomain [] = none
server_of subdomain ((key, name) ∷ others) =
    if bytes_eq subdomain key then some name else server_of subdomain others

-- The subdomain is the first group of the match, or empty.
unfoldable pub find_backend : Routes → Option Text → Option ℕ
unfolding server_of mem
find_backend routes none = none
find_backend routes (some subdomain) = elim (server_of subdomain routes.subdomains) [
  | none ↦ none
  | some name ↦ if mem name routes.backends then some name else none
]

abbrev pub identified : Option ℕ → Handshake → Option (ℕ × Handshake)
identified none handshake = none
identified (some name) handshake = some (name, handshake)

-- `DOMAIN_REGEX.fullmatch` and `DOMAIN_REGEX.match`, each with the subdomain of a match.
module _ (fullmatch match : Text → Option Text) where
  abbrev pub identify_modern :
      Routes → Result HandshakeRequest × PacketReader → Option (ℕ × Handshake) × PacketReader
  identify_modern routes (ok h, s) =
      (identified (find_backend routes (match h.server_address)) (modern h), s)
  identify_modern routes (err e, s) = (none, s)

  abbrev pub identify_from :
      Routes → Result LegacyPingRequest × PacketReader → Option (ℕ × Handshake) × PacketReader
  identify_from routes (ok ping, s) =
      (identified (find_backend routes (fullmatch ping.hostname)) (legacy ping), s)
  identify_from routes (err protocol, s) = identify_modern routes (read_handshake_packet s)
  identify_from routes (err other, s) = (none, s)

  unfoldable pub identify_backend : Routes → PacketReader → Option (ℕ × Handshake) × PacketReader
  unfolding find_backend read_legacy_ping read_handshake_packet
  identify_backend routes s = identify_from routes (read_legacy_ping s)
