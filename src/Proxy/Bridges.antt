-- ===== src/Proxy/Bridges.antt =====
-- The voice bridges of a proxy: `voice_bridges` and the methods that open and close them.
pub mod Keys
pub mod Filter
pub mod Marks
pub mod Packets
pub mod Chosen
pub mod Voices
use silkjam.Prelude.{
  ℕ, suc, ◌-◌, ◌*◌, Bool, true, false, not, ◌&&◌, ◌||◌, Option, none, some, List, [], ◌∷◌, leb,
  ◌==◌, if◌then◌else◌,
}
use silkjam.Proxy.Sessions.{
  Session, Sessions, selected, Untracked, not_tracked, last_one, remaining, track, untrack,
}

pub record Addr : Type 0 where
  pub host : ℕ
  pub port : ℕ

abbrev pub same_addr : Addr → Addr → Bool
same_addr a b = (a.host == b.host) && (a.port == b.port)

-- A `VoiceBridge` with its key `(player, backend)` in the dict.
pub record Bridge : Type 0 where
  pub player : ℕ
  pub backend : ℕ
  pub client_addr : Addr
  pub transport : ℕ
  pub connected : Bool
  pub last_activity : ℕ

-- `closed` holds the transports that were closed or lost; the next one is `next_transport`.
pub record Voice : Type 0 where
  pub sessions : Sessions
  pub bridges : List Bridge
  pub closed : List ℕ
  pub next_transport : ℕ

abbrev pub has_key : ℕ → ℕ → Bridge → Bool
has_key player backend b = (player == b.player) && (backend == b.backend)

unfoldable pub find : ℕ → ℕ → List Bridge → Option Bridge
find player backend [] = none
find player backend (b ∷ bs) =
    let rest = find player backend bs in if has_key player backend b then some b else rest

-- `voice_bridges.pop(key, None)`, without the key.
unfoldable pub pop : ℕ → ℕ → List Bridge → List Bridge
pop player backend [] = []
pop player backend (b ∷ bs) =
    let rest = pop player backend bs in if has_key player backend b then rest else b ∷ rest

-- `voice_bridges[player_id, backend] = bridge`
unfoldable pub put : Bridge → List Bridge → List Bridge
put bridge [] = bridge ∷ []
put bridge (b ∷ bs) =
    let rest = put bridge bs in
    if has_key bridge.player bridge.backend b then bridge ∷ bs else b ∷ rest

-- `transport.close()` of a bridge that is connected.
abbrev pub close_transport : Bridge → List ℕ → List ℕ
close_transport b closed = if b.connected then b.transport ∷ closed else closed

unfoldable pub close_voice_bridge : ℕ → ℕ → Voice → Voice
unfolding find pop
close_voice_bridge player backend s = elim (find player backend s.bridges) [
  | none ↦ s
  | some b ↦ record s {
    bridges = pop player backend s.bridges;
    closed = close_transport b s.closed;
  }
]

abbrev pub is_other : Option ℕ → ℕ → Bool
is_other none backend = true
is_other (some keep) backend = not (backend == keep)

-- The loop over a copy of the dict that closes the bridges with a test.
unfoldable pub close_where : (Bridge → Bool) → List Bridge → Voice → Voice
unfolding close_voice_bridge
close_where test [] s = s
close_where test (b ∷ bs) s =
    close_where test bs (if test b then close_voice_bridge b.player b.backend s else s)

abbrev pub is_doomed : ℕ → Option ℕ → Bridge → Bool
is_doomed player keep b = (b.player == player) && is_other keep b.backend

unfoldable pub close_player_voice_bridges : ℕ → Option ℕ → Voice → Voice
unfolding close_where
close_player_voice_bridges player keep s = close_where (is_doomed player keep) s.bridges s

unfoldable pub close_all_voice_bridges : Voice → Voice
unfolding close_where
close_all_voice_bridges s = close_where (λ b. true) s.bridges s

-- Whether a bridge is idle at `now`, where a second has `second` units.
abbrev pub is_idle : ℕ → ℕ → Bridge → Bool
is_idle second now b = leb (60 * second) (now - b.last_activity)

-- A round of `_cleanup_voice_bridges`.
unfoldable pub cleanup_voice_bridges : ℕ → ℕ → Voice → Voice
unfolding close_where
cleanup_voice_bridges second now s = close_where (is_idle second now) s.bridges s

-- `VoiceBridge.forward` and `VoiceBridge.datagram_received` of the bridge with a transport note the
-- time.
unfoldable pub touch : ℕ → ℕ → List Bridge → List Bridge
touch transport now [] = []
touch transport now (b ∷ bs) =
    (if b.transport == transport then record b { last_activity = now } else b)
    ∷ touch transport now bs

-- `VoiceBridge.connection_lost` of the bridge with a transport.
unfoldable pub mark_lost : ℕ → List Bridge → List Bridge
mark_lost transport [] = []
mark_lost transport (b ∷ bs) =
    (if b.transport == transport then record b { connected = false } else b)
    ∷ mark_lost transport bs

unfoldable pub connection_lost : ℕ → Voice → Voice
unfolding mark_lost
connection_lost transport s = record s {
  bridges = mark_lost transport s.bridges;
  closed = transport ∷ s.closed;
}

-- A session starts, and one ends: `_track_player_session` with the bridges.
unfoldable pub start_session : ℕ → ℕ → Session → Voice → Voice
unfolding track
start_session player id session s = record s { sessions = track player id session s.sessions }

unfoldable pub end_session : ℕ → ℕ → Voice → Voice
unfolding untrack close_player_voice_bridges
end_session player id s = elim (untrack player id s.sessions) [
  | not_tracked ↦ s
  | last_one sessions ↦ close_player_voice_bridges player none (record s { sessions = sessions })
  | remaining sessions session ↦
      close_player_voice_bridges player (some session.backend) (record s { sessions = sessions })
]

-- What `_get_or_create_voice_bridge` does up to the `await` of a new endpoint.
pub data Routing : Type 0 where
  dropped : Routing
  bridged : Bridge → Routing
  creates : ℕ → Voice → Routing

-- Whether a bridge serves an address.
abbrev pub serves : Addr → Bridge → Bool
serves addr b = b.connected && same_addr b.client_addr addr

-- Of the backends: the port of the voice server, and whether the server process runs.
abbrev pub has_voice : (ℕ → Option ℕ) → (ℕ → Bool) → ℕ → Bool
has_voice voice_port running backend = elim (voice_port backend) [
  | none ↦ false
  | some port ↦ running backend
]

module _ (voice_port : ℕ → Option ℕ) (running : ℕ → Bool) (voice_ip_binding : Bool) where
  unfoldable pub begin_bridge : ℕ → Addr → Voice → Routing
  unfolding find selected
  begin_bridge player addr s = elim (selected player s.sessions) [
    | none ↦ dropped
    | some session ↦
        if voice_ip_binding && not (addr.host == session.client_ip)
        then dropped
        else if not (has_voice voice_port running session.backend)
        then dropped
        else elim (find player session.backend s.bridges) [
          | none ↦ creates session.backend s
          | some b ↦
              if serves addr b
              then bridged b
              else creates session.backend (record s { closed = close_transport b s.closed })
        ]
  ]

-- A bridge as `VoiceBridge.__init__` and `connection_made` leave it.
abbrev pub new_bridge : ℕ → ℕ → Addr → ℕ → ℕ → Bridge
new_bridge player backend addr transport now = record {
  player = player;
  backend = backend;
  client_addr = addr;
  transport = transport;
  connected = true;
  last_activity = now;
}

-- What it does behind that `await`.
unfoldable pub finish_bridge : ℕ → ℕ → Addr → ℕ → Voice → Bridge × Voice
unfolding put
finish_bridge player backend addr now s =
    let bridge = new_bridge player backend addr s.next_transport now in
    (bridge, record s { bridges = put bridge s.bridges; next_transport = suc s.next_transport })
