-- ===== src/Proxy/Bridges/Voices.antt =====
-- `_get_or_create_voice_bridge` as a whole, where nothing else happens at its `await`.
use silkjam.Prelude.{
  ℕ, ◌≡◌, ◌⊎◌, Bool, true, false, ◌&&◌, Option, none, some, List, [], ◌==◌, if◌then◌else◌,
}
use silkjam.Proxy.Sessions.{Session, own_sessions}
use silkjam.Proxy.Bridges.{
  Addr, Bridge, Voice, find, close_transport, serves, dropped, bridged, creates, begin_bridge,
  finish_bridge,
}
use silkjam.Proxy.Bridges.Packets.{may_reach}
use silkjam.Proxy.Bridges.Chosen.{IsOldest}

-- The closed transports with that of a connected bridge which serves another address.
abbrev pub closed_others : Addr → Option Bridge → List ℕ → List ℕ
closed_others addr none closed = closed
closed_others addr (some b) closed = if serves addr b then closed else close_transport b closed

module _ (voice_port : ℕ → Option ℕ) (running : ℕ → Bool) (voice_ip_binding : Bool) where
  unfoldable pub get_or_create_voice_bridge : ℕ → Addr → ℕ → Voice → Option Bridge × Voice
  unfolding begin_bridge finish_bridge
  get_or_create_voice_bridge player addr now s =
      elim (begin_bridge voice_port running voice_ip_binding player addr s) [
        | dropped ↦ (none, s)
        | bridged b ↦ (some b, s)
        | creates backend s' ↦
            let (b, s'') = finish_bridge player backend addr now s' in (some b, s'')
      ]

  -- What a packet that is not dropped gets: a bridge for its address, in the state `s'`, where the
  -- bridge with the key `(p, c)` is looked for.
  pub record IsServed (player : ℕ) (addr : Addr) (now later p c : ℕ) (s s' : Voice) (b : Bridge)
      : Type 0 where
    pub session : Session
    pub is_oldest : IsOldest player s session
    pub may : may_reach voice_port running voice_ip_binding addr session ≡ true
    pub leads : (b.player ≡ player) × (b.backend ≡ session.backend)
    pub serving : serves addr b ≡ true
    pub found :
        find p c s'.bridges
        ≡ (if (p == player) && (c == session.backend) then some b else find p c s.bridges)
    pub closes : s'.closed ≡ closed_others addr (find player session.backend s.bridges) s.closed
    pub sessions : s'.sessions ≡ s.sessions
    pub same_again : get_or_create_voice_bridge player addr later s' ≡ (some b, s')

  -- No session of the player, or an oldest one that does not allow the packet.
  abbrev pub IsBarred : ℕ → Addr → Voice → Type 0
  IsBarred player addr s =
      (own_sessions player s.sessions ≡ [])
      ⊎ ((session : Session) × IsOldest player s session
          × (may_reach voice_port running voice_ip_binding addr session ≡ false))

  abbrev pub Handles : ℕ → Addr → ℕ → ℕ → ℕ → ℕ → Voice → Option Bridge × Voice → Type 0
  Handles player addr now later p c s (none, s') = (s' ≡ s) × IsBarred player addr s
  Handles player addr now later p c s (some b, s') = IsServed player addr now later p c s s' b
