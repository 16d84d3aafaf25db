-- ===== src/Proxy/Bridges/Packets.antt =====
-- What `_get_or_create_voice_bridge` makes of a voice packet.
use silkjam.Prelude.{
  ℕ, ◌≡◌, refl, sym, subst, Bool, true, false, not, ◌&&◌, ◌||◌, Option, none, some, List, [], ◌∷◌,
  ◌==◌, if◌then◌else◌, arith, inl, inr, Bool-cases, Option-cases,
}
use silkjam.Prelude.Sets.{mem}
use silkjam.Proxy.Sessions.{Session, selected}
use silkjam.Proxy.Bridges.{
  Addr, Bridge, Voice, has_key, find, close_transport, serves, has_voice, Routing, dropped, bridged,
  creates, begin_bridge,
}

pub find-key :
    (player backend : ℕ) (bs : List Bridge) (b : Bridge)
    → find player backend bs ≡ some b
    → (b.player ≡ player) × (b.backend ≡ backend)
unfolding find
find-key player backend [] b e = absurd (ground arith)
find-key player backend (c ∷ bs) b e = elim (Bool-cases (has_key player backend c)) [
  | inl same ↦ (ground (arith, e, same), ground (arith, e, same))
  | inr other ↦ find-key player backend bs b (ground (arith, e, other))
]

-- The closed transports with that of a bridge, if there is one.
abbrev pub closed_for : Option Bridge → List ℕ → List ℕ
closed_for none closed = closed
closed_for (some b) closed = close_transport b closed

pub mem-closed_for :
    (t : ℕ) (o : Option Bridge) (closed : List ℕ)
    → mem t closed ≡ true
    → mem t (closed_for o closed) ≡ true
unfolding mem
mem-closed_for t none closed h = h
mem-closed_for t (some b) closed h = ground (arith, h)

pub closed_for_lem :
    (o : Option Bridge) (closed : List ℕ) (b : Bridge)
    → o ≡ some b
    → b.connected ≡ true
    → mem b.transport (closed_for o closed) ≡ true
unfolding mem
closed_for_lem o closed b e h = rw (e) (ground (arith, h))

module _ (voice_port : ℕ → Option ℕ) (running : ℕ → Bool) (voice_ip_binding : Bool) where
  -- A packet from an address may reach the backend of a session.
  abbrev pub may_reach : Addr → Session → Bool
  may_reach addr session =
      (not voice_ip_binding || (addr.host == session.client_ip))
      && has_voice voice_port running session.backend

  pub record Reaches (player : ℕ) (addr : Addr) (s : Voice) (backend : ℕ) : Type 0 where
    pub session : Session
    pub is_selected : selected player s.sessions ≡ some session
    pub leads : session.backend ≡ backend
    pub may : may_reach addr session ≡ true

  abbrev pub may_speak : ℕ → Addr → Voice → Bool
  may_speak player addr s = elim (selected player s.sessions) [
    | none ↦ false
    | some session ↦ may_reach addr session
  ]

  -- The bridge in the place of the new one is closed, if it is connected, and nothing else changes.
  abbrev pub Makes : ℕ → ℕ → Voice → Voice → Type 0
  Makes player backend s s' =
      s' ≡ record s { closed = closed_for (find player backend s.bridges) s.closed }

  abbrev pub Rightly : ℕ → Addr → Voice → Routing → Type 0
  Rightly player addr s dropped = may_speak player addr s ≡ false
  Rightly player addr s (bridged b) =
      Reaches player addr s b.backend × ((b.player ≡ player) × (serves addr b ≡ true))
  Rightly player addr s (creates backend s') =
      Reaches player addr s backend × Makes player backend s s'

  untracked-may_speak :
      (player : ℕ) (addr : Addr) (s : Voice)
      → selected player s.sessions ≡ none
      → may_speak player addr s ≡ false
  untracked-may_speak player addr s e = rw (may_speak, e) refl

  refused-may_speak :
      (player : ℕ) (addr : Addr) (s : Voice) (session : Session)
      → selected player s.sessions ≡ some session
      → may_reach addr session ≡ false
      → may_speak player addr s ≡ false
  refused-may_speak player addr s session e h = rw (may_speak, e) h

  reached-Rightly :
      (player : ℕ) (addr : Addr) (s : Voice) (session : Session)
      → Reaches player addr s session.backend
      → Rightly player addr s (elim (find player session.backend s.bridges) [
        | none ↦ creates session.backend s
        | some b ↦
            if serves addr b
            then bridged b
            else creates session.backend (record s { closed = close_transport b s.closed })
      ])
  reached-Rightly player addr s session r =
      elim (Option-cases (find player session.backend s.bridges)) [
        | inl absent ↦ rw (absent) (r, rw (absent) refl)
        | inr (b, e) ↦ elim (Bool-cases (serves addr b)) [
          | inl same ↦
              let key = find-key player session.backend s.bridges b e in
              rw (e, same) (subst (Reaches player addr s) (sym key.1) r, (key.0, same))
          | inr other ↦ rw (e, other) (r, rw (e) refl)
        ]
      ]

  -- A voice packet is dropped exactly if the player has no session or its oldest session does not
  -- allow it: the address must be that of the session where the binding is on, and the backend must
  -- run with a voice port. Otherwise it goes to the bridge of the player and this backend that is
  -- connected for the address, or a new bridge to this backend is made; then a connected bridge in
  -- its place is closed first, and sessions and bridges stay.
  pub begin_bridge_lem :
      (player : ℕ) (addr : Addr) (s : Voice)
      → Rightly player addr s (begin_bridge voice_port running voice_ip_binding player addr s)
  unfolding begin_bridge
  begin_bridge_lem player addr s = elim (Option-cases (selected player s.sessions)) [
    | inl untracked ↦ rw (begin_bridge, untracked) (untracked-may_speak player addr s untracked)
    | inr (session, e) ↦
        elim (Bool-cases (voice_ip_binding && not (addr.host == session.client_ip))) [
          | inl foreign ↦
              rw (begin_bridge, e, foreign)
                (refused-may_speak player addr s session e (ground (arith, foreign)))
          | inr own ↦ elim (Bool-cases (has_voice voice_port running session.backend)) [
            | inr silent ↦
                rw (begin_bridge, e, own, silent)
                  (refused-may_speak player addr s session e (ground (arith, silent)))
            | inl active ↦
                rw (begin_bridge, e, own, active)
                  (reached-Rightly player addr s session (record {
                    session = session;
                    is_selected = e;
                    leads = refl;
                    may = ground (arith, own, active);
                  }))
          ]
        ]
  ]

  -- What a new bridge makes of the state that it is opened in.
  pub opening :
      (player : ℕ) (addr : Addr) (s s' : Voice) (backend : ℕ)
      → begin_bridge voice_port running voice_ip_binding player addr s ≡ creates backend s'
      → Reaches player addr s backend × Makes player backend s s'
  opening player addr s s' backend e =
      subst (Rightly player addr s) e (begin_bridge_lem player addr s)
