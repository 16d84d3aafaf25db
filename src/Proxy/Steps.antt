-- ===== src/Proxy/Steps.antt =====
-- The steps of the tasks of a proxy that share `player_sessions` and `voice_bridges`. A task runs
-- alone up to its next `await`.
pub mod Routes
pub mod Transports
use silkjam.Prelude.{ℕ, ◌≡◌, Bool, Option, none, some, []}
use silkjam.Proxy.Sessions.{Session}
use silkjam.Proxy.Sessions.Oldest.{Past}
use silkjam.Proxy.Bridges.{
  Addr, Voice, begin_bridge, Routing, creates, finish_bridge, start_session, end_session, touch,
  cleanup_voice_bridges, close_all_voice_bridges, connection_lost,
}

-- The endpoint that `_get_or_create_voice_bridge` awaits.
pub record Pending : Type 0 where
  pub player : ℕ
  pub backend : ℕ
  pub addr : Addr
  pub now : ℕ

abbrev pub finish : Pending → Voice → Voice
finish p s = (finish_bridge p.player p.backend p.addr p.now s).1

-- A session starts no earlier than those of its player that are tracked. One task handles the voice
-- packets, so that it awaits one endpoint at a time, which may fail; so does the assertion before it,
-- while the listener is down.
pub data Step : Option Pending → Voice → Option Pending → Voice → Type 0 where
  starts :
      {p : Option Pending} {s : Voice} (player id : ℕ) (session : Session)
      → Past player session.time s.sessions
      → Step p s p (start_session player id session s)
  ends : {p : Option Pending} {s : Voice} (player id : ℕ) → Step p s p (end_session player id s)
  cleans :
      {p : Option Pending} {s : Voice} (second now : ℕ)
      → Step p s p (cleanup_voice_bridges second now s)
  closes_all : {p : Option Pending} {s : Voice} → Step p s p (close_all_voice_bridges s)
  loses :
      {p : Option Pending} {s : Voice} (transport : ℕ) → Step p s p (connection_lost transport s)
  touches :
      {p : Option Pending} {s : Voice} (transport now : ℕ)
      → Step p s p (record s { bridges = touch transport now s.bridges })
  opens :
      {s s' : Voice} (voice_port : ℕ → Option ℕ) (running : ℕ → Bool) (voice_ip_binding : Bool)
      (p : Pending)
      → begin_bridge voice_port running voice_ip_binding p.player p.addr s ≡ creates p.backend s'
      → Step none s (some p) s'
  finishes : {s : Voice} (p : Pending) → Step (some p) s none (finish p s)
  fails : {s : Voice} (p : Pending) → Step (some p) s none s

abbrev pub empty : Voice
empty = record { sessions = []; bridges = []; closed = []; next_transport = 0 }

pub data Run : Option Pending → Voice → Type 0 where
  begin : Run none empty
  next : {p q : Option Pending} {s t : Voice} → Run p s → Step p s q t → Run q t
