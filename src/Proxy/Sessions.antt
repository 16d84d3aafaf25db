-- ===== src/Proxy/Sessions.antt =====
-- The sessions of the players that `_track_player_session` keeps in `player_sessions`.
pub mod Oldest
use silkjam.Prelude.{ℕ, Bool, true, false, Option, none, some, List, [], ◌∷◌, leb, if◌then◌else◌}
use silkjam.Prelude.Dict.{lookup, store, remove}

-- `(connection time, profile, backend, TCP peer IP)`; the profile is only logged.
pub record Session : Type 0 where
  pub time : ℕ
  pub backend : ℕ
  pub client_ip : ℕ

-- The sessions of one player by their ids, and those of all players.
abbrev pub Own : Type 0
Own = List (ℕ × Session)

abbrev pub Sessions : Type 0
Sessions = List (ℕ × Own)

-- `min(sessions.values(), key=lambda session: session[0])`, which takes the first of several.
unfoldable pub oldest : Own → Option Session
oldest [] = none
oldest ((id, s) ∷ rest) = elim (oldest rest) [
  | none ↦ some s
  | some s' ↦ some (if leb s.time s'.time then s else s')
]

-- The session that decides for a player, if the player is tracked.
unfoldable pub selected : ℕ → Sessions → Option Session
unfolding oldest
selected player sessions = elim (lookup player sessions) [ none ↦ none | some own ↦ oldest own ]

abbrev pub or_empty : Option Own → Own
or_empty none = []
or_empty (some own) = own

abbrev pub own_sessions : ℕ → Sessions → Own
own_sessions player sessions = or_empty (lookup player sessions)

-- The start of `_track_player_session`, with the `setdefault`.
unfoldable pub track : ℕ → ℕ → Session → Sessions → Sessions
track player id session sessions =
    let own = own_sessions player sessions in
    elim (lookup id own) [
      | some _ ↦ store player own sessions
      | none ↦ store player (store id session own) sessions
    ]

-- What the `finally` block finds: nothing to do, the last session of the player, or another
-- session that decides now. The sessions are those after it.
pub data Untracked : Type 0 where
  not_tracked : Untracked
  last_one : Sessions → Untracked
  remaining : Sessions → Session → Untracked

abbrev is_empty : Own → Bool
is_empty [] = true
is_empty (s ∷ ss) = false

unfoldable pub untrack : ℕ → ℕ → Sessions → Untracked
unfolding oldest
untrack player id sessions = elim (lookup player sessions) [
  | none ↦ not_tracked
  | some own ↦ elim (lookup id own) [
    | none ↦ not_tracked
    | some _ ↦ elim (oldest (remove id own)) [
      | none ↦ last_one (remove player sessions)
      | some session ↦ remaining (store player (remove id own) sessions) session
    ]
  ]
]
