-- ===== src/Proxy/Bridges/Chosen.antt =====
-- The session that decides for a voice packet, and the bridge that was put under a key.
use silkjam.Prelude.{
  ℕ, ◌≤◌, ◌≡◌, ◌⊎◌, refl, sym, subst, ap, ◌∙◌, none, some, List, [], ◌∷◌, if◌then◌else◌, arith, All,
  leb, inl, inr, Bool-cases, Option-cases,
}
use silkjam.Prelude.Dict.{lookup}
use silkjam.Proxy.Sessions.{Session, Own, oldest, selected, own_sessions, or_empty}
use silkjam.Proxy.Sessions.Oldest.{oldest_lem, oldest-none}
use silkjam.Proxy.Bridges.{Bridge, Voice, has_key, find, put}

-- A session is among those of a player.
abbrev pub In : Session → Own → Type 0
In session [] = ⊥
In session ((id, other) ∷ own) = (session ≡ other) ⊎ In session own

-- A session of a player, and none of the player is older.
pub record IsOldest (player : ℕ) (s : Voice) (session : Session) : Type 0 where
  pub own : In session (own_sessions player s.sessions)
  pub least : All (λ (e : ℕ × Session). session.time ≤ (e.1).time) (own_sessions player s.sessions)

oldest-In : (own : Own) (session : Session) → oldest own ≡ some session → In session own
unfolding oldest
oldest-In [] session h = absurd (ground arith)
oldest-In ((id, other) ∷ own) session h = elim (Option-cases (oldest own)) [
  | inl alone ↦ inl (ground (arith, alone, h))
  | inr (s, e) ↦ elim (Bool-cases (leb other.time s.time)) [
    | inl first ↦ inl (ground (arith, e, first, h))
    | inr later ↦ inr (oldest-In own session (ground (arith, e, later, h)))
  ]
]

pub selected-IsOldest :
    (player : ℕ) (s : Voice) (session : Session)
    → selected player s.sessions ≡ some session
    → IsOldest player s session
unfolding selected
selected-IsOldest player s session h = elim (Option-cases (lookup player s.sessions)) [
  | inl absent ↦ absurd (ground (arith, h, absent))
  | inr (own, e) ↦
      let chosen : oldest own ≡ some session = ground (arith, h, e) in
      let back : own ≡ own_sessions player s.sessions = sym (ap or_empty e) in
      record {
        own = subst (In session) back (oldest-In own session chosen);
        least =
            subst (All (λ (e : ℕ × Session). session.time ≤ (e.1).time)) back
              (oldest_lem own session chosen);
      }
]

pub untracked :
    (player : ℕ) (s : Voice)
    → selected player s.sessions ≡ none
    → own_sessions player s.sessions ≡ []
unfolding selected
untracked player s h = elim (Option-cases (lookup player s.sessions)) [
  | inl absent ↦ ap or_empty absent
  | inr (own, e) ↦ ap or_empty e ∙ oldest-none own (ground (arith, h, e))
]

pub find-put :
    (player backend : ℕ) (b : Bridge) (bs : List Bridge)
    → find player backend (put b bs)
      ≡ (if has_key player backend b then some b else find player backend bs)
unfolding find put
find-put player backend b [] = refl
find-put player backend b (c ∷ bs) = ground (arith, find-put player backend b bs)
