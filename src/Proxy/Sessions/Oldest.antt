-- ===== src/Proxy/Sessions/Oldest.antt =====
-- The session that decides for a player, as sessions come and go.
use silkjam.Prelude.{
  ℕ, ◌≤◌, ◌≡◌, ◌≢◌, refl, sym, subst, All-imp, Option, none, some, [], ◌∷◌, leb, if◌then◌else◌,
  arith, All, inl, inr, Option-cases,
}
use native.Mathlib.Decide.{ℕ_discrete}
use silkjam.Prelude.Dict.{
  lookup, store, remove, lookup-store, lookup-store_other, lookup-remove_other,
}
use silkjam.Proxy.Sessions.{
  Session, Own, Sessions, oldest, selected, own_sessions, or_empty, track, Untracked, not_tracked,
  last_one, remaining, untrack,
}

-- The one of two sessions that is not younger, the first where they are as old.
abbrev pub older : Session → Session → Session
older s t = if leb s.time t.time then s else t

oldest-store :
    (id : ℕ) (s : Session) (own : Own)
    → lookup id own ≡ none
    → oldest (store id s own) ≡ some (elim (oldest own) [ none ↦ s | some s' ↦ older s' s ])
unfolding oldest store lookup
oldest-store id s [] h = refl
oldest-store id s ((i, a) ∷ own) h = ground (arith, oldest-store id s own)

pub oldest-none : (own : Own) → oldest own ≡ none → own ≡ []
unfolding oldest
oldest-none [] h = refl
oldest-none ((i, a) ∷ own) h = absurd (ground arith)

-- No session is older than the oldest.
pub oldest_lem :
    (own : Own) (s : Session)
    → oldest own ≡ some s
    → All (λ (e : ℕ × Session). s.time ≤ (e.1).time) own
unfolding oldest
oldest_lem [] s h = tt
oldest_lem ((i, a) ∷ own) s h = elim (Option-cases (oldest own)) [
  | inl alone ↦ (
    ground (arith, alone, h),
    subst (All (λ (e : ℕ × Session). s.time ≤ (e.1).time)) (sym (oldest-none own alone)) tt,
  )
  | inr (s', e) ↦ (
    ground (arith, e, h),
    All-imp (λ (e : ℕ × Session). s'.time ≤ (e.1).time) (λ (e : ℕ × Session). s.time ≤ (e.1).time)
        own (λ x le. ground (arith, e, h, le)) (oldest_lem own s' e),
  )
]

oldest-le :
    (own : Own) (s : Session) (now : ℕ)
    → All (λ (e : ℕ × Session). (e.1).time ≤ now) own
    → oldest own ≡ some s
    → s.time ≤ now
unfolding oldest
oldest-le [] s now a h = absurd (ground arith)
oldest-le ((i, b) ∷ own) s now a h = elim (Option-cases (oldest own)) [
  | inl alone ↦ ground (arith, alone, a.0)
  | inr (s', e) ↦ ground (arith, e, oldest-le own s' now a.1 e)
]

unfoldable pub backend_of : Option Session → Option ℕ
backend_of none = none
backend_of (some s) = some s.backend

-- The backend that the oldest session of a player leads to.
abbrev pub backend_at : ℕ → Sessions → Option ℕ
backend_at player sessions = backend_of (selected player sessions)

-- The sessions of a player are not younger than `now`.
abbrev pub Past : ℕ → ℕ → Sessions → Type 0
Past player now sessions =
    All (λ (e : ℕ × Session). (e.1).time ≤ now) (own_sessions player sessions)

pub backend_at-track :
    (q b player id : ℕ) (session : Session) (sessions : Sessions)
    → Past player session.time sessions
    → backend_at q sessions ≡ some b
    → backend_at q (track player id session sessions) ≡ some b
unfolding track selected backend_of
backend_at-track q b player id session sessions past h = elim (ℕ_discrete q player) [
  | no other ↦ ground (
    arith,
    h,
    lookup-store_other q player (own_sessions player sessions) sessions other,
    lookup-store_other q player (store id session (own_sessions player sessions)) sessions other,
  )
  | yes same ↦ elim (Option-cases (lookup player sessions)) [
    | inl absent ↦ absurd (ground (arith, h, same, absent))
    | inr (own, e) ↦ elim (Option-cases (oldest own)) [
      | inl nothing ↦ absurd (ground (arith, h, same, e, nothing))
      | inr (s, e') ↦
          let le : s.time ≤ session.time =
            oldest-le own s session.time
              (subst
                (λ (o : Option Own).
                  All (λ (x : ℕ × Session). (x.1).time ≤ session.time) (or_empty o))
                e past)
              e' in
          ground (
            arith,
            h,
            e,
            e',
            le,
            lookup-store player own sessions,
            lookup-store player (store id session own) sessions,
            oldest-store id session own,
          )
    ]
  ]
]

-- What the end of a session of a player does to the backends that the players lead to.
abbrev pub Untracks : ℕ → Sessions → Untracked → Type 0
Untracks player sessions not_tracked = Unit
Untracks player sessions (last_one sessions') =
    (q : ℕ) → q ≢ player → backend_at q sessions' ≡ backend_at q sessions
Untracks player sessions (remaining sessions' session) =
    ((q : ℕ) → q ≢ player → backend_at q sessions' ≡ backend_at q sessions)
    × (backend_at player sessions' ≡ some session.backend)

backend_at-same :
    (q : ℕ) (sessions sessions' : Sessions)
    → lookup q sessions' ≡ lookup q sessions
    → backend_at q sessions' ≡ backend_at q sessions
unfolding selected
backend_at-same q sessions sessions' e = rw (selected, e) refl

backend_at-store :
    (player : ℕ) (own : Own) (s : Session) (sessions : Sessions)
    → oldest own ≡ some s
    → backend_at player (store player own sessions) ≡ some s.backend
unfolding selected backend_of
backend_at-store player own s sessions e = ground (arith, e, lookup-store player own sessions)

pub untrack_lem :
    (player id : ℕ) (sessions : Sessions) → Untracks player sessions (untrack player id sessions)
unfolding untrack
untrack_lem player id sessions = elim (Option-cases (lookup player sessions)) [
  | inl absent ↦ rw (untrack, absent) tt
  | inr (own, e) ↦ elim (Option-cases (lookup id own)) [
    | inl absent ↦ rw (untrack, e, absent) tt
    | inr (s, e') ↦ elim (Option-cases (oldest (remove id own))) [
      | inl nothing ↦
          rw (untrack, e, e', nothing)
            λ q other.
              backend_at-same q sessions (remove player sessions)
                (lookup-remove_other q player sessions other)
      | inr (s', e'') ↦
          let sessions' = store player (remove id own) sessions in
          rw (untrack, e, e', e'')
            (
              λ q other.
                  backend_at-same q sessions sessions'
                    (lookup-store_other q player (remove id own) sessions other),
              backend_at-store player (remove id own) s' sessions e'',
            )
    ]
  ]
]
