-- ===== src/Proxy/Steps/Routes.antt =====
-- Where the voice bridges of a proxy lead, as sessions come and go.
use native.Mathlib.Decide.{ℕ_discrete}
use silkjam.Prelude.{
  ℕ, ◌≡◌, refl, sym, subst, ◌∙◌, ap, Bool, true, false, Option, none, some, ◌∷◌, arith, All,
  All-imp,
}
use silkjam.Proxy.Sessions.{
  Session, Sessions, Untracked, not_tracked, last_one, remaining, track, untrack,
}
use silkjam.Proxy.Sessions.Oldest.{backend_at, Past, backend_at-track, Untracks, untrack_lem}
use silkjam.Proxy.Bridges.{
  Bridge, Voice, is_doomed, is_idle, close_player_voice_bridges, close_all_voice_bridges,
  cleanup_voice_bridges, connection_lost, start_session, end_session, finish_bridge, new_bridge,
}
use silkjam.Proxy.Bridges.Keys.{Unique, Unique-put, All-put}
use silkjam.Proxy.Bridges.Filter.{
  filtered, kept, close_where_lem, All-kept, All-kept_left, Unique-kept,
}
use silkjam.Proxy.Bridges.Marks.{
  revised, KeepsKey, touch_lem, mark_lost_lem, All-revised, Unique-revised,
}
use silkjam.Proxy.Bridges.Packets.{opening}
use silkjam.Proxy.Steps.{
  Pending, finish, Step, starts, ends, cleans, closes_all, loses, touches, opens, finishes, fails,
  Run, begin, next,
}

-- A bridge leads to the backend of the oldest session of its player.
abbrev pub Leads : Sessions → Bridge → Type 0
Leads sessions b = backend_at b.player sessions ≡ some b.backend

pub record IsRouted (s : Voice) : Type 0 where
  pub unique : Unique s.bridges
  pub leads : All (Leads s.sessions) s.bridges

filtered-IsRouted : (test : Bridge → Bool) (s : Voice) → IsRouted s → IsRouted (filtered test s)
filtered-IsRouted test s r = record {
  unique = Unique-kept test s.bridges r.unique;
  leads = All-kept_left (Leads s.sessions) test s.bridges r.leads;
}

pub close_player_voice_bridges-filter :
    (player : ℕ) (keep : Option ℕ) (s : Voice)
    → Unique s.bridges
    → close_player_voice_bridges player keep s ≡ filtered (is_doomed player keep) s
unfolding close_player_voice_bridges
close_player_voice_bridges-filter player keep s u = close_where_lem (is_doomed player keep) s u

start_session-IsRouted :
    (player id : ℕ) (session : Session) (s : Voice)
    → Past player session.time s.sessions
    → IsRouted s
    → IsRouted (start_session player id session s)
unfolding start_session
start_session-IsRouted player id session s past r = record {
  unique = r.unique;
  leads =
      All-imp (Leads s.sessions) (Leads (track player id session s.sessions)) s.bridges
        (λ b h. backend_at-track b.player b.backend player id session s.sessions past h) r.leads;
}

-- The sessions of a player change, and with them the bridges of the player.
changed-IsRouted :
    (player : ℕ) (keep : Option ℕ) (sessions : Sessions) (s : Voice)
    → IsRouted s
    → ((b : Bridge) → Leads s.sessions b → is_doomed player keep b ≡ false → Leads sessions b)
    → IsRouted (close_player_voice_bridges player keep (record s { sessions = sessions }))
changed-IsRouted player keep sessions s r f =
    let test = is_doomed player keep in
    subst IsRouted
      (sym
        (close_player_voice_bridges-filter player keep (record s { sessions = sessions }) r.unique))
      (record {
        unique = Unique-kept test s.bridges r.unique;
        leads =
            All-imp (λ (b : Bridge). Leads s.sessions b × (test b ≡ false)) (Leads sessions)
              (kept test s.bridges) (λ b k. f b k.0 k.1)
              (All-kept (Leads s.sessions) test s.bridges r.leads);
      })

-- What `end_session` makes of what it finds.
abbrev ended : ℕ → Voice → Untracked → Voice
ended player s not_tracked = s
ended player s (last_one sessions) =
    close_player_voice_bridges player none (record s { sessions = sessions })
ended player s (remaining sessions session) =
    close_player_voice_bridges player (some session.backend) (record s { sessions = sessions })

ended-IsRouted :
    (player : ℕ) (s : Voice) (u : Untracked)
    → Untracks player s.sessions u
    → IsRouted s
    → IsRouted (ended player s u)
ended-IsRouted player s not_tracked h r = r
ended-IsRouted player s (last_one sessions) h r =
    changed-IsRouted player none sessions s r
      (λ b leads spared. h b.player (λ e. absurd (ground (arith, spared, e))) ∙ leads)
ended-IsRouted player s (remaining sessions session) h r =
    changed-IsRouted player (some session.backend) sessions s r (λ b leads spared.
      elim (ℕ_discrete b.player player) [
        | no other ↦ h.0 b.player other ∙ leads
        | yes same ↦
            subst (λ q. backend_at q sessions ≡ some b.backend) (sym same)
              (h.1 ∙ ap some (ground (arith, spared, same)))
      ])

end_session-IsRouted : (player id : ℕ) (s : Voice) → IsRouted s → IsRouted (end_session player id s)
unfolding end_session
end_session-IsRouted player id s r =
    ended-IsRouted player s (untrack player id s.sessions) (untrack_lem player id s.sessions) r

revised-IsRouted :
    (change : Bridge → Bridge) (transport : ℕ) (s : Voice)
    → KeepsKey change
    → IsRouted s
    → IsRouted (record s { bridges = revised change transport s.bridges })
revised-IsRouted change transport s keeps r = record {
  unique = Unique-revised change transport s.bridges keeps r.unique;
  leads =
      All-revised change transport (Leads s.sessions) s.bridges
        (λ b h. rw ((keeps b).0, (keeps b).1) h) r.leads;
}

-- Opening a bridge leaves the sessions and the bridges as they are.
same-IsRouted :
    (s s' : Voice) → s'.sessions ≡ s.sessions → s'.bridges ≡ s.bridges → IsRouted s → IsRouted s'
same-IsRouted s s' e e' r = record {
  unique = subst Unique (sym e') r.unique;
  leads =
      subst (λ ss. All (Leads ss) s'.bridges) (sym e)
        (subst (All (Leads s.sessions)) (sym e') r.leads);
}

-- An awaited endpoint comes for a player whose sessions lead to the backend still.
abbrev pub InTime : {p q : Option Pending} {s t : Voice} → Step p s q t → Type 0
InTime {s = s} (finishes p) = backend_at p.player s.sessions ≡ some p.backend
InTime _ = Unit

finish-IsRouted :
    (p : Pending) (s : Voice)
    → backend_at p.player s.sessions ≡ some p.backend
    → IsRouted s
    → IsRouted (finish p s)
unfolding finish_bridge
finish-IsRouted p s e r =
    let b = new_bridge p.player p.backend p.addr s.next_transport p.now in
    record {
      unique = Unique-put b s.bridges r.unique;
      leads = All-put (Leads s.sessions) b s.bridges e r.leads;
    }

Step-IsRouted :
    {p q : Option Pending} {s t : Voice} (step : Step p s q t)
    → InTime step
    → IsRouted s
    → IsRouted t
unfolding cleanup_voice_bridges close_all_voice_bridges connection_lost
Step-IsRouted {s = s} (starts player id session past) i r =
    start_session-IsRouted player id session s past r
Step-IsRouted {s = s} (ends player id) i r = end_session-IsRouted player id s r
Step-IsRouted {s = s} (cleans second now) i r =
    subst IsRouted (sym (close_where_lem (is_idle second now) s r.unique))
      (filtered-IsRouted (is_idle second now) s r)
Step-IsRouted {s = s} closes_all i r =
    subst IsRouted (sym (close_where_lem (λ b. true) s r.unique))
      (filtered-IsRouted (λ b. true) s r)
Step-IsRouted {s = s} (loses transport) i r =
    let s' = record s { closed = transport ∷ s.closed } in
    subst (λ bs. IsRouted (record s' { bridges = bs })) (sym (mark_lost_lem transport s.bridges))
      (revised-IsRouted (λ b. record b { connected = false }) transport s' (λ b. (refl, refl))
        (record { unique = r.unique; leads = r.leads }))
Step-IsRouted {s = s} (touches transport now) i r =
    subst (λ bs. IsRouted (record s { bridges = bs })) (sym (touch_lem transport now s.bridges))
      (revised-IsRouted (λ b. record b { last_activity = now }) transport s (λ b. (refl, refl)) r)
Step-IsRouted {s = s} {t = t} (opens voice_port running binding p e) i r =
    let made = (opening voice_port running binding p.player p.addr s t p.backend e).1 in
    same-IsRouted s t (ap (λ (v : Voice). v.sessions) made) (ap (λ (v : Voice). v.bridges) made) r
Step-IsRouted {s = s} (finishes p) i r = finish-IsRouted p s i r
Step-IsRouted (fails p) i r = r

-- The runs whose awaited endpoints come in time.
abbrev pub IsInTime : {p : Option Pending} {s : Voice} → Run p s → Type 0
IsInTime begin = Unit
IsInTime (next run step) = IsInTime run × InTime step

-- In every run of a proxy in which each awaited endpoint comes while the oldest session of its
-- player leads to its backend, no key stands twice among the voice bridges, and every bridge leads
-- to the backend of the oldest session of its player; so a player without a session has no bridge.
pub Run-IsRouted : {p : Option Pending} {s : Voice} (run : Run p s) → IsInTime run → IsRouted s
Run-IsRouted begin i = record { unique = tt; leads = tt }
Run-IsRouted (next run step) i = Step-IsRouted step i.1 (Run-IsRouted run i.0)
