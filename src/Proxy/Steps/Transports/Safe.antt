-- ===== src/Proxy/Steps/Transports/Safe.antt =====
-- No step of a proxy loses an open transport.
use silkjam.Prelude.{
  ℕ, suc, ◌<◌, ◌≡◌, ◌≢◌, refl, sym, subst, Bool, true, false, Option, none, some, List, [], ◌∷◌,
  arith, All, All-imp,
}
use native.Mathlib.Decide.{ℕ_discrete}
use silkjam.Prelude.Sets.{mem}
use silkjam.Proxy.Sessions.{Sessions, not_tracked, last_one, remaining, untrack}
use silkjam.Proxy.Bridges.{
  find, Bridge, Voice, is_idle, is_doomed, close_where, close_player_voice_bridges,
  close_all_voice_bridges, put, cleanup_voice_bridges, touch, connection_lost, start_session,
  end_session, finish_bridge, new_bridge,
}
use silkjam.Proxy.Bridges.Keys.{Unique, Unique-put}
use silkjam.Proxy.Bridges.Filter.{
  kept, closing, filtered, close_where_lem, All-kept_left, Unique-kept,
}
use silkjam.Proxy.Bridges.Marks.{revised, touch_lem, mark_lost_lem, All-revised, Unique-revised}
use silkjam.Proxy.Bridges.Packets.{closed_for, mem-closed_for, closed_for_lem, opening, Makes}
use silkjam.Proxy.Steps.{
  Pending, finish, Step, starts, ends, cleans, closes_all, loses, touches, opens, finishes, fails,
  Run, begin, next,
}
use silkjam.Proxy.Steps.Transports.{
  held, accounted, Replaced, mem-closing, accounted-kept, accounted-mark_lost, held-touch,
  accounted-put, held-put, All-Replaced,
}

-- While an endpoint is awaited, the bridge in its place has no open transport.
abbrev pub Waits : Option Pending → List ℕ → List Bridge → Type 0
Waits none closed bs = Unit
Waits (some p) closed bs = All (Replaced p.player p.backend closed) bs

pub record IsSafe (p : Option Pending) (s : Voice) : Type 0 where
  pub unique : Unique s.bridges
  pub accounts : (t : ℕ) → t < s.next_transport → accounted t s.closed s.bridges ≡ true
  pub waits : Waits p s.closed s.bridges

Waits-imp :
    (p : Option Pending) (closed closed' : List ℕ) (bs : List Bridge)
    → ((t : ℕ) → mem t closed ≡ true → mem t closed' ≡ true)
    → Waits p closed bs
    → Waits p closed' bs
Waits-imp none closed closed' bs f w = tt
Waits-imp (some p) closed closed' bs f w =
    All-imp (Replaced p.player p.backend closed) (Replaced p.player p.backend closed') bs
      (λ b r h c. f b.transport (r h c)) w

Waits-kept :
    (p : Option Pending) (test : Bridge → Bool) (closed : List ℕ) (bs : List Bridge)
    → Waits p closed bs
    → Waits p closed (kept test bs)
Waits-kept none test closed bs w = tt
Waits-kept (some p) test closed bs w = All-kept_left (Replaced p.player p.backend closed) test bs w

filtered-IsSafe :
    (p : Option Pending) (test : Bridge → Bool) (sessions : Sessions) (s : Voice)
    → IsSafe p s
    → IsSafe p (filtered test (record s { sessions = sessions }))
filtered-IsSafe p test sessions s i = record {
  unique = Unique-kept test s.bridges i.unique;
  accounts = λ t le. accounted-kept t test s.bridges s.closed (i.accounts t le);
  waits =
      Waits-imp p s.closed (closing test s.bridges s.closed) (kept test s.bridges)
        (λ t. mem-closing t test s.bridges s.closed) (Waits-kept p test s.closed s.bridges i.waits);
}

close_where-IsSafe :
    (p : Option Pending) (test : Bridge → Bool) (sessions : Sessions) (s : Voice)
    → IsSafe p s
    → IsSafe p (close_where test s.bridges (record s { sessions = sessions }))
close_where-IsSafe p test sessions s i =
    subst (IsSafe p) (sym (close_where_lem test (record s { sessions = sessions }) i.unique))
      (filtered-IsSafe p test sessions s i)

end_session-IsSafe :
    (p : Option Pending) (player id : ℕ) (s : Voice)
    → IsSafe p s
    → IsSafe p (end_session player id s)
unfolding end_session close_player_voice_bridges
end_session-IsSafe p player id s i =
    elim (untrack player id s.sessions)
      as (λ u. IsSafe p (elim u [
        | not_tracked ↦ s
        | last_one sessions ↦
            close_player_voice_bridges player none (record s { sessions = sessions })
        | remaining sessions session ↦
            close_player_voice_bridges player (some session.backend)
              (record s { sessions = sessions })
      ])) [
        | not_tracked ↦ i
        | last_one sessions ↦ close_where-IsSafe p (is_doomed player none) sessions s i
        | remaining sessions session ↦
            close_where-IsSafe p (is_doomed player (some session.backend)) sessions s i
      ]

Waits-revised :
    (p : Option Pending) (change : Bridge → Bridge) (transport : ℕ) (closed : List ℕ)
    (bs : List Bridge)
    → ((player backend : ℕ) (b : Bridge)
        → Replaced player backend closed b
        → Replaced player backend closed (change b))
    → Waits p closed bs
    → Waits p closed (revised change transport bs)
Waits-revised none change transport closed bs f w = tt
Waits-revised (some p) change transport closed bs f w =
    All-revised change transport (Replaced p.player p.backend closed) bs (f p.player p.backend) w

touch-IsSafe :
    (p : Option Pending) (transport now : ℕ) (s : Voice)
    → IsSafe p s
    → IsSafe p (record s { bridges = touch transport now s.bridges })
touch-IsSafe p transport now s i =
    let change = λ (b : Bridge). record b { last_activity = now } in
    record {
      unique =
          subst Unique (sym (touch_lem transport now s.bridges))
            (Unique-revised change transport s.bridges (λ b. (refl, refl)) i.unique);
      accounts = λ t le. rw (held-touch t transport now s.bridges) (i.accounts t le);
      waits =
          subst (Waits p s.closed) (sym (touch_lem transport now s.bridges))
            (Waits-revised p change transport s.closed s.bridges (λ player backend b r. r) i.waits);
    }

lost-IsSafe :
    (p : Option Pending) (transport : ℕ) (s : Voice)
    → IsSafe p s
    → IsSafe p (connection_lost transport s)
unfolding connection_lost mem
lost-IsSafe p transport s i =
    let change = λ (b : Bridge). record b { connected = false } in
    let closed = transport ∷ s.closed in
    record {
      unique =
          subst Unique (sym (mark_lost_lem transport s.bridges))
            (Unique-revised change transport s.bridges (λ b. (refl, refl)) i.unique);
      accounts = λ t le. accounted-mark_lost t transport s.closed s.bridges (i.accounts t le);
      waits = subst (Waits p closed) (sym (mark_lost_lem transport s.bridges)) (
          Waits-revised p change transport closed s.bridges
            (λ player backend b r h c. absurd (ground (arith, c)))
            (Waits-imp p s.closed closed s.bridges (λ t h. ground (arith, h)) i.waits));
    }

accounted-imp :
    (t : ℕ) (closed closed' : List ℕ) (bs : List Bridge)
    → (mem t closed ≡ true → mem t closed' ≡ true)
    → accounted t closed bs ≡ true
    → accounted t closed' bs ≡ true
accounted-imp t closed closed' bs f h = ground (arith, f, h)

opens-IsSafe :
    (voice_port : ℕ → Option ℕ) (running : ℕ → Bool) (voice_ip_binding : Bool) (p : Pending)
    (s s' : Voice)
    → Makes voice_port running voice_ip_binding p.player p.backend s s'
    → IsSafe none s
    → IsSafe (some p) s'
opens-IsSafe voice_port running voice_ip_binding p s s' m i =
    let o = find p.player p.backend s.bridges in
    subst (IsSafe (some p)) (sym m) (record {
      unique = i.unique;
      accounts = λ t le.
          accounted-imp t s.closed (closed_for o s.closed) s.bridges (mem-closed_for t o s.closed)
            (i.accounts t le);
      waits =
          All-Replaced p.player p.backend (closed_for o s.closed) s.bridges i.unique
            (closed_for_lem o s.closed);
    })

below : (t n : ℕ) → t < suc n → t ≢ n → t < n
below t n le other = omega (arith, le, other)

finish-IsSafe : (p : Pending) (s : Voice) → IsSafe (some p) s → IsSafe none (finish p s)
unfolding finish_bridge
finish-IsSafe p s i =
    let b = new_bridge p.player p.backend p.addr s.next_transport p.now in
    record {
      unique = Unique-put b s.bridges i.unique;
      accounts = λ t le. elim (ℕ_discrete t s.next_transport) [
        | yes same ↦
            subst (λ u. accounted u s.closed (put b s.bridges) ≡ true) (sym same)
              (ground (arith, held-put b s.bridges refl))
        | no other ↦
            accounted-put t b s.closed s.bridges i.waits
              (i.accounts t (below t s.next_transport le other))
      ];
      waits = tt;
    }

pub Step-IsSafe : {p q : Option Pending} {s t : Voice} → Step p s q t → IsSafe p s → IsSafe q t
unfolding cleanup_voice_bridges close_all_voice_bridges start_session
Step-IsSafe {p = p} {s = s} (starts player id session past) i = record {
  unique = i.unique;
  accounts = i.accounts;
  waits = i.waits;
}
Step-IsSafe {p = p} {s = s} (ends player id) i = end_session-IsSafe p player id s i
Step-IsSafe {p = p} {s = s} (cleans second now) i =
    close_where-IsSafe p (is_idle second now) s.sessions s i
Step-IsSafe {p = p} {s = s} closes_all i = close_where-IsSafe p (λ b. true) s.sessions s i
Step-IsSafe {p = p} {s = s} (loses transport) i = lost-IsSafe p transport s i
Step-IsSafe {p = p} {s = s} (touches transport now) i = touch-IsSafe p transport now s i
Step-IsSafe {s = s} {t = t} (opens voice_port running binding p e) i =
    opens-IsSafe voice_port running binding p s t
      (opening voice_port running binding p.player p.addr s t p.backend e).1 i
Step-IsSafe {s = s} (finishes p) i = finish-IsSafe p s i
Step-IsSafe (fails p) i = record { unique = i.unique; accounts = i.accounts; waits = tt }

Run-IsSafe : {p : Option Pending} {s : Voice} → Run p s → IsSafe p s
Run-IsSafe begin = record { unique = tt; accounts = λ t le. absurd (omega arith); waits = tt }
Run-IsSafe (next run step) = Step-IsSafe step (Run-IsSafe run)

kept-all : (bs : List Bridge) → kept (λ b. true) bs ≡ []
unfolding kept
kept-all [] = refl
kept-all (b ∷ bs) = kept-all bs

emptied :
    (p : Option Pending) (s : Voice)
    → IsSafe p s
    → s.bridges ≡ []
    → (t : ℕ) → t < s.next_transport
    → mem t s.closed ≡ true
unfolding held
emptied p s i e t le =
    ground (arith, subst (λ bs. accounted t s.closed bs ≡ true) e (i.accounts t le))

-- In every run of a proxy, however its tasks interleave, after _close_all_voice_bridges every
-- transport that was ever opened for a voice bridge is closed.
pub close_all_voice_bridges_lem :
    {p : Option Pending} {s : Voice} (run : Run p s) (t : ℕ)
    → t < s.next_transport
    → mem t ((close_all_voice_bridges s).closed) ≡ true
unfolding close_all_voice_bridges
close_all_voice_bridges_lem {p = p} {s = s} run t le =
    let i = Run-IsSafe run in
    let f = close_where_lem (λ b. true) s i.unique in
    subst (λ (v : Voice). mem t v.closed ≡ true) (sym f)
      (emptied p (filtered (λ b. true) s) (filtered-IsSafe p (λ b. true) s.sessions s i)
        (kept-all s.bridges) t le)
