-- ===== src/Backend/Sleep/Laws.antt =====
-- How the sleep timer of a backend counts down while status reports come.
use silkjam.Prelude.{
  ◌≡◌, refl, sym, subst, ap, ◌∙◌, arith, List, [], ◌∷◌, true, false, none, some, Bool-cases, inl,
  inr, Option-cases,
}
use silkjam.Prelude.Int.{ℤ, pos, pos_part, ◌-ℤ◌, eq_ℤ}
use silkjam.Supervisor.{Supervisor}
use silkjam.Supervisor.Timer.{Timer, set_timeout, reset, remaining, remaining-set_remaining}
use silkjam.Backend.Sleep.{
  Backend, sleep_timer_stopped, mcproc_running, online_players, set_online_players, without_players,
  suspended, with_players, on_player_change, report_none, report_none_at,
}

with_players-suspends : (timer : Timer) → (suspended timer).timeout ≡ none
with_players-suspends timer = elim (Option-cases timer.timeout) [
  | inl absent ↦ rw (absent) refl
  | inr (t, e) ↦ rw (e) refl
]

-- The backend with its timer suspended.
abbrev with_online : ℤ → Backend → Backend
with_online online b = record b {
  sleep_timer = suspended b.sleep_timer;
  listed_players = online;
  online_player_change = true;
}

counted :
    (now : ℤ) (b : Backend)
    → mcproc_running b ≡ true
    → eq_ℤ b.listed_players (pos 0) ≡ false
    → sleep_timer_stopped b ≡ false
    → on_player_change now b
      ≡ record b { sleep_timer = suspended b.sleep_timer; online_player_change = false }
unfolding on_player_change with_players online_players
counted now b runs some_players awake =
    rw (on_player_change, online_players, runs, some_players, with_players, awake) refl

none_online : (b : Backend) → online_players (with_online (pos 0) b) ≡ pos 0
unfolding online_players
none_online b = elim (Bool-cases (mcproc_running (with_online (pos 0) b))) [
  | inl e ↦ rw (online_players, e) refl
  | inr e ↦ rw (online_players, e) refl
]

-- The sleep timer runs with a timeout, and is the one that a state has.
record Counts (timer : Timer) (supervisor : Supervisor) (b : Backend) : Type 0 where
  same : b.sleep_timer ≡ timer
  unasked : b.supervisor ≡ supervisor
  awake : sleep_timer_stopped b ≡ false

reported : (b : Backend) → online_players (set_online_players (pos 0) b) ≡ pos 0
unfolding online_players set_online_players
reported b = elim (Bool-cases (mcproc_running (set_online_players (pos 0) b))) [
  | inl e ↦ rw (online_players, e) refl
  | inr e ↦ rw (online_players, e) refl
]

left_counting :
    (now : ℤ) (b : Backend) (timeout : ℤ)
    → sleep_timer_stopped b ≡ false
    → b.sleep_timer.timeout ≡ some timeout
    → without_players now b ≡ b
unfolding without_players
left_counting now b timeout awake e = ground (arith, awake, e)

-- While the timer counts, a report of no players changes nothing but the number.
counting :
    (now : ℤ) (b : Backend) (timeout : ℤ)
    → sleep_timer_stopped b ≡ false
    → b.sleep_timer.timeout ≡ some timeout
    → report_none now b ≡ record b { listed_players = pos 0; online_player_change = false }
unfolding on_player_change set_online_players
counting now b timeout awake e =
    let b' = set_online_players (pos 0) b in
    rw (on_player_change, reported b, left_counting now b' timeout awake e) refl

report_none_at-Counts :
    (times : List ℤ) (timer : Timer) (timeout : ℤ) (supervisor : Supervisor) (b : Backend)
    → timer.timeout ≡ some timeout
    → Counts timer supervisor b
    → Counts timer supervisor (report_none_at times b)
report_none_at-Counts [] timer timeout supervisor b e c = c
report_none_at-Counts (now ∷ times) timer timeout supervisor b e c =
    report_none_at-Counts times timer timeout supervisor (report_none now b) e (
      subst (Counts timer supervisor)
        (sym (counting now b timeout c.awake (ap (λ (t : Timer). t.timeout) c.same ∙ e)))
        (record { same = c.same; unasked = c.unasked; awake = c.awake }))

-- The first report restarts the timer.
first_report :
    (now timeout : ℤ) (b : Backend)
    → online_players b ≡ pos 0
    → sleep_timer_stopped b ≡ false
    → b.sleep_timer.timeout ≡ none
    → b.sleep_timeout ≡ some timeout
    → Counts
        (reset now (set_timeout b.sleep_timeout b.sleep_timer))
        b.supervisor
        (on_player_change now b)
unfolding on_player_change without_players
first_report now timeout b zero awake off set =
    rw (on_player_change, without_players, zero, awake, off)
      (record { same = refl; unasked = refl; awake = awake })

reset-timeout :
    (now timeout : ℤ) (timer : Timer)
    → timer.timeout ≡ some timeout
    → (reset now timer).timeout ≡ some timeout
unfolding reset
reset-timeout now timeout timer e = ground (arith, e)

-- A server with players, whose sleep timer is not stopped, sees the number of players change and
-- then reports of no players, any number of them, while the sleep timer is not stopped: once the
-- first is taken up, the whole timeout of the listing counts down from then on, and none of them
-- restarts it or asks the server to stop.
pub full_timeout :
    (before now later timeout : ℤ) (times : List ℤ) (b : Backend)
    → mcproc_running b ≡ true
    → eq_ℤ b.listed_players (pos 0) ≡ false
    → sleep_timer_stopped b ≡ false
    → b.sleep_timeout ≡ some timeout
    → (remaining later ((report_none_at (now ∷ times) (on_player_change before b)).sleep_timer)
        ≡ some (pos_part (timeout -ℤ (later -ℤ now))))
      × ((report_none_at (now ∷ times) (on_player_change before b)).supervisor ≡ b.supervisor)
unfolding set_online_players
full_timeout before now later timeout times b runs some_players awake set =
    let b' = with_online (pos 0) b in
    let e : set_online_players (pos 0) (on_player_change before b) ≡ b' =
      ap (set_online_players (pos 0)) (counted before b runs some_players awake) in
    let off = with_players-suspends b.sleep_timer in
    let timer = set_timeout b.sleep_timeout b'.sleep_timer in
    let c =
      report_none_at-Counts times (reset now timer) timeout b.supervisor (on_player_change now b')
        (reset-timeout now timeout timer set)
        (first_report now timeout b' (none_online b) awake off set) in
    let c' =
      subst
        (λ (x : Backend).
          Counts (reset now timer) b.supervisor (report_none_at times (on_player_change now x)))
        (sym e) c in
    (
      ap (remaining later) c'.same
          ∙ (remaining-set_remaining now later timeout timeout timer set).1,
      c'.unasked,
    )
