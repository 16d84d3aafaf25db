-- ===== src/Backend/Sleep.antt =====
-- The players that are online and the timer that puts the server to sleep: `supervise`.
pub mod Laws
use silkjam.Prelude.{
  ℕ, ◌≡◌, refl, sym, subst, ap, ◌∙◌, arith, List, [], ◌∷◌, Bool, true, false, Option, none, some,
  if◌then◌else◌, Bool-cases, inl, inr, Option-cases,
}
use silkjam.Prelude.Int.{ℤ, pos, pos_part, ◌+ℤ◌, ◌-ℤ◌, eq_ℤ}
use silkjam.Supervisor.{Supervisor}
use silkjam.Supervisor.Commands.{start_unit_nowait, stop_unit_nowait}
use silkjam.Supervisor.Queries.{is_running, is_stopped}
use silkjam.Supervisor.Timer.{
  Timer, set_timeout, set_remaining, reset, remaining, remaining-set_remaining,
}

-- `units` is the backend as a supervisor, and `supervisor` the one whose unit `name` it is.
pub record Backend : Type 0 where
  pub units : Supervisor
  pub supervisor : Supervisor
  pub name : ℕ
  pub sleep_timer : Timer
  pub status_checker : Timer
  pub sleep_timeout : Option ℤ
  pub listed_players : ℤ
  pub online_player_change : Bool

-- The numbers of the units.
abbrev pub sleep_timer_unit : ℕ
sleep_timer_unit = 0

abbrev pub holds : Option Bool → Bool
holds none = false
holds (some b) = b

unfoldable pub mcproc_running : Backend → Bool
unfolding is_running
mcproc_running b = holds (is_running b.supervisor b.name)

unfoldable pub online_players : Backend → ℤ
unfolding mcproc_running
online_players b = if mcproc_running b then b.listed_players else pos 0

unfoldable pub set_online_players : ℤ → Backend → Backend
set_online_players value b = record b { listed_players = value; online_player_change = true }

unfoldable pub incr_online_players : Backend → Backend
unfolding online_players set_online_players
incr_online_players b = set_online_players (online_players b +ℤ pos 1) b

unfoldable pub decr_online_players : Backend → Backend
unfolding online_players set_online_players
decr_online_players b = set_online_players (online_players b -ℤ pos 1) b

abbrev pub sleep_timer_stopped : Backend → Bool
sleep_timer_stopped b = holds (is_stopped b.units sleep_timer_unit)

-- What `supervise` does without players: it stops the server, or sees that the timer runs.
unfoldable pub without_players : ℤ → Backend → Backend
unfolding is_stopped reset
without_players now b =
    if sleep_timer_stopped b
    then record b { supervisor = (stop_unit_nowait b.supervisor b.name false).1 }
    else elim b.sleep_timer.timeout [
      | none ↦ record b { sleep_timer = reset now (set_timeout b.sleep_timeout b.sleep_timer) }
      | some timeout ↦ b
    ]

abbrev pub suspended : Timer → Timer
suspended timer = elim timer.timeout [ none ↦ timer | some timeout ↦ set_timeout none timer ]

-- What it does with players: the timer is started if it ran out, and suspended.
unfoldable pub with_players : Backend → Backend
unfolding is_stopped
with_players b = record b {
  units = if sleep_timer_stopped b then (start_unit_nowait b.units sleep_timer_unit).1 else b.units;
  sleep_timer = suspended b.sleep_timer;
}

unfoldable pub on_player_change : ℤ → Backend → Backend
unfolding without_players with_players online_players
on_player_change now b =
    let b' = if eq_ℤ (online_players b) (pos 0) then without_players now b else with_players b in
    record b' { online_player_change = false }

-- A round of `supervise`, with what it waited for, and whether it raises.
unfoldable pub round : ℤ → Bool → Bool → Bool → Backend → Backend × Bool
unfolding on_player_change
round now player_change sleep_timer_done status_checker_done b =
    let b' = if player_change then on_player_change now b else b in
    (
      if sleep_timer_done
          then record b' { status_checker = set_remaining now (pos 0) b'.status_checker }
          else b',
      status_checker_done,
    )

-- A status report of no players, taken up at a time.
abbrev pub report_none : ℤ → Backend → Backend
report_none now b = on_player_change now (set_online_players (pos 0) b)

abbrev pub report_none_at : List ℤ → Backend → Backend
report_none_at [] b = b
report_none_at (now ∷ times) b = report_none_at times (report_none now b)
