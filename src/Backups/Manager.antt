-- ===== src/Backups/Manager.antt =====
-- The round of `MCBackupManager.run`, app/backend/core/backup_manager.py, after the timer. A
-- backup is its ticks and its path; `backups` is what `load_backups_list` found, sorted.
pub mod Rounds
use silkjam.Prelude.{
  ℕ, zero, suc, ◌+◌, ◌-◌, ◌*◌, ◌/◌, ◌^◌, ◌≤◌, ◌<◌, min, max, ◌≡◌, refl, ap, ◌∙◌, subst, Bool, true,
  false, not, ◌&&◌, ◌||◌, Option, none, some, List, [], ◌∷◌, reverse, length, replicate, ltb, ◌==◌,
  if◌then◌else◌, arith, inl, inr, Bool-cases,
}
use silkjam.Prelude.Int.{ℤ, pos, floor_div, pos_part, ◌-ℤ◌, ltb_ℤ, leb_ℤ, pos-sub}
use silkjam.Backups.Strategy.{get_stale_backups}

abbrev pub ticks_per_second : ℕ
ticks_per_second = 20

abbrev pub ticks_per_minute : ℕ
ticks_per_minute = ticks_per_second * 60

abbrev pub min_interval : ℕ
min_interval = 60

-- The timeout of the timer in seconds, for an interval in minutes.
abbrev pub initial_timeout : ℕ → ℕ
initial_timeout interval = max min_interval (interval * 60)

abbrev pub tick_interval : ℕ → ℕ
tick_interval interval = interval * ticks_per_minute

-- What the round sets of the timer.
pub data Next : Type 0 where
  reset : Next
  remaining : ℕ → Next
  no_timeout : Next

abbrev pub last_ticks {ℓ} : {A : Type ℓ} → (A → ℕ) → List A → Option ℕ
last_ticks key [] = none
last_ticks key (a ∷ as') = elim (last_ticks key as') [ none ↦ some (key a) | some t ↦ some t ]

-- Whether a backup is needed, with the ticks since the last one.
unfoldable pub is_needed : Option ℕ → ℕ → ℕ → Bool
is_needed none t interval = true
is_needed (some last) t interval =
    ltb 0 (pos_part (floor_div (pos t -ℤ pos last) (tick_interval interval)))

-- `max(MIN_INTERVAL, (tick_interval - ticks) // 20)`
unfoldable pub time_left : Option ℕ → ℕ → ℕ → ℕ
time_left none t interval = min_interval
time_left (some last) t interval =
    max min_interval (pos_part (floor_div (pos (tick_interval interval) -ℤ (pos t -ℤ pos last)) 20))

module _ {ℓ} {A : Type ℓ} (same : Discrete A) (key : A → ℕ) where
  -- Whether the world is saved, what the timer is set to, and the backups that are removed.
  unfoldable pub run_round : List A → ℕ → ℕ → ℕ → (Bool × Next) × Option (List A)
  unfolding is_needed time_left get_stale_backups
  run_round backups total_ticks max_backups interval =
      let last = last_ticks key backups in
      (
        if ltb 0 max_backups
            then (if is_needed last total_ticks interval
                then (true, reset)
                else (false, remaining (time_left last total_ticks interval)))
            else (false, no_timeout),
        get_stale_backups same key backups total_ticks max_backups (tick_interval interval),
      )
