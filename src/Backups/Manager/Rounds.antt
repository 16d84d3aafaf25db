-- ===== src/Backups/Manager/Rounds.antt =====
-- What a round does to the backups of a world that may keep one.
use silkjam.Prelude.{ℕ, ◌<◌, ◌≡◌, refl, false, some, [], ◌∷◌, arith}
use silkjam.Backups.Strategy.Single.{get_stale_backups-only}
use silkjam.Backups.Manager.{run_round, is_needed, time_left, tick_interval, remaining}

module _ {ℓ} {A : Type ℓ} (same : Discrete A) (key : A → ℕ) where
  -- With one backup and `max_backups` 1, a round that finds that no backup is needed saves nothing
  -- and removes that backup.
  pub only_backup_removed :
      (b : A) (t interval : ℕ)
      → 0 < interval
      → is_needed (some (key b)) t interval ≡ false
      → run_round same key (b ∷ []) t 1 interval
        ≡ ((false, remaining (time_left (some (key b)) t interval)), some (b ∷ []))
  unfolding run_round
  only_backup_removed b t interval h needed =
      rw (needed, get_stale_backups-only same key t (tick_interval interval) b (omega arith)) refl
