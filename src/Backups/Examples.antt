-- ===== src/Backups/Examples.antt =====
-- The theorems on the backups, at concrete ones.
use silkjam.Prelude.{
  ℕ, ◌≡◌, refl, ◌≤◌, ◌-◌, suc, length, List, [], ◌∷◌, some, Option, true, false, ◌&&◌,
  if◌then◌else◌, arith,
}
use silkjam.Backups.Strategy.{get_stale_backups, sorted, to_nearest, add, bump, bin, drop_one}
use silkjam.Prelude.Int.{◌+ℤ◌, ◌-ℤ◌}
use silkjam.Backups.Strategy.Total.{get_stale_backups_total}
use silkjam.Backups.Archive.{Attempt, writable, Files, create_world_archive}
use silkjam.Backups.Saving.{
  Command, save_off, save_on, save_all, say, backing_up, Response, now_disabled, already_off, saved,
  other_response, save_and_backup, autosave_off, save_and_archive,
}
use silkjam.Backups.Saving.Kept.{autosave_after, has_verdict, IsServer, autosave_kept}
use silkjam.Backups.Manager.{run_round, remaining, is_needed, time_left}
use silkjam.Backups.Manager.Rounds.{only_backup_removed}
use native.Mathlib.Decide.{ℕ_discrete}

abbrev five_backups : List ℕ
five_backups = 100 ∷ 5000 ∷ 9000 ∷ 9500 ∷ 9990 ∷ []

abbrev ticks : ℕ → ℕ
ticks backup = backup

get_stale_backups_total_example :
    (stale : List ℕ) × (get_stale_backups ℕ_discrete ticks five_backups 10000 3 1200 ≡ some stale)
    × (length stale ≤ suc (length five_backups) - 3)
get_stale_backups_total_example =
    get_stale_backups_total ℕ_discrete ticks five_backups 10000 3 1200 (omega arith)

-- The oldest is past the cutoff; the others come from the newest bin.
stale_of_five :
    get_stale_backups ℕ_discrete ticks five_backups 10000 3 1200 ≡ some (9500 ∷ 9990 ∷ 100 ∷ [])
unfolding get_stale_backups sorted to_nearest ◌+ℤ◌ ◌-ℤ◌ add bump bin ℕ_discrete drop_one
stale_of_five = refl

only_backup_removed_example :
    run_round ℕ_discrete ticks (12000 ∷ []) 12500 1 60
    ≡ ((false, remaining (time_left (some 12000) 12500 60)), some (12000 ∷ []))
unfolding is_needed ◌-ℤ◌
only_backup_removed_example = only_backup_removed ℕ_discrete ticks 12000 12500 60 (omega arith) refl

abbrev attempt : ℕ → ℕ → Attempt
attempt returncode stderr_length = record {
  returncode = returncode;
  stderr_length = stderr_length;
  raises = false;
}

abbrev warned_once : List Attempt
warned_once = attempt 0 20 ∷ attempt 0 0 ∷ attempt 0 0 ∷ []

abbrev no_files : Files
no_files = record { tmp = false; backup = false; sleeps = 0 }

-- A server that saves by itself, and that cannot save all.
abbrev full_disk : List Command → Command → Option Response
full_disk sent save_off = some (if autosave_after true sent then now_disabled else already_off)
full_disk sent save_on = some other_response
full_disk sent save_all = some other_response
full_disk sent (say message) = some other_response

full_disk-IsServer : IsServer true false full_disk
full_disk-IsServer = record {
  save_off_tells = λ sent. refl;
  save_all_tells = λ sent. refl;
  save_on_answered = λ sent. refl;
  say_answered = λ sent message. refl;
}

sent_to_full_disk :
    (save_and_backup full_disk true writable warned_once
      (record { sent = []; files = no_files })).sent
    ≡ save_off ∷ say backing_up ∷ save_all ∷ []
unfolding save_and_backup autosave_off save_and_archive
sent_to_full_disk = refl

-- A server that saves, on a system without tar.
abbrev saving : List Command → Command → Option Response
saving sent save_off = some (if autosave_after true sent then now_disabled else already_off)
saving sent save_on = some other_response
saving sent save_all = some saved
saving sent (say message) = some other_response

saving-IsServer : IsServer true true saving
saving-IsServer = record {
  save_off_tells = λ sent. refl;
  save_all_tells = λ sent. refl;
  save_on_answered = λ sent. refl;
  say_answered = λ sent message. refl;
}

abbrev no_tar : List Attempt
no_tar = record { returncode = 0; stderr_length = 0; raises = true } ∷ []

autosave_kept_example :
    autosave_after true
      ((save_and_backup saving true writable no_tar (record { sent = []; files = no_files })).sent)
    ≡ (true && (true && has_verdict ((create_world_archive writable no_tar no_files).0)))
autosave_kept_example = autosave_kept saving true true writable no_tar no_files saving-IsServer

without_verdict : has_verdict ((create_world_archive writable no_tar no_files).0) ≡ false
unfolding create_world_archive
without_verdict = refl
