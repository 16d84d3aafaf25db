-- ===== src/Backups/Saving.antt =====
-- `autosave_off` and `save_and_backup` of app/backend/core/backup_manager.py, over the commands that
-- are sent to the console of the server.
pub mod Kept
use silkjam.Prelude.{
  ℕ, ◌≡◌, refl, sym, ap, ◌∙◌, Bool, true, false, not, ◌&&◌, Option, none, some, List, [], ◌∷◌, ◌++◌,
  if◌then◌else◌, arith,
}
use silkjam.Backups.Archive.{
  Attempt, Disk, Files, Outcome, created, failed, retries_exceeded, escapes, create_world_archive,
}

-- "Backing up world", "Backup failed" and "Backup succeeded".
pub data Message : Type 0 where
  backing_up backup_failed backup_succeeded : Message

pub data Command : Type 0 where
  save_off save_on save_all : Command
  say : Message → Command

-- A response, by the texts that the code looks for in it.
pub data Response : Type 0 where
  now_disabled already_off saved other_response : Response

-- The commands that were sent, oldest first, and the files of the backup.
pub record Session : Type 0 where
  pub sent : List Command
  pub files : Files

-- How a block ends: normally or with an exception.
abbrev pub Ended : Type 0
Ended = Bool × Session

infixl 5 ◌then_do◌
abbrev pub ◌then_do◌ : Ended → (Session → Ended) → Ended
(false, s) then_do rest = (false, s)
(true, s) then_do rest = rest s

abbrev pub is_answered : Option Response → Bool
is_answered none = false
is_answered (some response) = true

abbrev pub is_saved : Option Response → Bool
is_saved (some saved) = true
is_saved _ = false

-- The remote console: the response to a command after others, or none where the call raises.
module _ (console : List Command → Command → Option Response) where
  abbrev pub command : Command → Session → Option Response × Session
  command c s = (console s.sent c, record s { sent = s.sent ++ (c ∷ []) })

  -- A command whose response is not looked at.
  abbrev pub send : Command → Session → Ended
  send c s = let (response, s') = command c s in (is_answered response, s')

  abbrev pub send_save_all : Session → Ended
  send_save_all s = let (response, s') = command save_all s in (is_saved response, s')

  -- Only a RuntimeError of the archive is caught here.
  abbrev pub send_verdict : Outcome × Files → Session → Ended
  send_verdict (created, files) s = send (say backup_succeeded) (record s { files = files })
  send_verdict (failed, files) s = send (say backup_failed) (record s { files = files })
  send_verdict (retries_exceeded, files) s = send (say backup_failed) (record s { files = files })
  send_verdict (escapes, files) s = (false, record s { files = files })

  -- The block under `autosave_off`; `outcomes` is how the attempts of `tar` end.
  unfoldable pub save_and_archive : Disk → List Attempt → Session → Ended
  unfolding create_world_archive
  save_and_archive disk outcomes s =
      send (say backing_up) s
      then_do send_save_all
      then_do (λ s'. send_verdict (create_world_archive disk outcomes s'.files) s')

  abbrev pub restore : Bool → Session → Ended
  restore prev_autosave_on s = if prev_autosave_on then send save_on s else (true, s)

  -- An exception of the block passes the `yield`, behind which there is no `finally`.
  abbrev pub autosave_off_from : (Session → Ended) → Option Response × Session → Ended
  autosave_off_from block (some now_disabled, s) = block s then_do restore true
  autosave_off_from block (some already_off, s) = block s then_do restore false
  autosave_off_from block (other, s) = (false, s)

  unfoldable pub autosave_off : (Session → Ended) → Session → Ended
  autosave_off block s = autosave_off_from block (command save_off s)

  -- Every exception is caught. `connects` tells whether the console is reached.
  unfoldable pub save_and_backup : Bool → Disk → List Attempt → Session → Session
  unfolding autosave_off save_and_archive
  save_and_backup connects disk outcomes s =
      if connects then (autosave_off (save_and_archive disk outcomes) s).1 else s
