-- ===== src/Backups/Archive.antt =====
-- `create_world_archive` of app/backend/core/backup_manager.py. An attempt of `tar` ends with its
-- return code and with what it wrote to its error stream, of which the length matters, or with an
-- exception that is no RuntimeError: tar is not found, what it wrote is no UTF-8, or the archive
-- cannot be renamed.
use silkjam.Prelude.{
  ℕ, suc, ◌≡◌, Bool, true, false, not, ◌&&◌, List, [], ◌∷◌, ltb, ◌==◌, if◌then◌else◌,
}

pub record Attempt : Type 0 where
  pub returncode : ℕ
  pub stderr_length : ℕ
  pub raises : Bool

-- Whether the partial file can be made and removed, or else an OSError is raised.
pub record Disk : Type 0 where
  pub touches : Bool
  pub unlinks : Bool

-- The two files, and the number of times that the coroutine slept.
pub record Files : Type 0 where
  pub tmp : Bool
  pub backup : Bool
  pub sleeps : ℕ

-- The two RuntimeErrors are told from every other exception.
pub data Outcome : Type 0 where
  created failed retries_exceeded escapes : Outcome

-- The loop, on what the attempts end with; the list has one for each of the `max_retries`.
unfoldable pub attempts : List Attempt → Files → Outcome × Files
attempts [] files = (retries_exceeded, files)
attempts (attempt ∷ more) files =
    let again = attempts more (record files { sleeps = suc files.sleeps }) in
    if attempt.raises
    then (escapes, files)
    else if not (attempt.returncode == 0)
    then (failed, files)
    else if ltb 0 attempt.stderr_length
    then again
    else (created, record files { tmp = false; backup = files.tmp })

-- The call, with `tmp.touch` before and the `finally` block after the loop.
unfoldable pub create_world_archive : Disk → List Attempt → Files → Outcome × Files
unfolding attempts
create_world_archive disk outcomes files =
    let (outcome, files') = attempts outcomes (record files { tmp = true }) in
    if not disk.touches
    then (escapes, files)
    else if not files'.tmp
    then (outcome, files')
    else if disk.unlinks
    then (outcome, record files' { tmp = false })
    else (escapes, files')

-- A disk on which the partial file can be made and removed.
abbrev pub writable : Disk
writable = record { touches = true; unlinks = true }

-- An attempt that ends without an error and without a word.
abbrev pub is_clean : Attempt → Bool
is_clean attempt =
    not attempt.raises && (attempt.returncode == 0) && not (ltb 0 attempt.stderr_length)

-- An attempt to be made again.
abbrev pub is_retried : Attempt → Bool
is_retried attempt = not attempt.raises && (attempt.returncode == 0) && ltb 0 attempt.stderr_length

-- How many attempts are retried before the first that is not.
unfoldable pub retried : List Attempt → ℕ
retried [] = 0
retried (attempt ∷ more) = let n = retried more in if is_retried attempt then suc n else 0

-- Whether the first attempt that is not retried is clean.
unfoldable pub succeeds : List Attempt → Bool
succeeds [] = false
succeeds (attempt ∷ more) =
    let rest = succeeds more in if is_retried attempt then rest else is_clean attempt

-- What the call ends with.
abbrev pub Ends : List Attempt → Files → Outcome × Files → Type 0
Ends outcomes files (created, files') = (succeeds outcomes ≡ true) × (files'.backup ≡ true)
Ends outcomes files (failed, files') = (succeeds outcomes ≡ false) × (files'.backup ≡ files.backup)
Ends outcomes files (retries_exceeded, files') =
    (succeeds outcomes ≡ false) × (files'.backup ≡ files.backup)
Ends outcomes files (escapes, files') = (succeeds outcomes ≡ false) × (files'.backup ≡ files.backup)
