-- ===== src/Backups/Saving/Kept.antt =====
-- What `save_and_backup` leaves of the autosave of a server that answers.
use silkjam.Prelude.{
  ◌≡◌, refl, ap, ◌∙◌, Bool, true, false, ◌&&◌, Option, some, List, [], ◌∷◌, ◌++◌, if◌then◌else◌,
}
use silkjam.Backups.Archive.{
  Attempt, Disk, Files, Outcome, created, failed, retries_exceeded, escapes, create_world_archive,
}
use silkjam.Backups.Saving.{
  Message, backing_up, backup_failed, backup_succeeded, Command, save_off, save_on, save_all, say,
  Response, now_disabled, already_off, saved, other_response, Session, Ended, ◌then_do◌,
  is_answered, send_verdict, save_and_archive, restore, autosave_off_from, autosave_off,
  save_and_backup,
}

-- Whether the server saves by itself after some commands.
abbrev pub autosave_after : Bool → List Command → Bool
autosave_after on [] = on
autosave_after on (save_off ∷ commands) = autosave_after false commands
autosave_after on (save_on ∷ commands) = autosave_after true commands
autosave_after on (save_all ∷ commands) = autosave_after on commands
autosave_after on (say message ∷ commands) = autosave_after on commands

-- A server that answers every command: `save-off` with whether it saved by itself, and `save-all`
-- with whether it saved.
pub record IsServer (on saves : Bool) (console : List Command → Command → Option Response)
    : Type 0 where
  pub save_off_tells :
      (sent : List Command)
      → console sent save_off ≡ some (if autosave_after on sent then now_disabled else already_off)
  pub save_all_tells :
      (sent : List Command) → console sent save_all ≡ some (if saves then saved else other_response)
  pub save_on_answered : (sent : List Command) → is_answered (console sent save_on) ≡ true
  pub say_answered :
      (sent : List Command) (message : Message) → is_answered (console sent (say message)) ≡ true

-- Whether an archive ends with a verdict, so not with an exception other than RuntimeError.
abbrev pub has_verdict : Outcome → Bool
has_verdict created = true
has_verdict failed = true
has_verdict retries_exceeded = true
has_verdict escapes = false

-- What a block sends after `save-off`, and that autosave stays off in it.
record Sends (ended : Ended) (normal : Bool) : Type 0 where
  tail : List Command
  files : Files
  sends :
      ended ≡ (normal, record { sent = save_off ∷ say backing_up ∷ save_all ∷ tail; files = files })
  stays_off : autosave_after false tail ≡ false

-- The session once everything is saved.
abbrev after_save_all : Files → Session
after_save_all files = record { sent = save_off ∷ say backing_up ∷ save_all ∷ []; files = files }

-- The verdict on the archive is said, if there is one.
send_verdict-Sends :
    (console : List Command → Command → Option Response) (on saves : Bool)
    (result : Outcome × Files) (files : Files)
    → IsServer on saves console
    → Sends (send_verdict console result (after_save_all files)) (has_verdict result.0)
send_verdict-Sends console on saves (created, later) files server = record {
  tail = say backup_succeeded ∷ [];
  files = later;
  sends = rw (server.say_answered (after_save_all files).sent backup_succeeded) refl;
  stays_off = refl;
}
send_verdict-Sends console on saves (failed, later) files server = record {
  tail = say backup_failed ∷ [];
  files = later;
  sends = rw (server.say_answered (after_save_all files).sent backup_failed) refl;
  stays_off = refl;
}
send_verdict-Sends console on saves (retries_exceeded, later) files server = record {
  tail = say backup_failed ∷ [];
  files = later;
  sends = rw (server.say_answered (after_save_all files).sent backup_failed) refl;
  stays_off = refl;
}
send_verdict-Sends console on saves (escapes, later) files server = record {
  tail = [];
  files = later;
  sends = refl;
  stays_off = refl;
}

-- The block, after `save-off`.
save_and_archive-Sends :
    (console : List Command → Command → Option Response) (on saves : Bool) (disk : Disk)
    (outcomes : List Attempt) (files : Files)
    → IsServer on saves console
    → Sends
        (save_and_archive console disk outcomes (record { sent = save_off ∷ []; files = files }))
        (saves && has_verdict ((create_world_archive disk outcomes files).0))
unfolding save_and_archive
save_and_archive-Sends console on true disk outcomes files server =
    rw
      (
        save_and_archive,
        server.say_answered (save_off ∷ []) backing_up,
        server.save_all_tells (save_off ∷ say backing_up ∷ []),
      )
      (send_verdict-Sends console on true (create_world_archive disk outcomes files) files server)
save_and_archive-Sends console on false disk outcomes files server = record {
  tail = [];
  files = files;
  sends =
      rw
        (
          save_and_archive,
          server.say_answered (save_off ∷ []) backing_up,
          server.save_all_tells (save_off ∷ say backing_up ∷ []),
        )
        refl;
  stays_off = refl;
}

on_at_last :
    (on : Bool) (commands : List Command) → autosave_after on (commands ++ (save_on ∷ [])) ≡ true
on_at_last on [] = refl
on_at_last on (save_off ∷ commands) = on_at_last false commands
on_at_last on (save_on ∷ commands) = on_at_last true commands
on_at_last on (save_all ∷ commands) = on_at_last on commands
on_at_last on (say message ∷ commands) = on_at_last on commands

-- Autosave is restored where the block did not raise.
restored :
    (console : List Command → Command → Option Response) (on saves : Bool) (s : Session)
    (tail : List Command)
    → s.sent ≡ save_off ∷ say backing_up ∷ save_all ∷ tail
    → autosave_after false tail ≡ false
    → autosave_after on ((((saves, s) then_do restore console on).1).sent) ≡ (on && saves)
restored console true true s tail e off =
    ap (λ sent. autosave_after true (sent ++ (save_on ∷ []))) e ∙ on_at_last false tail
restored console true false s tail e off = ap (autosave_after true) e ∙ off
restored console false true s tail e off = ap (autosave_after false) e ∙ off
restored console false false s tail e off = ap (autosave_after false) e ∙ off

-- The response to `save-off` is what the block is restored to.
under_autosave_off :
    (console : List Command → Command → Option Response) (on : Bool) (block : Session → Ended)
    (s : Session)
    → autosave_off_from console block (some (if on then now_disabled else already_off), s)
      ≡ (block s then_do restore console on)
under_autosave_off console true block s = refl
under_autosave_off console false block s = refl

-- A backup of a server that answers leaves autosave as it was if the server reports that it saved
-- and no exception other than RuntimeError leaves create_world_archive, whichever verdict it ends
-- with; otherwise it leaves autosave off, although it may have been on before.
pub autosave_kept :
    (console : List Command → Command → Option Response) (on saves : Bool) (disk : Disk)
    (outcomes : List Attempt) (files : Files)
    → IsServer on saves console
    → autosave_after on
        ((save_and_backup console true disk outcomes (record { sent = []; files = files })).sent)
      ≡ (on && (saves && has_verdict ((create_world_archive disk outcomes files).0)))
unfolding save_and_backup autosave_off
autosave_kept console on saves disk outcomes files server =
    let block = save_and_archive console disk outcomes in
    let b = save_and_archive-Sends console on saves disk outcomes files server in
    let started : Session = record { sent = save_off ∷ []; files = files } in
    let normal = saves && has_verdict ((create_world_archive disk outcomes files).0) in
    ap (λ r. autosave_after on ((autosave_off_from console block (r, started)).1).sent)
      (server.save_off_tells [])
    ∙ ap (λ (o : Ended). autosave_after on (o.1).sent)
        (under_autosave_off console on block started
          ∙ ap (λ (o : Ended). o then_do restore console on) b.sends)
    ∙ restored console on normal
        (record { sent = save_off ∷ say backing_up ∷ save_all ∷ b.tail; files = b.files }) b.tail
        refl b.stays_off
