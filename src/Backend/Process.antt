-- ===== src/Backend/Process.antt =====
-- How `_stop` ends the server process: a stop command, then signals that grow harder.
use silkjam.Prelude.{
  ℕ, ◌≡◌, refl, Bool, true, false, ◌||◌, not, Option, none, some, List, [], ◌∷◌, ◌++◌,
  if◌then◌else◌, append_assoc, ap, ◌∙◌,
}

pub data Sent : Type 0 where
  stop_command sigint sigterm sigkill : Sent

-- What comes of a message to the process and the waits behind it: an exit code, a timeout, or an
-- exception, also of `drain` and of a cancellation, with the exit code if the process has ended.
-- The time that passes is left out: the stop of the units, `drain` and the tasks that log the pipes
-- are waited for without a limit.
pub data Reaction : Type 0 where
  exits : ℕ → Reaction
  stays : Reaction
  raises : Option ℕ → Reaction

-- The process and the local state of `_stop`.
pub record Stopping : Type 0 where
  pub returncode : Option ℕ
  pub sent : List Sent
  pub shutdown : Bool
  pub raised : Bool

abbrev pub has_exited : Option ℕ → Bool
has_exited none = false
has_exited (some code) = true

abbrev pub begin : Option ℕ → Stopping
begin returncode = record {
  returncode = returncode;
  sent = [];
  shutdown = has_exited returncode;
  raised = false;
}

abbrev after : Sent → Reaction → Stopping → Stopping
after signal (exits code) s = record s {
  returncode = some code;
  sent = s.sent ++ (signal ∷ []);
  shutdown = true;
}
after signal stays s = record s { sent = s.sent ++ (signal ∷ []) }
after signal (raises returncode) s = record s {
  returncode = returncode;
  sent = s.sent ++ (signal ∷ []);
  raised = true;
}

-- One of the three stages, which is left out once the process has exited or an exception is raised.
unfoldable pub send : Sent → (Sent → Reaction) → Stopping → Stopping
send signal reacts s = if s.shutdown || s.raised then s else after signal (reacts signal) s

-- The `finally` block.
unfoldable pub kill : Stopping → Stopping
kill s = if has_exited s.returncode then s else record s { sent = s.sent ++ (sigkill ∷ []) }

-- The `gather` of the two tasks that log the pipes, unless an exception is on its way.
abbrev pub log_rest : Bool → Stopping → Stopping
log_rest logged s = record s { raised = s.raised || not logged }

-- `units_stopped` tells whether `super()._stop`, before the block with the `finally`, returns or
-- raises. `logged` tells the same of the `gather` at the end.
unfoldable pub stop_process : Bool → (Sent → Reaction) → Bool → Option ℕ → Stopping
unfolding send kill
stop_process units_stopped reacts logged returncode =
    if units_stopped
    then log_rest logged (
        kill
          (send sigterm reacts (send sigint reacts (send stop_command reacts (begin returncode)))))
    else record (begin returncode) { raised = true }

-- What is sent to a process that runs: each message until it ends, and SIGKILL if it does not.
unfoldable pub escalation : (Sent → Reaction) → List Sent → List Sent
escalation reacts [] = sigkill ∷ []
escalation reacts (signal ∷ rest) = signal ∷ (elim (reacts signal) [
  | exits code ↦ []
  | stays ↦ escalation reacts rest
  | raises none ↦ sigkill ∷ []
  | raises (some code) ↦ []
])

-- The messages that `_stop` has for a process that runs.
abbrev pub messages : List Sent
messages = stop_command ∷ sigint ∷ sigterm ∷ []

-- What is sent in all: nothing if the process has exited before.
abbrev pub expected : (Sent → Reaction) → Option ℕ → List Sent
expected reacts none = escalation reacts messages
expected reacts (some code) = []

-- The state of a process that runs still, after some messages.
abbrev open_state : List Sent → Stopping
open_state sent = record { returncode = none; sent = sent; shutdown = false; raised = false }

abbrev stages : (Sent → Reaction) → List Sent → Stopping → Stopping
stages reacts [] s = s
stages reacts (signal ∷ rest) s = stages reacts rest (send signal reacts s)

settled :
    (reacts : Sent → Reaction) (rest : List Sent) (s : Stopping)
    → (s.shutdown || s.raised) ≡ true
    → stages reacts rest s ≡ s
unfolding send
settled reacts [] s h = refl
settled reacts (signal ∷ rest) s h =
    ap (stages reacts rest) (rw (send, h) refl) ∙ settled reacts rest s h

-- Whether SIGKILL is among some messages.
abbrev pub killed : List Sent → Bool
killed [] = false
killed (sigkill ∷ sent) = true
killed (stop_command ∷ sent) = killed sent
killed (sigint ∷ sent) = killed sent
killed (sigterm ∷ sent) = killed sent

-- What stands at the end: what was sent, and that a process that is not known to have exited was
-- killed.
pub record Stops (s : Stopping) (sent : List Sent) : Type 0 where
  pub escalates : s.sent ≡ sent
  pub ends : (has_exited s.returncode || killed s.sent) ≡ true

killed-last : (sent : List Sent) → killed (sent ++ (sigkill ∷ [])) ≡ true
killed-last [] = refl
killed-last (sigkill ∷ sent) = refl
killed-last (stop_command ∷ sent) = killed-last sent
killed-last (sigint ∷ sent) = killed-last sent
killed-last (sigterm ∷ sent) = killed-last sent

after-Stops :
    (reacts : Sent → Reaction) (r : Reaction) (signal : Sent) (rest sent : List Sent)
    → ((sent : List Sent)
        → Stops (kill (stages reacts rest (open_state sent))) (sent ++ escalation reacts rest))
    → Stops (kill (stages reacts rest (after signal r (open_state sent)))) (
        sent
        ++ (signal ∷ (elim r [
          | exits code ↦ []
          | stays ↦ escalation reacts rest
          | raises none ↦ sigkill ∷ []
          | raises (some code) ↦ []
        ])))
unfolding kill
after-Stops reacts (exits code) signal rest sent ih =
    rw (settled reacts rest (after signal (exits code) (open_state sent)) refl)
      (record { escalates = refl; ends = refl })
after-Stops reacts stays signal rest sent ih =
    let i = ih (sent ++ (signal ∷ [])) in
    record {
      escalates = i.escalates ∙ append_assoc sent (signal ∷ []) (escalation reacts rest);
      ends = i.ends;
    }
after-Stops reacts (raises none) signal rest sent ih =
    rw (settled reacts rest (after signal (raises none) (open_state sent)) refl) (record {
      escalates = append_assoc sent (signal ∷ []) (sigkill ∷ []);
      ends = killed-last (sent ++ (signal ∷ []));
    })
after-Stops reacts (raises (some code)) signal rest sent ih =
    rw (settled reacts rest (after signal (raises (some code)) (open_state sent)) refl)
      (record { escalates = refl; ends = refl })

stages-Stops :
    (reacts : Sent → Reaction) (todo sent : List Sent)
    → Stops (kill (stages reacts todo (open_state sent))) (sent ++ escalation reacts todo)
unfolding kill escalation send
stages-Stops reacts [] sent = record { escalates = refl; ends = killed-last sent }
stages-Stops reacts (signal ∷ rest) sent =
    after-Stops reacts (reacts signal) signal rest sent (stages-Stops reacts rest)

-- If the units of a backend stop, _stop sends to a process that runs the stop command, SIGINT and
-- SIGTERM in this order, each only if the ones before ended in a timeout, and SIGKILL at last if
-- the process has not exited, also after an exception, and nothing to a process that has exited;
-- in the end the process is known to have exited or SIGKILL was sent.
pub stop_process_lem :
    (reacts : Sent → Reaction) (logged : Bool) (returncode : Option ℕ)
    → Stops (stop_process true reacts logged returncode) (expected reacts returncode)
unfolding stop_process
stop_process_lem reacts logged none =
    let s = stages-Stops reacts messages [] in record { escalates = s.escalates; ends = s.ends }
stop_process_lem reacts logged (some code) = record { escalates = refl; ends = refl }
