-- ===== src/Proxy/Client.antt =====
-- `_handle_client`: whether a client is forwarded or answered, and how it wakes the server. The
-- backend is a unit of the supervisor of the orchestrator, on which other tasks work as well.
pub mod Waking
mod Examples
use silkjam.Prelude.{ℕ, Bool, true, false, Option, none, some, List, [], ◌∷◌, if◌then◌else◌}
use silkjam.Supervisor.{Supervisor}
use silkjam.Supervisor.Commands.{start_unit_nowait}
use silkjam.Supervisor.Queries.{Wait, is_starting, is_running, done_stopping, answers, awaits}
use silkjam.Proxy.Forwarding.{Handshake, is_joining}

abbrev pub holds : Option Bool → Bool
holds none = false
holds (some b) = b

abbrev pub start_mcproc : ℕ → Supervisor → Supervisor
start_mcproc backend s = (start_unit_nowait s backend).1

-- A client that comes: what the other tasks do before, its handshake, what they do while the client
-- waits for a server that is stopping, or none if the hold timeout ends that wait, and what
-- `done_starting` returns within that timeout, or else false.
pub record Client : Type 0 where
  pub before : Supervisor → Supervisor
  pub handshake : Option Handshake
  pub meanwhile : Option (Supervisor → Supervisor)
  pub started : Bool

abbrev pub waited : Option (Supervisor → Supervisor) → Supervisor → Wait → Option Supervisor
waited meanwhile s (answers stopped) = some s
waited none s awaits = none
waited (some others) s awaits = some (others s)

-- `await self.supervisor.done_stopping(self)`, or none where it times out.
unfoldable pub wait_stopping : ℕ → Option (Supervisor → Supervisor) → Supervisor → Option Supervisor
wait_stopping backend meanwhile s = waited meanwhile s (done_stopping s backend)

abbrev pub start_after : ℕ → Supervisor → Option Supervisor → Bool × Supervisor
start_after backend s none = (false, s)
start_after backend s (some s') = (true, start_mcproc backend s')

-- `mcproc_done_starting` up to the wait for the start, and whether it comes to that.
unfoldable pub mcproc_done_starting :
    ℕ → Option (Supervisor → Supervisor) → Supervisor → Bool × Supervisor
unfolding wait_stopping
mcproc_done_starting backend meanwhile s = start_after backend s (wait_stopping backend meanwhile s)

-- A login to a server that does not run: `start_mcproc` unless it is starting, and then
-- `mcproc_done_starting`, which waits for a server that is stopping and starts it again.
unfoldable pub wake : ℕ → Option (Supervisor → Supervisor) → Supervisor → Bool × Supervisor
unfolding is_starting mcproc_done_starting
wake backend meanwhile s =
    mcproc_done_starting backend meanwhile
      (if holds (is_starting s backend) then s else start_mcproc backend s)

-- What a client gets: nothing, the backend, or the answer of `_handle_handshake`.
pub data Reply : Type 0 where
  closed forwarded answered : Reply

abbrev pub reply_for : Bool → Bool → Reply
reply_for true true = forwarded
reply_for true false = answered
reply_for false started = answered

unfoldable pub handle_client : ℕ → Client → Supervisor → Reply × Supervisor
unfolding is_running wake
handle_client backend client s = elim client.handshake [
  | none ↦ (closed, s)
  | some handshake ↦
      let (held, s') = wake backend client.meanwhile s in
      if holds (is_running s backend)
      then (forwarded, s)
      else if is_joining handshake
      then (reply_for held client.started, s')
      else (answered, s)
]

-- Clients that come one after the other, with the other tasks between them.
unfoldable pub handle_clients : ℕ → List Client → Supervisor → Supervisor
unfolding handle_client
handle_clients backend [] s = s
handle_clients backend (client ∷ clients) s =
    handle_clients backend clients ((handle_client backend client (client.before s)).1)
