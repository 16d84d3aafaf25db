-- ===== src/Lib.antt =====
-- Silkjam: verification of the backend (app/backend), which runs Minecraft servers behind proxies.
-- The orchestrator reads a configuration and runs a proxy for each proxy listing and a backend for
-- each server listing as units of a supervisor; proxies and status clients speak the Minecraft
-- wire protocol; a backend has a backup manager among its own units.
--
-- Prelude passes on the names of the libraries and has what the parts share: Boolean tests, lists,
-- integers, bit masks, Python's dict and set of numbers. Numbers are native naturals, integers are
-- Prelude/Int; Python's integers do not wrap, and the 32 and 64 bit fields of the wire protocol
-- have their wrap-around written out.
--
-- Protocol models app/backend/core/protocol.py. A buffer is a list of bytes; a decoder takes it
-- and an index and gives a value and the number of bytes, asks for more input, or fails with the
-- exception of the source (Protocol/Result). Protocol/Bytes has Python's slices and the struct
-- formats, Protocol/Text the UTF-8 and UTF-16 codecs, Protocol/Varint encode_varint and
-- decode_varint, Protocol/Packet the packets with their encoders and decoders, Protocol/Legacy the
-- ping of old clients, Protocol/Buffer the allocation of the receive buffer, Protocol/Reader the
-- loops of PacketReader. A stream is the list of the pieces in which it comes, and a read takes
-- what has come, as far as it fits. The loops have one round more than there are bytes to come,
-- since each round but the last takes at least one (Protocol/Reader/Termination); locks and
-- timeouts are left out. The JSON library is a parameter, over the values of Protocol/Json. The
-- encoder of VarInts has one round of fuel more than the value, which halves at least; the decoder
-- stops by itself after five bytes.
--
-- Supervisor models app/backend/supervisor/supervisor.py. Units and asyncio tasks are numbers, the
-- fields of the supervisor and of Supervisor.State are records (Supervisor.antt).
-- Supervisor/Commands has the methods that return at once and the command queue;
-- Supervisor/Lifecycle has _run_unit, cut at each await into phases that take the outcome of the
-- unit's coroutine; Supervisor/Loop has a round of _supervise_until and Supervisor/Until the loop
-- over the rounds, with the methods that wait through it, where a round is given with what the
-- other tasks do in it; Supervisor/Queries the questions about a unit. What asyncio does, when a
-- task runs and what a cancellation raises, is left open: a phase may come in any state in which
-- the unit has the status that the phase before it left. Supervisor/Reachable lets calls,
-- commands, phases and rounds come in any order. A finished task may be collected there while the
-- unit has a new one already, which is lost then, as Supervisor/Races shows; KeepsTasks says of a
-- run that this does not happen in it, and the theorems on reachable states have it as a
-- hypothesis. Logging is left out. Supervisor/BaseUnit and Supervisor/Timer model base_unit.py and
-- timer.py of the same package; the times of a timer are whole numbers where the source has
-- floats.
--
-- Config models app/backend/models/config.py with the listings of models/proxy_listing.py and
-- models/server_listing.py: the semantic validation. Field validation by pydantic, the files and
-- the regular expression for subdomains are not modelled; the regular expression is a parameter of
-- the validation. Names are numbers.
--
-- Orchestrator models app/backend/core/orchestrator.py and core/ports.py: the reserved ports,
-- entering and leaving acquire_port for one protocol, the voice host, and in Orchestrator/Reload
-- reload_config over the supervisor of Supervisor. The search for a port is a recursion on the
-- number of ports in the range.
--
-- Backups models app/backend/utils/backup_strategies.py and a round of
-- app/backend/core/backup_manager.py (Backups/Manager) and its create_world_archive
-- (Backups/Archive), where the results of tar are arguments, and its autosave_off and
-- save_and_backup (Backups/Saving), where the console of the server is a function from the
-- commands before and the command to the response. The logarithm of a bin takes the number itself
-- as fuel, which halving exhausts. Divisions are exact, which Python's floats are for the play
-- times that occur and fewer than 1024 bins; with more, Python raises OverflowError, which the
-- model does not. The clock is not modelled.
--
-- StatusChecker models the retry loop of app/backend/core/status_checker.py, with a callback that
-- may raise.
--
-- Proxy models app/backend/core/proxy.py. Proxy/Sessions has the sessions of players and
-- Proxy/Bridges the voice bridges, each with the operations of MCProxy and VoiceBridge on them;
-- UUIDs, backends and addresses are numbers, and a transport is the number of its creation.
-- Proxy/Steps lets the tasks of a proxy take their steps in any order; _get_or_create_voice_bridge
-- is cut at its await. A clock that does not run backwards is a condition on the start of a
-- session. Proxy/Forwarding has what is read of a client before it is forwarded and what the
-- backend gets first, over the packets of Protocol and with all bytes there. Proxy/Client has the
-- decision between forwarding, waking and answering, over the supervisor that runs the backend,
-- where what other tasks do between the clients, and while one waits for a server that is
-- stopping, is given with the clients; Supervisor/Idempotence serves it. Proxy/Bridges/Voices has
-- _get_or_create_voice_bridge without anything at its await. Proxy/Identify has the backend that
-- an address names, where the regular expression of the domain is a parameter, and Proxy/Answers,
-- with Proxy/Status, what a client gets of a server that does not run, over the reader of
-- Protocol/Reader. Proxy/Listener has the datagrams of the voice listener, its queue and the
-- delays between restarts.
--
-- Backend models app/backend/core/backend.py: in Backend/Process how _stop ends the server
-- process, where the reactions of the process are a parameter and the time that passes is left
-- out, in Backend/Ports the ports that _start takes and the exit stack gives back, and in
-- Backend/Sleep the number of players and the rounds of supervise, over the timers and supervisors
-- of Supervisor. What comes of a SIGKILL is left to the operating system.
--
-- Client models the status request of app/backend/core/client.py; Client/Dialog has it talk to the
-- proxy.
--
-- ServerProperties models the reading and writing of property files in
-- app/backend/models/server_properties.py. A file is the list of its code points, universal
-- newlines are written out, and str.isspace is the list of the characters that Unicode calls white
-- space, as Python does.
--
-- Not modelled: timeouts and the opening and closing of connections, the property files and the
-- process that the start of a server makes, the pydantic models of the property files, the HTTP
-- API, entry points and logging.
pub mod Prelude
pub mod Protocol
pub mod Backups
pub mod Supervisor
pub mod Config
pub mod Orchestrator
pub mod StatusChecker
pub mod Proxy
pub mod ServerProperties
pub mod Backend
pub mod Client
