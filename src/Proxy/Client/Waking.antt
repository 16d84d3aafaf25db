-- ===== src/Proxy/Client/Waking.antt =====
-- The clients of a proxy wake the server of a backend once.
use silkjam.Prelude.{
  ℕ, ◌≤◌, ◌≡◌, refl, sym, subst, ap, ◌∙◌, Bool, false, not, ◌&&◌, Option, none, some, List, [], ◌∷◌,
  if◌then◌else◌, arith, Bool-cases, Option-cases, inl, inr,
}
use silkjam.Prelude.Dict.{lookup, lookup-store}
use silkjam.Supervisor.{Supervisor, State}
use silkjam.Supervisor.Commands.{put, start_unit_nowait}
use silkjam.Supervisor.Queries.{Wait, is_starting, is_running, done_stopping, answers, awaits}
use silkjam.Supervisor.Idempotence.{scheduled, starts_cases, start_unit_nowait-twice}
use silkjam.Supervisor.Invariant.{Good, starts, IsConsistent}
use silkjam.Supervisor.Invariant.Calls.{start_unit_nowait-IsConsistent}
use silkjam.Proxy.Forwarding.{Handshake, is_joining}
use silkjam.Proxy.Client.{
  holds, start_mcproc, Client, waited, start_after, mcproc_done_starting, wake, handle_client,
  handle_clients,
}

-- A server that is waited for is not started before.
awaits-start :
    (backend : ℕ) (s : Supervisor) → done_stopping s backend ≡ awaits → start_mcproc backend s ≡ s
unfolding done_stopping start_unit_nowait
awaits-start backend s h = elim (Option-cases (lookup backend s.units)) [
  | inl absent ↦ ground (arith, h, absent)
  | inr (state, e) ↦ ground (arith, h, e)
]

-- What is waited for stays.
pub data Settled (w : Wait) : Type 0 where
  at_once : (stopped : Bool) → w ≡ answers stopped → Settled w
  later : w ≡ awaits → Settled w

Settled-cases : (w : Wait) → Settled w
Settled-cases (answers stopped) = at_once stopped refl
Settled-cases awaits = later refl

scheduled-answers :
    (backend : ℕ) (t : Supervisor) (state : State)
    → done_stopping (put t backend (scheduled state)) backend ≡ answers false
unfolding done_stopping
scheduled-answers backend t state =
    rw (done_stopping, lookup-store backend (scheduled state) t.units) refl

answers-start :
    (backend : ℕ) (s : Supervisor) (stopped : Bool)
    → done_stopping s backend ≡ answers stopped
    → (b : Bool) × (done_stopping (start_mcproc backend s) backend ≡ answers b)
answers-start backend s stopped h = elim (starts_cases s backend) [
  | inl same ↦ (stopped, ap (λ x. done_stopping x backend) same ∙ h)
  | inr (t, state, e) ↦
      (false, ap (λ x. done_stopping x backend) e ∙ scheduled-answers backend t state)
]

abbrev pub woken_after : ℕ → Option (Supervisor → Supervisor) → Supervisor → Wait → Supervisor
woken_after backend meanwhile s (answers stopped) = start_mcproc backend s
woken_after backend none s awaits = s
woken_after backend (some others) s awaits = start_mcproc backend (others s)

-- The server is started once, after the others have worked where it is waited for.
abbrev pub woken : ℕ → Option (Supervisor → Supervisor) → Supervisor → Supervisor
woken backend meanwhile s = woken_after backend meanwhile s (done_stopping s backend)

started-after :
    (backend : ℕ) (meanwhile : Option (Supervisor → Supervisor)) (s : Supervisor) (w : Wait)
    → (start_after backend s (waited meanwhile s w)).1 ≡ woken_after backend meanwhile s w
started-after backend meanwhile s (answers stopped) = refl
started-after backend none s awaits = refl
started-after backend (some others) s awaits = refl

mcproc_done_starting-woken :
    (backend : ℕ) (meanwhile : Option (Supervisor → Supervisor)) (s : Supervisor)
    → (mcproc_done_starting backend meanwhile s).1 ≡ woken backend meanwhile s
unfolding mcproc_done_starting
mcproc_done_starting-woken backend meanwhile s =
    started-after backend meanwhile s (done_stopping s backend)

-- A start before the wait changes nothing.
woken-start :
    (backend : ℕ) (meanwhile : Option (Supervisor → Supervisor)) (s : Supervisor)
    → woken backend meanwhile (start_mcproc backend s) ≡ woken backend meanwhile s
woken-start backend meanwhile s = elim (Settled-cases (done_stopping s backend)) [
  | at_once stopped e ↦
      let (b, e') = answers-start backend s stopped e in
      ap (woken_after backend meanwhile (start_mcproc backend s)) e'
      ∙ start_unit_nowait-twice s backend
      ∙ sym (ap (woken_after backend meanwhile s) e)
  | later e ↦ ap (woken backend meanwhile) (awaits-start backend s e)
]

wake-woken :
    (backend : ℕ) (meanwhile : Option (Supervisor → Supervisor)) (s : Supervisor)
    → (wake backend meanwhile s).1 ≡ woken backend meanwhile s
unfolding wake
wake-woken backend meanwhile s = elim (Bool-cases (holds (is_starting s backend))) [
  | inl starting ↦
      ap
        (λ (b : Bool).
          (mcproc_done_starting backend meanwhile (if b then s else start_mcproc backend s)).1)
        starting
      ∙ mcproc_done_starting-woken backend meanwhile s
  | inr other ↦
      ap
        (λ (b : Bool).
          (mcproc_done_starting backend meanwhile (if b then s else start_mcproc backend s)).1)
        other
      ∙ mcproc_done_starting-woken backend meanwhile (start_mcproc backend s)
      ∙ woken-start backend meanwhile s
]

-- Whether a client wants to join.
abbrev pub joins : Option Handshake → Bool
joins none = false
joins (some handshake) = is_joining handshake

-- What a client makes of the supervisor: nothing, unless it wants to join a server that does not
-- run.
abbrev pub visited : ℕ → Client → Supervisor → Supervisor
visited backend client s =
    if joins client.handshake && not (holds (is_running s backend))
    then woken backend client.meanwhile s
    else s

abbrev pub visited_by : ℕ → List Client → Supervisor → Supervisor
visited_by backend [] s = s
visited_by backend (client ∷ clients) s =
    visited_by backend clients (visited backend client (client.before s))

-- What other tasks do keeps the invariant of the supervisor.
abbrev pub Keeps : (Supervisor → Supervisor) → Type 0
Keeps f = (s : Supervisor) → IsConsistent s → IsConsistent (f s)

abbrev pub KeepsMeanwhile : Option (Supervisor → Supervisor) → Type 0
KeepsMeanwhile none = Unit
KeepsMeanwhile (some f) = Keeps f

abbrev pub AllKeep : List Client → Type 0
AllKeep [] = Unit
AllKeep (client ∷ clients) = Keeps client.before × KeepsMeanwhile client.meanwhile × AllKeep clients

handle_client-visited :
    (backend : ℕ) (client : Client) (s : Supervisor)
    → (handle_client backend client s).1 ≡ visited backend client s
unfolding handle_client
handle_client-visited backend client s = elim (Option-cases client.handshake) [
  | inl silent ↦ ground (arith, silent)
  | inr (h, e) ↦ ground (arith, e, wake-woken backend client.meanwhile s)
]

handle_clients-visited :
    (backend : ℕ) (clients : List Client) (s : Supervisor)
    → handle_clients backend clients s ≡ visited_by backend clients s
unfolding handle_clients
handle_clients-visited backend [] s = refl
handle_clients-visited backend (client ∷ clients) s =
    handle_clients-visited backend clients ((handle_client backend client (client.before s)).1)
    ∙ ap (visited_by backend clients) (handle_client-visited backend client (client.before s))

woken_after-IsConsistent :
    (backend : ℕ) (meanwhile : Option (Supervisor → Supervisor)) (s : Supervisor) (w : Wait)
    → KeepsMeanwhile meanwhile
    → IsConsistent s
    → IsConsistent (woken_after backend meanwhile s w)
woken_after-IsConsistent backend meanwhile s (answers stopped) keeps inv =
    start_unit_nowait-IsConsistent s backend inv
woken_after-IsConsistent backend none s awaits keeps inv = inv
woken_after-IsConsistent backend (some others) s awaits keeps inv =
    start_unit_nowait-IsConsistent (others s) backend (keeps s inv)

visited-IsConsistent :
    (backend : ℕ) (client : Client) (s : Supervisor)
    → KeepsMeanwhile client.meanwhile
    → IsConsistent s
    → IsConsistent (visited backend client s)
visited-IsConsistent backend client s keeps inv =
    elim (Bool-cases (joins client.handshake && not (holds (is_running s backend)))) [
      | inl wakes ↦
          rw (wakes) (
            woken_after-IsConsistent backend client.meanwhile s (done_stopping s backend) keeps inv)
      | inr other ↦ rw (other) inv
    ]

visited_by-IsConsistent :
    (backend : ℕ) (clients : List Client) (s : Supervisor)
    → AllKeep clients
    → IsConsistent s
    → IsConsistent (visited_by backend clients s)
visited_by-IsConsistent backend [] s keeps inv = inv
visited_by-IsConsistent backend (client ∷ clients) s (before, meanwhile, keeps) inv =
    visited_by-IsConsistent backend clients (visited backend client (client.before s)) keeps
      (visited-IsConsistent backend client (client.before s) meanwhile (before s inv))

starts-le_one : (n : ℕ) (state : Option State) → Good n state → n ≤ 1
starts-le_one n none good = omega (arith, good)
starts-le_one n (some state) good = ground (arith, good)

-- Clients come to a proxy one after the other, and other tasks work on the supervisor between them
-- and while a client waits for a server that is stopping, by steps that keep the invariant of the
-- supervisor. Then a client changes the supervisor only if it wants to join a server that does not
-- run, and just as a single call of start_unit_nowait does: at once, or after the wait where the
-- server is to stop, and not at all where the hold timeout ends that wait. The invariant holds at
-- last, and however many clients log in, at most one START of the server is in the queue.
pub handle_clients_lem :
    (backend : ℕ) (clients : List Client) (s : Supervisor)
    → AllKeep clients
    → IsConsistent s
    → (handle_clients backend clients s ≡ visited_by backend clients s)
      × IsConsistent (handle_clients backend clients s)
      × (starts backend ((handle_clients backend clients s).command_queue) ≤ 1)
handle_clients_lem backend clients s keeps inv =
    let e = handle_clients-visited backend clients s in
    let inv' : IsConsistent (handle_clients backend clients s) =
      subst IsConsistent (sym e) (visited_by-IsConsistent backend clients s keeps inv) in
    (e, inv', starts-le_one _ _ (inv' backend))
