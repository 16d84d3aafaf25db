-- ===== src/Supervisor/Idempotence.antt =====
-- Starting a unit again, before the supervisor takes up the command, changes nothing.
use silkjam.Prelude.{
  ℕ, ◌≡◌, refl, ap, Bool, true, false, ◌⊎◌, if◌then◌else◌, arith, Bool-cases, Option-cases, inl,
  inr,
}
use silkjam.Prelude.Dict.{lookup, lookup-store, store-same}
use silkjam.Supervisor.{
  ready, entering, running, exiting, stopped, Status, State, Supervisor, start,
}
use silkjam.Supervisor.Commands.{put, enqueue, start_unit_nowait}

-- A unit whose START is pending.
abbrev pub scheduled : State → State
scheduled state = record state { status = ready; pending_start = true; pending_stop = false }

again :
    (s : Supervisor) (unit : ℕ) (state : State)
    → (start_unit_nowait (put s unit (scheduled state)) unit).1 ≡ put s unit (scheduled state)
unfolding start_unit_nowait
again s unit state =
    rw (start_unit_nowait, lookup-store unit (scheduled state) s.units)
      (ap (λ units. record s { units = units }) (store-same unit (scheduled state) s.units))

-- Starting a unit leaves the supervisor as it is, or stores it with its START pending.
abbrev pub Starts : Supervisor → ℕ → Supervisor → Type 0
Starts s unit s' =
    (s' ≡ s) ⊎ ((t : Supervisor) × (state : State) × (s' ≡ put t unit (scheduled state)))

idle :
    (s : Supervisor) (unit : ℕ) (state : State)
    → state.pending_stop ≡ false
    → Starts s unit (
        if state.pending_start
        then put s unit (record state { status = ready })
        else put
            (enqueue s start unit)
            unit
            (record state { status = ready; pending_start = true }))
idle s unit state e = elim (Bool-cases state.pending_start) [
  | inl pending ↦ inr (s, state, rw (pending, e) refl)
  | inr not_pending ↦ inr (enqueue s start unit, state, rw (not_pending, e) refl)
]

by_status :
    (s : Supervisor) (unit : ℕ) (s' : Supervisor)
    → Starts s unit s'
    → (status : Status)
    → Starts s unit (
        (elim status as (λ x. Bool × Supervisor) [
          | ready ↦ (true, s')
          | stopped ↦ (true, s')
          | entering ↦ (true, s)
          | running ↦ (true, s)
          | exiting ↦ (false, s)
        ]).1)
by_status s unit s' h ready = h
by_status s unit s' h stopped = h
by_status s unit s' h entering = inl refl
by_status s unit s' h running = inl refl
by_status s unit s' h exiting = inl refl

pub starts_cases : (s : Supervisor) (unit : ℕ) → Starts s unit ((start_unit_nowait s unit).1)
unfolding start_unit_nowait
starts_cases s unit = elim (Option-cases (lookup unit s.units)) [
  | inl unknown ↦ inl (rw (start_unit_nowait, unknown) refl)
  | inr (state, e) ↦ elim (Bool-cases state.pending_stop) [
    | inl stopping ↦ inl (ground (arith, e, stopping))
    | inr e' ↦
        rw (start_unit_nowait, e, e') (by_status s unit _ (idle s unit state e') state.status)
  ]
]

pub start_unit_nowait-twice :
    (s : Supervisor) (unit : ℕ)
    → (start_unit_nowait ((start_unit_nowait s unit).1) unit).1 ≡ (start_unit_nowait s unit).1
start_unit_nowait-twice s unit = elim (starts_cases s unit) [
  | inl same ↦ ap (λ x. (start_unit_nowait x unit).1) same
  | inr (t, state, e) ↦ rw e (again t unit state)
]
