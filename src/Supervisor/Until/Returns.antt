-- ===== src/Supervisor/Until/Returns.antt =====
-- What each return condition of the supervise loop promises.
use silkjam.Prelude.{
  ℕ, ◌≡◌, ◌⊎◌, inl, inr, refl, sym, subst, ap, ◌∙◌, Bool, true, false, not, ◌&&◌, Option, List, [],
  ◌∷◌, length, ◌==◌, Bool-cases, arith,
}
use silkjam.Prelude.Dict.{lookup}
use silkjam.Prelude.Sets.{mem}
use silkjam.Supervisor.{Supervisor, Raised}
use silkjam.Supervisor.Commands.{is_some}
use silkjam.Supervisor.Loop.{
  ReturnWhen, first_event, first_unit, first_event_or_unit, all_events, all_units,
  all_events_and_units, Progress, insert, is_met, none_left, add_pending,
}
use silkjam.Supervisor.Until.{Round, returned, supervise_until}
use silkjam.Supervisor.Until.Laws.{
  IsSplit, IsSettled, SettledIn, supervise_until-SettledIn, mem-add_pending, mem-add_pending_old,
  mem-insert,
}

-- Whether all of some numbers are in a set.
abbrev pub all_in : List ℕ → List ℕ → Bool
all_in [] set = true
all_in (x ∷ xs) set = mem x set && all_in xs set

abbrev pub units_of : List (ℕ × ℕ) → List ℕ
units_of [] = []
units_of ((task, unit) ∷ tasks) = unit ∷ units_of tasks

abbrev pub HasEvent : Progress → Type 0
HasEvent p = (event : ℕ) × (mem event p.done_events ≡ true)

abbrev pub HasUnit : Progress → Type 0
HasUnit p = (unit : ℕ) × (is_some (lookup unit p.done_units) ≡ true)

-- What the caller waits for: an event or a unit that is done, every event that was given, or that
-- no unit has a task.
abbrev pub Promised : ReturnWhen → List ℕ → Supervisor → Progress → Type 0
Promised first_event events s p = HasEvent p
Promised first_unit events s p = HasUnit p
Promised first_event_or_unit events s p = HasEvent p ⊎ HasUnit p
Promised all_events events s p = all_in events p.done_events ≡ true
Promised all_units events s p = s.running_unit_tasks ≡ []
Promised all_events_and_units events s p =
    (all_in events p.done_events ≡ true) × (s.running_unit_tasks ≡ [])

event_in : (done : List ℕ) → not (none_left done) ≡ true → (event : ℕ) × (mem event done ≡ true)
unfolding mem
event_in [] h = absurd (ground arith)
event_in (x ∷ xs) h = (x, ground arith)

unit_in :
    (done : List (ℕ × Option Raised))
    → not (none_left done) ≡ true
    → (unit : ℕ) × (is_some (lookup unit done) ≡ true)
unfolding lookup
unit_in [] h = absurd (ground arith)
unit_in ((unit, result) ∷ done) h = (unit, ground arith)

all_in-mem :
    (xs set : List ℕ) → ((x : ℕ) → mem x xs ≡ true → mem x set ≡ true) → all_in xs set ≡ true
unfolding mem
all_in-mem [] set h = refl
all_in-mem (x ∷ xs) set h =
    let here : mem x set ≡ true = h x (ground arith) in
    let later : all_in xs set ≡ true = all_in-mem xs set (λ y m. h y (ground (arith, m))) in
    ground (arith, here, later)

no_pending : (pending : List ℕ) (x : ℕ) → none_left pending ≡ true → mem x pending ≡ false
unfolding mem
no_pending [] x h = refl
no_pending (y ∷ ys) x h = absurd (ground arith)

no_tasks :
    (tasks : List (ℕ × ℕ)) (others : List ℕ)
    → none_left (add_pending tasks others) ≡ true
    → tasks ≡ []
unfolding lookup
no_tasks [] others h = refl
no_tasks ((task, unit) ∷ tasks) others h = absurd (
    ground (
      arith,
      no_pending (add_pending ((task, unit) ∷ tasks) others) unit h,
      mem-add_pending task unit ((task, unit) ∷ tasks) others (ground arith),
    ))

mem-units_of :
    (unit : ℕ) (tasks : List (ℕ × ℕ)) (units : List ℕ)
    → mem unit (units_of tasks) ≡ true
    → mem unit (add_pending tasks units) ≡ true
unfolding mem add_pending
mem-units_of unit [] units h = absurd (ground arith)
mem-units_of unit ((task, u) ∷ tasks) units h = elim (Bool-cases (unit == u)) [
  | inl same ↦
      mem-add_pending_old unit tasks (insert u units)
        (ground (arith, same, mem-insert unit u units))
  | inr other ↦ mem-units_of unit tasks (insert u units) (ground (arith, h, other))
]

module _ (events : List ℕ) (s : Supervisor) (p : Progress) where
  all_events_done :
      IsSplit (λ e. mem e events) p
      → none_left p.pending_events ≡ true
      → all_in events p.done_events ≡ true
  all_events_done split h =
      all_in-mem events p.done_events
        λ e m. ground (arith, m, split e, no_pending p.pending_events e h)

  no_task_left :
      (others : List ℕ)
      → p.pending_units ≡ add_pending s.running_unit_tasks others
      → none_left p.pending_units ≡ true
      → s.running_unit_tasks ≡ []
  no_task_left others e h = no_tasks s.running_unit_tasks others (ap none_left (sym e) ∙ h)

  Promised-met :
      (return_when : ReturnWhen)
      → IsSettled return_when (λ e. mem e events) s p
      → Promised return_when events s p
  unfolding is_met
  Promised-met first_event settled = event_in p.done_events settled.met
  Promised-met first_unit settled = unit_in p.done_units settled.met
  Promised-met first_event_or_unit settled = elim (Bool-cases (none_left p.done_events)) [
    | inl no_event ↦ inr (unit_in p.done_units (ground (arith, no_event, settled.met)))
    | inr event ↦ inl (event_in p.done_events (ground (arith, event)))
  ]
  Promised-met all_events settled = all_events_done settled.split settled.met
  Promised-met all_units settled = no_task_left settled.others settled.pending settled.met
  Promised-met all_events_and_units settled = (
    all_events_done settled.split (ground (arith, settled.met)),
    no_task_left settled.others settled.pending (ground (arith, settled.met)),
  )

-- When `_supervise_until` returns, what its condition promises has come: an event or a unit is
-- done, or every event that was given, or no unit has a task. The events that were given are
-- divided into those that are done and those that are pending, and each unit with a task is
-- pending.
pub supervise_until_lem :
    (events : List ℕ) (return_when : ReturnWhen) (rounds rest : List Round) (s s' : Supervisor)
    (p : Progress) (event : ℕ)
    → supervise_until events return_when rounds s ≡ returned (s', p) rest
    → Promised return_when events s' p
      × (mem event p.pending_events ≡ (mem event events && not (mem event p.done_events)))
      × (all_in (units_of s'.running_unit_tasks) p.pending_units ≡ true)
supervise_until_lem events return_when rounds rest s s' p event e =
    let (settled, fewer) =
      subst (λ o. SettledIn return_when (λ e. mem e events) (length rounds) o) e
        (supervise_until-SettledIn events return_when rounds s) in
    (
      Promised-met events s' p return_when settled,
      settled.split event,
      all_in-mem (units_of s'.running_unit_tasks) p.pending_units
          λ u m. ap (mem u) settled.pending ∙ mem-units_of u s'.running_unit_tasks settled.others m,
    )
