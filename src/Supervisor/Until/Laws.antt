-- ===== src/Supervisor/Until/Laws.antt =====
-- What holds when the supervise loop returns.
use silkjam.Prelude.{
  ℕ, ◌≤◌, ◌<◌, ◌≡◌, ◌⊎◌, inl, inr, refl, sym, subst, Bool, true, false, not, ◌&&◌, ◌||◌, Option,
  none, some, List, [], ◌∷◌, length, if◌then◌else◌, ◌==◌, Bool-cases, Option-cases, arith,
}
use silkjam.Prelude.Dict.{lookup}
use silkjam.Prelude.Sets.{mem, mem-discard, mem-discard_other}
use silkjam.Supervisor.{Supervisor}
use silkjam.Supervisor.Loop.{
  ReturnWhen, Progress, Done, event_done, task_done, handle_done, handle_all_done, insert,
  add_pending, after_wait, is_met, every,
}
use silkjam.Supervisor.Commands.{handle_command_queue}
use silkjam.Supervisor.Until.{
  Round, Supervision, raised, waiting, returned, before_wait, supervise, to_set, new_progress,
  supervise_until,
}

-- Events are pending unless they are done.
abbrev pub IsSplit : (ℕ → Bool) → Progress → Type 0
IsSplit event p = (e : ℕ) → mem e p.pending_events ≡ (event e && not (mem e p.done_events))

pub mem-insert : (e x : ℕ) (xs : List ℕ) → mem e (insert x xs) ≡ ((e == x) || mem e xs)
unfolding mem
mem-insert e x xs = elim (Bool-cases (e == x)) [
  | inl same ↦ rw (same) refl
  | inr other ↦ ground (arith, other, mem-discard_other e x xs)
]

handle_done-IsSplit :
    (event : ℕ → Bool) (s : Supervisor) (p : Progress) (d : Done)
    → IsSplit event p
    → IsSplit event (handle_done (s, p) d).1
unfolding handle_done
handle_done-IsSplit event s p (task_done task result) split = λ e.
    elim (Option-cases (lookup task s.running_unit_tasks)) [
      | inl unknown ↦ rw (handle_done, unknown) (split e)
      | inr (unit, known) ↦ rw (handle_done, known) (split e)
    ]
handle_done-IsSplit event s p (event_done x) split = λ e. elim (Bool-cases (e == x)) [
  | inl same ↦ ground (arith, same, mem-discard e p.pending_events, mem-insert e x p.done_events)
  | inr other ↦
      ground (
        arith,
        other,
        split e,
        mem-discard_other e x p.pending_events,
        mem-insert e x p.done_events,
      )
]

handle_all_done-IsSplit :
    (event : ℕ → Bool) (ds : List Done) (s : Supervisor) (p : Progress)
    → IsSplit event p
    → IsSplit event (handle_all_done (s, p) ds).1
unfolding handle_all_done
handle_all_done-IsSplit event [] s p split = split
handle_all_done-IsSplit event (d ∷ ds) s p split =
    let sp = handle_done (s, p) d in
    handle_all_done-IsSplit event ds sp.0 sp.1 (handle_done-IsSplit event s p d split)

to_set-IsSplit : (events : List ℕ) (e : ℕ) → mem e (to_set events) ≡ mem e events
unfolding mem
to_set-IsSplit [] e = refl
to_set-IsSplit (x ∷ events) e =
    ground (arith, mem-insert e x (to_set events), to_set-IsSplit events e)

-- What the loop returns: the condition is met, and a unit with a task is pending.
pub record IsSettled (return_when : ReturnWhen) (event : ℕ → Bool) (s : Supervisor) (p : Progress)
    : Type 0 where
  pub met : is_met return_when p ≡ true
  pub split : IsSplit event p
  pub others : List ℕ
  pub pending : p.pending_units ≡ add_pending s.running_unit_tasks others

-- What is returned of fewer than `n` rounds to come.
abbrev pub SettledIn : ReturnWhen → (ℕ → Bool) → ℕ → Supervision (Supervisor × Progress) → Type 0
SettledIn return_when event n raised = Unit
SettledIn return_when event n waiting = Unit
SettledIn return_when event n (returned (s, p) rest) =
    IsSettled return_when event s p × (length rest < n)

-- A round raises, or goes on with some sets.
record GoesOn (return_when : ReturnWhen) (event : ℕ → Bool)
    (outcome : Option ((Supervisor × Progress) × Bool)) : Type 0 where
  s : Supervisor
  p : Progress
  others : List ℕ
  goes : outcome ≡ some ((s, p), is_met return_when p)
  split : IsSplit event p
  pending : p.pending_units ≡ add_pending s.running_unit_tasks others

after_wait_outcomes :
    (return_when : ReturnWhen) (event : ℕ → Bool) (s : Supervisor) (p : Progress) (commanded : Bool)
    (done : List Done)
    → IsSplit event p
    → (after_wait return_when (s, p) commanded done ≡ none)
      ⊎ GoesOn return_when event (after_wait return_when (s, p) commanded done)
unfolding after_wait
after_wait_outcomes return_when event s p commanded done split =
    let unlocked = record s { locked = false } in
    elim (Option-cases (if commanded then handle_command_queue every unlocked else some unlocked)) [
      | inl fails ↦ inl (rw (after_wait, fails) refl)
      | inr (s', handled) ↦
          let (s'', q) = handle_all_done (s', p) done in
          let q' : Progress = record q {
            pending_units = add_pending s''.running_unit_tasks q.pending_units;
          } in
          inr (record {
            s = s'';
            p = q';
            others = q.pending_units;
            goes = rw (after_wait, handled) refl;
            split = handle_all_done-IsSplit event done s' p split;
            pending = refl;
          })
    ]

supervise-SettledIn :
    (return_when : ReturnWhen) (event : ℕ → Bool) (n : ℕ) (rounds : List Round) (s : Supervisor)
    (p : Progress)
    → length rounds ≤ n
    → IsSplit event p
    → SettledIn return_when event n (supervise return_when rounds (s, p))
unfolding supervise
supervise-SettledIn return_when event n [] s p few split = tt
supervise-SettledIn return_when event n (r ∷ rounds) s p few split =
    elim (after_wait_outcomes return_when event (r.meanwhile (before_wait s)) p r.commanded r.done
      split) [
        | inl fails ↦
            let goes : supervise return_when (r ∷ rounds) (s, p) ≡ raised =
              rw (supervise, fails) refl in
            subst (λ o. SettledIn return_when event n o) (sym goes) tt
        | inr next ↦ elim (Bool-cases (is_met return_when next.p)) [
          | inl met ↦
              let goes : supervise return_when (r ∷ rounds) (s, p)
                  ≡ returned (next.s, next.p) rounds =
                rw (supervise, next.goes, met) refl in
              subst (λ o. SettledIn return_when event n o) (sym goes)
                (
                  record {
                    met = met;
                    split = next.split;
                    others = next.others;
                    pending = next.pending;
                  },
                  omega (arith, few),
                )
          | inr unmet ↦
              let goes : supervise return_when (r ∷ rounds) (s, p)
                  ≡ supervise return_when rounds (next.s, next.p) =
                rw (supervise, next.goes, unmet) refl in
              subst (λ o. SettledIn return_when event n o) (sym goes)
                (supervise-SettledIn return_when event n rounds next.s next.p (omega (arith, few))
                  next.split)
        ]
      ]

pub supervise_until-SettledIn :
    (events : List ℕ) (return_when : ReturnWhen) (rounds : List Round) (s : Supervisor)
    → SettledIn return_when
        (λ e. mem e events)
        (length rounds)
        (supervise_until events return_when rounds s)
unfolding supervise_until mem
supervise_until-SettledIn events return_when rounds s =
    supervise-SettledIn return_when (λ e. mem e events) (length rounds) rounds s
      (new_progress events s) (omega arith) (λ e. ground (arith, to_set-IsSplit events e))

pub mem-add_pending_old :
    (unit : ℕ) (tasks : List (ℕ × ℕ)) (units : List ℕ)
    → mem unit units ≡ true
    → mem unit (add_pending tasks units) ≡ true
unfolding add_pending
mem-add_pending_old unit [] units h = h
mem-add_pending_old unit ((task, u) ∷ tasks) units h =
    mem-add_pending_old unit tasks (insert u units) (ground (arith, h, mem-insert unit u units))

pub mem-add_pending :
    (task unit : ℕ) (tasks : List (ℕ × ℕ)) (units : List ℕ)
    → lookup task tasks ≡ some unit
    → mem unit (add_pending tasks units) ≡ true
unfolding add_pending lookup mem
mem-add_pending task unit [] units h = ground (arith, h)
mem-add_pending task unit ((t, u) ∷ tasks) units h = elim (Bool-cases (task == t)) [
  | inl same ↦
      mem-add_pending_old unit tasks (insert u units)
        (ground (arith, same, h, mem-insert unit u units))
  | inr other ↦ mem-add_pending task unit tasks (insert u units) (ground (arith, other, h))
]
