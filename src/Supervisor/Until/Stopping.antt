-- ===== src/Supervisor/Until/Stopping.antt =====
-- What `_stop` leaves, and how many calls of `supervise_until` wait for an event.
use silkjam.Prelude.{
  ℕ, zero, suc, ◌<◌, ◌≡◌, inl, inr, refl, sym, subst, ap, ◌∙◌, Bool, true, ◌&&◌, List, [], ◌∷◌,
  length, Bool-cases, Option-cases, arith,
}
use silkjam.Prelude.Sets.{mem}
use silkjam.Supervisor.{Supervisor}
use silkjam.Supervisor.Loop.{
  all_units, first_event_or_unit, Progress, insert, add_pending, is_met, none_left,
}
use silkjam.Supervisor.Until.{
  Round, Supervision, raised, waiting, returned, supervise_until, supervisor_of, stop_all,
  stop_supervisor, supervise_until_event, continue_with, verdict,
}
use silkjam.Supervisor.Until.Laws.{SettledIn, supervise_until-SettledIn}

-- No unit is pending only where no unit has a task.
add_pending-none :
    (tasks : List (ℕ × ℕ)) (units : List ℕ)
    → none_left (add_pending tasks units) ≡ true
    → (tasks ≡ []) × (none_left units ≡ true)
unfolding add_pending
add_pending-none [] units h = (refl, h)
add_pending-none ((task, unit) ∷ tasks) units h =
    absurd (ground (arith, (add_pending-none tasks (insert unit units) h).1))

abbrev IdleIn : Supervision Supervisor → Type 0
IdleIn raised = Unit
IdleIn waiting = Unit
IdleIn (returned s rest) = s.running_unit_tasks ≡ []

nothing_left {ℓ} : {A : Type ℓ} (xs : List A) → none_left xs ≡ true → xs ≡ []
nothing_left [] h = refl
nothing_left (x ∷ xs) h = absurd (ground (arith, h))

supervisor_of-IdleIn :
    (event : ℕ → Bool) (n : ℕ) (o : Supervision (Supervisor × Progress))
    → SettledIn all_units event n o
    → IdleIn (supervisor_of o)
unfolding is_met
supervisor_of-IdleIn event n raised h = tt
supervisor_of-IdleIn event n waiting h = tt
supervisor_of-IdleIn event n (returned (s, p) rest) h =
    (add_pending-none s.running_unit_tasks h.0.others (sym (ap none_left h.0.pending) ∙ h.0.met)).0

stop_supervisor-IdleIn : (rounds : List Round) (s : Supervisor) → IdleIn (stop_supervisor rounds s)
unfolding stop_supervisor
stop_supervisor-IdleIn rounds s =
    let s' = stop_all s.units s in
    elim (Bool-cases (none_left s'.running_unit_tasks && none_left s'.command_queue)) [
      | inl idle ↦
          let goes : stop_supervisor rounds s ≡ returned s' rounds =
            rw (stop_supervisor, idle) refl in
          subst (λ o. IdleIn o) (sym goes)
            (nothing_left s'.running_unit_tasks (ground (arith, idle)))
      | inr busy ↦
          let goes : stop_supervisor rounds s
              ≡ supervisor_of (supervise_until [] all_units rounds s') =
            rw (stop_supervisor, busy) refl in
          subst (λ o. IdleIn o) (sym goes)
            (supervisor_of-IdleIn (λ e. mem e []) (length rounds)
              (supervise_until [] all_units rounds s')
              (supervise_until-SettledIn [] all_units rounds s'))
    ]

-- When `_stop` has got as far as to leave the context, no unit has a task any more.
pub stop_supervisor-idle :
    (rounds rest : List Round) (s s' : Supervisor)
    → stop_supervisor rounds s ≡ returned s' rest
    → s'.running_unit_tasks ≡ []
stop_supervisor-idle rounds rest s s' e = subst (λ o. IdleIn o) e (stop_supervisor-IdleIn rounds s)

continue_with-same :
    (event : ℕ → Bool) (n unit e : ℕ)
    (loop loop' : List Round → Supervisor → Supervision (Bool × Supervisor))
    → ((rest : List Round) (s : Supervisor) → length rest < n → loop rest s ≡ loop' rest s)
    → (o : Supervision (Supervisor × Progress)) → SettledIn first_event_or_unit event n o
    → continue_with loop unit e o ≡ continue_with loop' unit e o
continue_with-same event n unit e loop loop' same raised h = refl
continue_with-same event n unit e loop loop' same waiting h = refl
continue_with-same event n unit e loop loop' same (returned (s, p) rest) h =
    elim (Option-cases (verdict unit e p)) [
      | inl open_ ↦ rw (continue_with, open_) (same rest s h.1)
      | inr (answer, given) ↦ rw (continue_with, given) refl
    ]

-- More calls than there are rounds change nothing.
pub calls_suffice :
    (fuel more unit e : ℕ) (rounds : List Round) (s : Supervisor)
    → length rounds < fuel
    → length rounds < more
    → supervise_until_event fuel unit e rounds s ≡ supervise_until_event more unit e rounds s
unfolding supervise_until_event
calls_suffice zero more unit e rounds s h k = absurd (omega (arith, h))
calls_suffice (suc fuel) zero unit e rounds s h k = absurd (omega (arith, k))
calls_suffice (suc fuel) (suc more) unit e rounds s h k =
    continue_with-same (λ x. mem x (e ∷ [])) (length rounds) unit e
      (supervise_until_event fuel unit e) (supervise_until_event more unit e)
      (λ rest s' fewer.
        calls_suffice fuel more unit e rest s' (omega (arith, h, fewer)) (omega (arith, k, fewer)))
      (supervise_until (e ∷ []) first_event_or_unit rounds s)
      (supervise_until-SettledIn (e ∷ []) first_event_or_unit rounds s)
