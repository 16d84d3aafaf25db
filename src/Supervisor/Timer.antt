-- ===== src/Supervisor/Timer.antt =====
-- `Timer` of app/backend/supervisor/timer.py. Times are whole numbers of some small unit, where
-- the source has floats; `now` is what `time.perf_counter()` returns.
use silkjam.Prelude.{ℕ, Bool, true, false, Option, none, some, ◌≡◌, ap, arith, ltb}
use silkjam.Prelude.Int.{ℤ, pos_part, ◌+ℤ◌, ◌-ℤ◌, +ℤ_parts, -ℤ_parts, eq_of_parts}

pub record Timer : Type 0 where
  pub timeout : Option ℤ
  pub start_time : ℤ
  pub timeout_changed : Bool
  pub remaining_changed : Bool

abbrev pub set_timeout : Option ℤ → Timer → Timer
set_timeout value timer = record timer { timeout_changed = true; timeout = value }

-- `max(_start_time + timeout - now, 0)`
unfoldable pub remaining : ℤ → Timer → Option ℕ
remaining now timer = elim timer.timeout [
  | none ↦ none
  | some timeout ↦ some (pos_part ((timer.start_time +ℤ timeout) -ℤ now))
]

unfoldable pub set_remaining : ℤ → ℤ → Timer → Timer
set_remaining now value timer = elim timer.timeout [
  | none ↦ timer
  | some timeout ↦ record timer { remaining_changed = true; start_time = (value -ℤ timeout) +ℤ now }
]

unfoldable pub reset : ℤ → Timer → Timer
unfolding set_remaining
reset now timer = elim timer.timeout [
  | none ↦ timer
  | some timeout ↦ set_remaining now timeout timer
]

abbrev pub start : ℤ → Timer → Timer
start now timer = record timer { start_time = now }

-- Whether `run` waits once more.
abbrev pub waits : ℤ → Timer → Bool
waits now timer = elim (remaining now timer) [ none ↦ true | some left ↦ ltb 0 left ]

-- What the loop does after it waited without a timeout: both events are cleared.
abbrev pub clear_events : Timer → Timer
clear_events timer = record timer { timeout_changed = false; remaining_changed = false }

-- The remaining time that is set counts down from then on, with 0 as the end.
counts_down :
    (now later value timeout : ℤ)
    → (((value -ℤ timeout) +ℤ now) +ℤ timeout) -ℤ later ≡ value -ℤ (later -ℤ now)
counts_down now later value timeout =
    let a = value -ℤ timeout in
    let b = a +ℤ now in
    let c = b +ℤ timeout in
    eq_of_parts (c -ℤ later) (value -ℤ (later -ℤ now)) (
      omega (
        arith,
        -ℤ_parts value timeout,
        +ℤ_parts a now,
        +ℤ_parts b timeout,
        -ℤ_parts c later,
        -ℤ_parts later now,
        -ℤ_parts value (later -ℤ now),
      ))

left_of :
    (now later value timeout : ℤ) (timer : Timer)
    → timer.timeout ≡ some timeout
    → remaining later (set_remaining now value timer) ≡ some (pos_part (value -ℤ (later -ℤ now)))
unfolding remaining set_remaining
left_of now later value timeout timer e =
    let set : set_remaining now value timer
        ≡ record timer { remaining_changed = true; start_time = (value -ℤ timeout) +ℤ now } =
      ground (arith, e) in
    rw set (rw (remaining, e) (ap (λ x. some (pos_part x)) (counts_down now later value timeout)))

-- For a timer with a timeout: after the remaining time was set, and after a reset, which sets it
-- to the timeout, what remains is that time less the time that has passed since, and at least 0.
pub remaining-set_remaining :
    (now later value timeout : ℤ) (timer : Timer)
    → timer.timeout ≡ some timeout
    → (remaining later (set_remaining now value timer) ≡ some (pos_part (value -ℤ (later -ℤ now))))
      × (remaining later (reset now timer) ≡ some (pos_part (timeout -ℤ (later -ℤ now))))
unfolding reset
remaining-set_remaining now later value timeout timer e =
    let same : reset now timer ≡ set_remaining now timeout timer = ground (arith, e) in
    (left_of now later value timeout timer e, rw same (left_of now later timeout timeout timer e))
