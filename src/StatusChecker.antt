-- ===== src/StatusChecker.antt =====
-- `MCStatusChecker.run` of app/backend/core/status_checker.py: each time the timer ends the server
-- is asked, which fails or answers; an answer goes to the callback, which may raise.
mod Examples
use silkjam.Prelude.{
  ℕ, zero, suc, ◌+◌, ◌≤◌, ◌<◌, ◌≡◌, refl, ◌⊎◌, inl, inr, Bool, true, false, List, [], ◌∷◌, ◌++◌,
  replicate, ltb, if◌then◌else◌, arith, max,
}

abbrev pub max_retries : ℕ
max_retries = 3

-- What comes of a request: no answer, or an answer that the callback takes (as it does where there
-- is none) or raises on.
pub data Answer : Type 0 where
  fails taken refused : Answer

-- Whether the loop goes on, with its count of failures, or raised an exception.
pub data Run : Type 0 where
  goes_on : ℕ → Run
  raised : Run

-- One round.
unfoldable pub round : Answer → ℕ → Run
round taken retry_count = goes_on 0
round refused retry_count = raised
round fails retry_count =
    if ltb max_retries (suc retry_count) then raised else goes_on (suc retry_count)

unfoldable pub run : List Answer → ℕ → Run
unfolding round
run [] retry_count = goes_on retry_count
run (answer ∷ more) retry_count = elim (round answer retry_count) [
  | goes_on count ↦ run more count
  | raised ↦ raised
]

-- The longest row of failures, where `n` came right before.
unfoldable pub longest : List Answer → ℕ → ℕ
longest [] n = n
longest (taken ∷ more) n = max n (longest more 0)
longest (refused ∷ more) n = max n (longest more 0)
longest (fails ∷ more) n = longest more (suc n)

-- Whether the callback raises on one of the answers.
unfoldable pub any_refused : List Answer → Bool
any_refused [] = false
any_refused (taken ∷ more) = any_refused more
any_refused (refused ∷ more) = true
any_refused (fails ∷ more) = any_refused more

le-longest : (answers : List Answer) (n : ℕ) → n ≤ longest answers n
unfolding longest
le-longest [] n = omega arith
le-longest (taken ∷ more) n = omega arith
le-longest (refused ∷ more) n = omega arith
le-longest (fails ∷ more) n = omega (arith, le-longest more (suc n))

-- What a run from `n` failures in a row ends with.
abbrev pub Ends : List Answer → ℕ → Run → Type 0
Ends answers n raised = (4 ≤ longest answers n) ⊎ (any_refused answers ≡ true)
Ends answers n (goes_on count) = (longest answers n ≤ 3) × (any_refused answers ≡ false)

run-Ends : (answers : List Answer) (n : ℕ) → n ≤ 3 → Ends answers n (run answers n)
unfolding run round longest any_refused
run-Ends [] n h = (h, refl)
run-Ends (taken ∷ more) n h = ground (arith, run-Ends more 0)
run-Ends (refused ∷ more) n h = inr refl
run-Ends (fails ∷ more) n h = ground (arith, run-Ends more (suc n), le-longest more (suc n))

-- The status checker raises exactly if the server fails to answer four times in a row or the
-- callback raises on an answer.
pub run_lem : (answers : List Answer) → Ends answers 0 (run answers 0)
run_lem answers = run-Ends answers 0 (omega arith)
