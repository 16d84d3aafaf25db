-- ===== src/StatusChecker/Examples.antt =====
-- The theorem on the status checker, at a server that answers once.
use silkjam.Prelude.{List, [], ◌∷◌, ◌≡◌, refl}
use silkjam.StatusChecker.{Answer, fails, taken, run, round, raised, Ends, run_lem}

abbrev answers : List Answer
answers = fails ∷ fails ∷ taken ∷ fails ∷ fails ∷ fails ∷ fails ∷ []

raises : run answers 0 ≡ raised
unfolding run round
raises = refl

run_lem_example : Ends answers 0 (run answers 0)
run_lem_example = run_lem answers
