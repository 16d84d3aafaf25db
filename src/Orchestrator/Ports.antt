-- ===== src/Orchestrator/Ports.antt =====
-- Which port `acquire_port` finds.
use silkjam.Prelude.{
  ℕ, zero, suc, ◌+◌, ◌-◌, ◌≤◌, ◌<◌, ◌≡◌, sym, subst, ◌∙◌, ◌≢◌, true, false, Option, none, some,
  List, ◌∷◌, ◌++◌, arith, inl, inr, Bool-cases, Option-cases, ==_refl,
}
use silkjam.Prelude.Sets.{mem, discard, mem-append, mem-discard, mem-discard_other}
use silkjam.Orchestrator.{first_available, acquire_port, release_port}
use native.Mathlib.Decide.{ℕ_discrete}

-- What it means that a search of the ports p, …, p + count - 1 ends with a result.
abbrev pub Finds : ℕ → ℕ → List ℕ → Option ℕ → Type 0
Finds count p unavailable none = (q : ℕ) → p ≤ q → q < p + count → mem q unavailable ≡ true
Finds count p unavailable (some port) =
    (p ≤ port)
    × (port < p + count)
    × (mem port unavailable ≡ false)
    × ((q : ℕ) → p ≤ q → q < port → mem q unavailable ≡ true)

next_Finds :
    (count p : ℕ) (unavailable : List ℕ) (found : Option ℕ)
    → mem p unavailable ≡ true
    → Finds count (suc p) unavailable found
    → Finds (suc count) p unavailable found
next_Finds count p unavailable none taken rest = λ q le lt. elim (ℕ_discrete q p) [
  | yes same ↦ rw same taken
  | no other ↦ rest q (omega (arith, other)) (omega arith)
]
next_Finds count p unavailable (some port) taken (le, lt, free, below) = (
  omega arith,
  omega arith,
  free,
  λ q l h. elim (ℕ_discrete q p) [
    | yes same ↦ rw same taken
    | no other ↦ below q (omega (arith, other)) h
  ],
)

first_available-Finds :
    (count p : ℕ) (unavailable : List ℕ)
    → Finds count p unavailable (first_available count p unavailable)
unfolding first_available
first_available-Finds zero p unavailable = λ q le lt. absurd (omega arith)
first_available-Finds (suc count) p unavailable = elim (Bool-cases (mem p unavailable)) [
  | inr free ↦ rw free (omega arith, omega arith, free, λ q l h. absurd (omega arith))
  | inl taken ↦ rw taken (
      next_Finds count p unavailable (first_available count (suc p) unavailable) taken
        (first_available-Finds count (suc p) unavailable))
]

-- What entering `acquire_port` leads to, for the range lo, …, hi.
abbrev pub Acquires : ℕ → ℕ → List ℕ → List ℕ → Option (ℕ × List ℕ) → Type 0
Acquires lo hi acquired reserved none =
    (q : ℕ) → lo ≤ q → q ≤ hi → mem q (acquired ++ reserved) ≡ true
Acquires lo hi acquired reserved (some (port, acquired')) =
    (lo ≤ port)
    × (port ≤ hi)
    × (mem port (acquired ++ reserved) ≡ false)
    × ((q : ℕ) → lo ≤ q → q < port → mem q (acquired ++ reserved) ≡ true)
    × (mem port acquired' ≡ true)
    × ((q : ℕ) → q ≢ port → mem q acquired' ≡ mem q acquired)
    × ((q : ℕ) → mem q (release_port port acquired') ≡ mem q acquired)

released :
    (port : ℕ) (acquired : List ℕ) (q : ℕ)
    → mem port acquired ≡ false
    → mem q (release_port port (port ∷ acquired)) ≡ mem q acquired
unfolding release_port discard
released port acquired q h = elim (ℕ_discrete q port) [
  | yes same ↦ rw (same, ==_refl port) (mem-discard port acquired ∙ sym h)
  | no other ↦ rw (==_refl port) (mem-discard_other q port acquired other)
]

-- Entering `acquire_port` takes the lowest port of the range that is neither acquired nor reserved
-- for a proxy, and fails exactly where there is none; leaving it restores the acquired ports.
pub acquire_port_lem :
    (lo hi : ℕ) (acquired reserved : List ℕ)
    → Acquires lo hi acquired reserved (acquire_port lo hi acquired reserved)
unfolding acquire_port mem
acquire_port_lem lo hi acquired reserved =
    elim (Option-cases (first_available (suc hi - lo) lo (acquired ++ reserved))) [
      | inl nothing ↦
          rw (acquire_port, nothing)
            (λ q le ge.
              subst (Finds (suc hi - lo) lo (acquired ++ reserved)) nothing
                (first_available-Finds (suc hi - lo) lo (acquired ++ reserved)) q le (omega arith))
      | inr (port, e) ↦
          let (le, lt, free, below) =
            subst (Finds (suc hi - lo) lo (acquired ++ reserved)) e
              (first_available-Finds (suc hi - lo) lo (acquired ++ reserved)) in
          rw (acquire_port, e)
            (
              le,
              omega arith,
              free,
              below,
              ground (arith, ==_refl port),
              λ q other. ground (arith, other),
              λ q.
                  released port acquired q
                    (ground (arith, mem-append port acquired reserved, free)),
            )
    ]
