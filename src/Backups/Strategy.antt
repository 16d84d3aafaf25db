-- ===== src/Backups/Strategy.antt =====
-- `to_nearest` and `get_stale_backups` of app/backend/utils/backup_strategies.py, with the base 2
-- that the callers leave at its default. Divisions and logarithms are exact: Python computes them
-- on floats, which agree for the play times of a world (below 2^52 ticks) and fewer than 1024 bins;
-- with more bins it raises OverflowError, which is not modelled.
pub mod Bins
pub mod Total
pub mod Single
use silkjam.Prelude.{
  ℕ, zero, suc, ◌+◌, ◌-◌, ◌*◌, ◌/◌, ◌^◌, min, Bool, true, false, ◌&&◌, ◌||◌, Option, none, some,
  List, [], ◌∷◌, reverse, length, get_elem?, replicate, ltb, leb, ◌==◌, if◌then◌else◌,
}
use silkjam.Prelude.Int.{ℤ, pos, negsuc, pos_part, sub_ℕ, floor_div, ◌+ℤ◌, ◌-ℤ◌, ltb_ℤ, leb_ℤ}
use mathlib.Core.Logic.{ite}

-- `x * d` for a number `d`.
abbrev pub scale : ℤ → ℕ → ℤ
scale (pos n) d = pos (n * d)
scale (negsuc n) d = sub_ℕ 0 (suc n * d)

-- The next multiple of `d` above `x`.
unfoldable pub to_nearest : ℤ → ℕ → ℤ
to_nearest x d = scale (floor_div x d +ℤ pos 1) d

-- `math.floor(math.log(i, 2))` for 1 ≤ i; `i` halvings are enough.
unfoldable pub log2_loop : ℕ → ℕ → ℕ
log2_loop zero i = 0
log2_loop (suc fuel) i = let rest = log2_loop fuel (i / 2) in if ltb i 2 then 0 else suc rest

unfoldable pub floor_log2 : ℕ → ℕ
unfolding log2_loop
floor_log2 i = log2_loop i i

-- The cutoff at tick `t` with `n` bins.
abbrev pub cutoff_at : ℕ → ℕ → ℕ → ℤ
cutoff_at t n d = to_nearest (pos t -ℤ pos ((2 ^ n - 1) * d)) d

-- How many backups are to go, so that there is room for one more.
abbrev pub stale_count {ℓ} : {A : Type ℓ} → List A → ℕ → ℕ
stale_count backups n = suc (length backups) - n

-- The bin of a backup made at tick `ts`, seen at tick `t`: the age in intervals of `d` ticks,
-- counted from 1, and its logarithm.
unfoldable pub bin : ℕ → ℕ → ℕ → ℕ
unfolding to_nearest floor_log2
bin t d ts = floor_log2 (pos_part (floor_div (to_nearest (pos t -ℤ pos ts) d) d))

-- `counts[j] += 1` and `counts[j] -= 1`; `none` is the `IndexError`.
unfoldable pub bump : List ℕ → ℕ → Option (List ℕ)
bump [] j = none
bump (c ∷ cs) zero = some (suc c ∷ cs)
bump (c ∷ cs) (suc j) = elim (bump cs j) [ none ↦ none | some cs' ↦ some (c ∷ cs') ]

unfoldable pub drop_one : List ℕ → ℕ → List ℕ
drop_one [] j = []
drop_one (c ∷ cs) zero = (c - 1) ∷ cs
drop_one (c ∷ cs) (suc j) = c ∷ drop_one cs j

-- Whether the first loop returned, or went on to the bins.
pub data Stage {ℓ} (A : Type ℓ) : Type ℓ where
  returned : List A → Stage A
  passed : List A → Stage A

-- Backups of any type with decidable equality, as the elements of a set, and their ticks.
module _ {ℓ} {A : Type ℓ} (same : Discrete A) (key : A → ℕ) where
  -- `sorted(backups, key=key)`, which is stable.
  unfoldable pub insert_sorted : A → List A → List A
  insert_sorted a [] = a ∷ []
  insert_sorted a (b ∷ bs) = if leb (key a) (key b) then a ∷ b ∷ bs else b ∷ insert_sorted a bs

  unfoldable pub sorted : List A → List A
  unfolding insert_sorted
  sorted [] = []
  sorted (a ∷ rest) = insert_sorted a (sorted rest)

  unfoldable pub contains : A → List A → Bool
  contains a [] = false
  contains a (b ∷ bs) = ite (same a b) true (contains a bs)

  -- `stale_backups.add(backup)`
  unfoldable pub add : A → List A → List A
  unfolding contains
  add a stale = if contains a stale then stale else a ∷ stale

  module _ (t d : ℕ) (cutoff : ℤ) (num_stale : ℕ) where
    abbrev pub ts : A → ℕ
    ts backup = min (key backup) t

    abbrev pub past : A → Bool
    past backup = ltb_ℤ (pos (ts backup)) cutoff

    abbrev pub bin_of : A → ℕ
    bin_of backup = bin t d (ts backup)

    -- The first loop: the backups past the cutoff, oldest first.
    unfoldable pub past_loop : List A → List A → Stage A
    past_loop [] stale = passed stale
    past_loop (backup ∷ backups) stale =
        let next = past_loop backups (add backup stale) in
        if ltb (length stale) num_stale
        then (if past backup then next else passed stale)
        else returned stale

    -- The second loop: how many backups each bin holds.
    unfoldable pub count_loop : List A → List ℕ → Option (List ℕ)
    count_loop [] counts = some counts
    count_loop (backup ∷ backups) counts =
        let skip = count_loop backups counts in
        if leb_ℤ cutoff (pos (ts backup))
        then elim (bump counts (bin_of backup)) [
          | none ↦ none
          | some counts' ↦ count_loop backups counts'
        ]
        else skip

    -- The third loop, newest first: bins that hold more than one give backups up.
    unfoldable pub thin_loop : List A → List ℕ → List A → Option (List A)
    thin_loop [] counts stale = some stale
    thin_loop (backup ∷ backups) counts stale =
        let keep = thin_loop backups counts stale in
        let j = bin_of backup in
        let remove = thin_loop backups (drop_one counts j) (add backup stale) in
        if ltb (length stale) num_stale
        then (if leb_ℤ cutoff (pos (ts backup))
            then elim (get_elem? counts j) [
              | none ↦ none
              | some count ↦ if ltb 1 count then remove else keep
            ]
            else keep)
        else some stale

    after_past : List A → ℕ → Stage A → Option (List A)
    after_past backups n (returned stale) = some stale
    after_past backups n (passed stale) = elim (count_loop backups (1 ∷ replicate (n - 1) 0)) [
      | none ↦ none
      | some counts ↦ thin_loop (reverse backups) counts stale
    ]

  -- The backups to remove, of which `none` stands for an `IndexError`.
  unfoldable pub get_stale_backups : List A → ℕ → ℕ → ℕ → Option (List A)
  unfolding after_past past_loop count_loop thin_loop
  get_stale_backups backups t n d =
      let ordered = sorted backups in
      let cutoff = cutoff_at t n d in
      let num_stale = stale_count ordered n in
      if num_stale == 0
      then some []
      else after_past t d cutoff num_stale ordered n (past_loop t d cutoff num_stale ordered [])
