-- ===== src/Backups/Strategy/Total.antt =====
-- The strategy on every list of backups: its indexing is in range, and it removes backups of the
-- list and no more of them than it has to.
use silkjam.Prelude.{
  ℕ, zero, suc, ◌-◌, ◌≤◌, ◌<◌, min, ◌≡◌, refl, ap, ◌∙◌, true, some, List, [], ◌∷◌, reverse, length,
  length-replicate, get_elem?, replicate, arith, ltb, ◌==◌, ltb→lt, leb→le, inl, inr, Bool-cases,
}
use silkjam.Prelude.Int.{ℤ, pos, leb_ℤ}
use silkjam.Backups.Strategy.{
  bump, drop_one, Stage, returned, passed, add, ts, bin_of, past_loop, count_loop, insert_sorted,
  thin_loop, after_past, get_stale_backups, cutoff_at, sorted, bin,
}
use silkjam.Backups.Strategy.Bins.{bin-lt, no_bins}

bump-in_range :
    (counts : List ℕ) (j : ℕ)
    → j < length counts
    → (cs : List ℕ) × (bump counts j ≡ some cs) × (length cs ≡ length counts)
unfolding bump
bump-in_range [] j h = absurd (omega arith)
bump-in_range (c ∷ cs) zero h = (suc c ∷ cs, refl, refl)
bump-in_range (c ∷ cs) (suc j) h =
    let (cs', e, len) = bump-in_range cs j (omega arith) in (c ∷ cs', rw e refl, ap suc len)

length-drop_one : (counts : List ℕ) (j : ℕ) → length (drop_one counts j) ≡ length counts
unfolding drop_one
length-drop_one [] j = refl
length-drop_one (c ∷ cs) zero = refl
length-drop_one (c ∷ cs) (suc j) = ap suc (length-drop_one cs j)

get_elem?-in_range : (xs : List ℕ) (j : ℕ) → j < length xs → (x : ℕ) × (get_elem? xs j ≡ some x)
get_elem?-in_range [] j h = absurd (omega arith)
get_elem?-in_range (x ∷ xs) zero h = (x, refl)
get_elem?-in_range (x ∷ xs) (suc j) h = get_elem?-in_range xs j (omega arith)

module _ {ℓ} {A : Type ℓ} (same : Discrete A) (key : A → ℕ) (t d : ℕ) (cutoff : ℤ)
    (num_stale : ℕ) where
  -- Every backup that is counted has a bin among the first `m`.
  abbrev Fits : ℕ → Type ℓ
  Fits m =
      (b : A)
      → leb_ℤ cutoff (pos (ts same key t d cutoff num_stale b)) ≡ true
      → bin_of same key t d cutoff num_stale b < m

  length-add : (b : A) (stale : List A) → length (add same key b stale) ≤ suc (length stale)
  unfolding add
  length-add b stale = ground arith

  count_loop_total :
      (bs : List A) (counts : List ℕ)
      → Fits (length counts)
      → (cs : List ℕ) × (count_loop same key t d cutoff num_stale bs counts ≡ some cs)
        × (length cs ≡ length counts)
  unfolding count_loop
  count_loop_total [] counts fits = (counts, refl, refl)
  count_loop_total (b ∷ bs) counts fits =
      elim (Bool-cases (leb_ℤ cutoff (pos (ts same key t d cutoff num_stale b)))) [
        | inl counted ↦
            let (cs, e, len) =
              bump-in_range counts (bin_of same key t d cutoff num_stale b) (fits b counted) in
            let (cs', e', len') = count_loop_total bs cs (λ b' h. omega (arith, fits b' h, len)) in
            (cs', rw (counted, e) e', len' ∙ len)
        | inr skipped ↦
            let (cs, e, len) = count_loop_total bs counts fits in (cs, rw skipped e, len)
      ]

  thin_loop_total :
      (bs : List A) (counts : List ℕ) (stale : List A)
      → Fits (length counts)
      → length stale ≤ num_stale
      → (r : List A) × (thin_loop same key t d cutoff num_stale bs counts stale ≡ some r)
        × (length r ≤ num_stale)
  unfolding thin_loop
  thin_loop_total [] counts stale fits few = (stale, refl, few)
  thin_loop_total (b ∷ bs) counts stale fits few =
      elim (Bool-cases (ltb (length stale) num_stale)) [
        | inr full ↦ (stale, rw full refl, few)
        | inl more ↦ elim (Bool-cases (leb_ℤ cutoff (pos (ts same key t d cutoff num_stale b)))) [
          | inr skipped ↦
              let (r, e, le) = thin_loop_total bs counts stale fits few in
              (r, rw (more, skipped) e, le)
          | inl counted ↦
              let j = bin_of same key t d cutoff num_stale b in
              let (c, e) = get_elem?-in_range counts j (fits b counted) in
              elim (Bool-cases (ltb 1 c)) [
                | inl crowded ↦
                    let (r, e', le) =
                      thin_loop_total bs (drop_one counts j) (add same key b stale)
                        (λ b' h. omega (arith, fits b' h, length-drop_one counts j))
                        (omega (arith, length-add b stale, ltb→lt (length stale) num_stale more)) in
                    (r, rw (more, counted, e, crowded) e', le)
                | inr single ↦
                    let (r, e', le) = thin_loop_total bs counts stale fits few in
                    (r, rw (more, counted, e, single) e', le)
              ]
        ]
      ]

  -- What a stage holds.
  abbrev held : Stage A → List A
  held (returned stale) = stale
  held (passed stale) = stale

  length-past_loop :
      (bs stale : List A)
      → length stale ≤ num_stale
      → length (held (past_loop same key t d cutoff num_stale bs stale)) ≤ num_stale
  unfolding past_loop
  length-past_loop [] stale few = few
  length-past_loop (b ∷ bs) stale few =
      ground (arith, length-add b stale, length-past_loop bs (add same key b stale))

  after_past_total :
      (bs : List A) (n : ℕ) (stage : Stage A)
      → Fits (suc (n - 1))
      → length (held stage) ≤ num_stale
      → (r : List A) × (after_past same key t d cutoff num_stale bs n stage ≡ some r)
        × (length r ≤ num_stale)
  unfolding after_past
  after_past_total bs n (returned stale) fits few = (stale, refl, few)
  after_past_total bs n (passed stale) fits few =
      let ones : List ℕ = 1 ∷ replicate (n - 1) 0 in
      let width : length ones ≡ suc (n - 1) = ap suc (length-replicate {A = ℕ} (n - 1) 0) in
      let (cs, e, len) = count_loop_total bs ones (λ b h. omega (arith, fits b h, width)) in
      let (r, e', le) =
        thin_loop_total (reverse bs) cs stale (λ b h. omega (arith, fits b h, width, len)) few in
      (r, rw (after_past, e) e', le)

-- The bins are enough, also where no backup may stay.
in_bins :
    (t d n s : ℕ) → 0 < d → s ≤ t → leb_ℤ (cutoff_at t n d) (pos s) ≡ true → bin t d s < suc (n - 1)
in_bins t d zero s hd hs h = absurd (no_bins t d s hd hs (leb→le _ _ h))
in_bins t d (suc n) s hd hs h = omega (arith, bin-lt t d n s hd hs (leb→le _ _ h))

module _ {ℓ} {A : Type ℓ} (same : Discrete A) (key : A → ℕ) where
  length-insert_sorted :
      (a : A) (bs : List A) → length (insert_sorted same key a bs) ≡ suc (length bs)
  unfolding insert_sorted
  length-insert_sorted a [] = refl
  length-insert_sorted a (b ∷ bs) = ground (arith, length-insert_sorted a bs)

  length-sorted : (bs : List A) → length (sorted same key bs) ≡ length bs
  unfolding sorted
  length-sorted [] = refl
  length-sorted (b ∷ bs) =
      omega (arith, length-insert_sorted b (sorted same key bs), length-sorted bs)

  -- For an interval above 0, the strategy indexes no bin out of range, and the backups it removes
  -- are at most as many as make room for one more, so n - 1 of them or all are kept.
  pub get_stale_backups_total :
      (backups : List A) (t n d : ℕ)
      → 0 < d
      → (stale : List A) × (get_stale_backups same key backups t n d ≡ some stale)
        × (length stale ≤ suc (length backups) - n)
  unfolding get_stale_backups
  get_stale_backups_total backups t n d hd =
      elim (Bool-cases (suc (length (sorted same key backups)) - n == 0)) [
        | inl enough ↦ ([], rw enough refl, omega arith)
        | inr many ↦
            let ordered = sorted same key backups in
            let num_stale = suc (length ordered) - n in
            let cutoff = cutoff_at t n d in
            let (stale, e, le) =
              after_past_total same key t d cutoff num_stale ordered n
                (past_loop same key t d cutoff num_stale ordered [])
                (λ b h. in_bins t d n (min (key b) t) hd (omega arith) h)
                (length-past_loop same key t d cutoff num_stale ordered [] (omega arith)) in
            (stale, rw many e, omega (arith, le, length-sorted backups))
      ]
