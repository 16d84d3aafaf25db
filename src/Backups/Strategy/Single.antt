-- ===== src/Backups/Strategy/Single.antt =====
-- The strategy on the only backup of a world that may keep one.
use silkjam.Prelude.{
  ℕ, ◌<◌, min, ◌≡◌, refl, true, false, some, [], ◌∷◌, arith, inl, inr, Bool-cases, leb→le,
}
use silkjam.Prelude.Int.{ℤ, pos, ltb_ℤ, leb_ℤ}
use silkjam.Backups.Strategy.{
  bump, add, contains, past_loop, count_loop, thin_loop, after_past, get_stale_backups, cutoff_at,
  sorted, insert_sorted, bin,
}
use silkjam.Backups.Strategy.Bins.{bin-lt}

module _ {ℓ} {A : Type ℓ} (same : Discrete A) (key : A → ℕ) (t d : ℕ) where
  one_round :
      (cutoff : ℤ) (b : A)
      → (leb_ℤ cutoff (pos (min (key b) t)) ≡ true → bin t d (min (key b) t) < 1)
      → after_past same key t d cutoff 1 (b ∷ []) 1 (past_loop same key t d cutoff 1 (b ∷ []) [])
        ≡ some (b ∷ [])
  unfolding after_past past_loop count_loop thin_loop add contains bump
  one_round cutoff b fits = elim (Bool-cases (ltb_ℤ (pos (min (key b) t)) cutoff)) [
    | inl past ↦
        let out : leb_ℤ cutoff (pos (min (key b) t)) ≡ false = ground arith in
        rw (past, after_past, count_loop, out) refl
    | inr recent ↦
        let counted : leb_ℤ cutoff (pos (min (key b) t)) ≡ true = ground arith in
        let first : bin t d (min (key b) t) ≡ 0 = omega (arith, fits counted) in
        rw (recent, after_past, count_loop, counted, first, thin_loop, counted, first) refl
  ]

  pub get_stale_backups-only :
      (b : A) → 0 < d → get_stale_backups same key (b ∷ []) t 1 d ≡ some (b ∷ [])
  unfolding get_stale_backups sorted insert_sorted
  get_stale_backups-only b hd =
      one_round (cutoff_at t 1 d) b
        (λ h. bin-lt t d 0 (min (key b) t) hd (omega arith) (leb→le _ _ h))
